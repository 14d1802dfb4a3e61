-- ===== src/External/Rocm.antt =====
-- The ROCm SMI library: the functions that modules/rocm calls. A call that does not return
-- RSMI_STATUS_SUCCESS is `none`; what it leaves in its output variables is then not determined.
use yloc.Prelude.{ℕ, ◌<◌, ◌^◌, ◌≡◌, Option, some, List, Text, ℤ}

-- rsmi_memory_type_t, rsmi_clk_type_t
pub data MemoryType : Type 0 where
  vram visible_vram gtt : MemoryType

pub data ClockType : Type 0 where
  sys_clock mem_clock : ClockType

-- rsmi_frequencies_t
pub record Frequencies : Type 0 where
  pub num_supported : ℕ
  pub current : ℕ
  pub frequency : List ℕ

-- rsmi_pcie_bandwidth_t
pub record Bandwidth : Type 0 where
  pub transfer_rate : Frequencies
  pub lanes : List ℕ

-- The output variables of rsmi_dev_pci_throughput_get.
pub record Throughput : Type 0 where
  pub sent : ℕ
  pub received : ℕ
  pub max_pkt_sz : ℕ

pub record RocmSmi : Type 0 where
  pub num_monitor_devices : Option ℕ
  -- The text in the buffer behind rsmi_dev_name_get.
  pub dev_name : ℕ → Text
  pub dev_memory_total : ℕ → MemoryType → Option ℕ
  pub dev_memory_usage : ℕ → MemoryType → Option ℕ
  pub dev_memory_busy_percent : ℕ → Option ℕ
  pub dev_gpu_clk_freq : ℕ → ClockType → Option Frequencies
  pub dev_pci_id : ℕ → Option ℕ
  pub dev_pci_bandwidth : ℕ → Option Bandwidth
  pub topo_numa_affinity : ℕ → Option ℕ
  -- RSMI_TEMP_TYPE_EDGE, RSMI_TEMP_CURRENT
  pub dev_temp_metric : ℕ → Option ℤ
  pub dev_busy_percent : ℕ → Option ℕ
  -- of the sensor with the given index
  pub dev_power_ave : ℕ → ℕ → Option ℕ
  pub dev_pci_throughput : ℕ → Option Throughput
  -- The hops of rsmi_topo_get_link_type.
  pub topo_get_link_type : ℕ → ℕ → Option ℕ
  -- The output variables are unsigned and have 64 bits.
  pub sent_fits : (i : ℕ) {t : Throughput} → dev_pci_throughput i ≡ some t → t.sent < 2 ^ 64
  pub received_fits : (i : ℕ) {t : Throughput} → dev_pci_throughput i ≡ some t → t.received < 2 ^ 64
