-- ===== src/External/Nvml.antt =====
-- The NVIDIA Management Library: the functions that modules/nvml calls. A call that does not return
-- NVML_SUCCESS is `none`.
use yloc.Prelude.{ℕ, ◌<◌, ◌^◌, ◌≡◌, Option, some, Bool, Text}
use yloc.Bdfid.{PciAddress}

-- nvmlMemory_t, nvmlUtilization_t
pub record NvmlMemory : Type 0 where
  pub total : ℕ
  pub used : ℕ

pub record NvmlUtilization : Type 0 where
  pub gpu : ℕ
  pub memory : ℕ

-- nvmlClockType_t
pub data ClockKind : Type 0 where
  clock_mem clock_graphics : ClockKind

pub record Nvml : Type 1 where
  -- nvmlDevice_t
  pub Device : Type 0
  pub device_count : Option ℕ
  pub device_handle_by_index : ℕ → Option Device
  -- The text in the buffer behind nvmlDeviceGetName.
  pub device_name : Device → Text
  pub device_memory_info : Device → Option NvmlMemory
  pub device_utilization_rates : Device → Option NvmlUtilization
  -- The current clock in MHz.
  pub device_clock : Device → ClockKind → Option ℕ
  -- The domain, bus and device of nvmlPciInfo_t, with the function that its bus identifier names.
  pub device_pci_info : Device → Option PciAddress
  -- The first word of the set of nodes.
  pub device_memory_affinity : Device → Option ℕ
  -- in degrees Celsius
  pub device_temperature : Device → Option ℕ
  -- in milliwatts
  pub device_power_usage : Device → Option ℕ
  -- Whether the status of the NVLINK index reads as NVML_P2P_STATUS_OK.
  pub p2p_status_ok : Device → Device → Bool
  -- The output variables of type unsigned int have 32 bits.
  pub clock_fits : (d : Device) (k : ClockKind) {n : ℕ} → device_clock d k ≡ some n → n < 2 ^ 32
  pub temperature_fits : (d : Device) {n : ℕ} → device_temperature d ≡ some n → n < 2 ^ 32
  pub power_fits : (d : Device) {n : ℕ} → device_power_usage d ≡ some n → n < 2 ^ 32
