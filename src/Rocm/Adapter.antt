-- ===== src/Rocm/Adapter.antt =====
-- RocmAdapter of modules/rocm/rocm_adapter.h. Its object is the index of a device.
use yloc.Prelude.{ℕ, ◌+◌, ◌%◌, ◌^◌, Option, none, some, Result, ok, fault, get_elem?, ◌>>=◌, List}
use yloc.Adapter.{Adapter, base_adapter, checked}
use yloc.External.Rocm.{RocmSmi, visible_vram, sys_clock, mem_clock, Frequencies, Throughput}

-- An element of an array, whose index is not checked.
unfoldable pub element_at : {A : Type 0} → List A → ℕ → Result A
element_at xs i = elim (get_elem? xs i) [ some x ↦ ok x | none ↦ fault ]

-- `f.frequency[f.current]`
unfoldable pub selected : Option Frequencies → Result (Option ℕ)
unfolding element_at
selected none = ok none
selected (some f) = do x ← element_at f.frequency f.current; ok (some x)

-- `sent + received` of 64 bits
unfoldable pub total_throughput : Throughput → ℕ
total_throughput t = (t.sent + t.received) % 2 ^ 64

module _ (smi : RocmSmi) {Mask : Type 0} where
  unfoldable pub rocm_adapter : ℕ → Adapter Mask
  rocm_adapter i = record base_adapter {
    name = smi.dev_name i;
    memory = checked (λ n. n) (smi.dev_memory_total i visible_vram);
    memory_usage = checked (λ n. n) (smi.dev_memory_usage i visible_vram);
    memory_load = checked (λ n. n) (smi.dev_memory_busy_percent i);
    memory_frequency = selected (smi.dev_gpu_clk_freq i mem_clock);
    bdfid = checked (λ n. n) (smi.dev_pci_id i);
    numa_affinity = checked (λ n. n) (smi.topo_numa_affinity i);
    temperature = checked (λ n. n) (smi.dev_temp_metric i);
    frequency = selected (smi.dev_gpu_clk_freq i sys_clock);
    load = checked (λ n. n) (smi.dev_busy_percent i);
    power = checked (λ n. n) (smi.dev_power_ave i 0);
    pci_throughput = checked total_throughput (smi.dev_pci_throughput i);
    pci_throughput_read = checked (λ t. t.received) (smi.dev_pci_throughput i);
    pci_throughput_write = checked (λ t. t.sent) (smi.dev_pci_throughput i);
  }
