-- ===== src/Nvml/Adapter.antt =====
-- NvmlAdapter of modules/nvml/nvml_adapter.h, with the arithmetic on 64 bits written out.
use yloc.Prelude.{ℕ, zero, suc, ◌*◌, ◌/◌, ◌%◌, ◌^◌, ◌==◌, if◌then◌else◌, pos}
use yloc.Adapter.{Adapter, base_adapter, checked}
use yloc.Bdfid.{nvml_bdfid}
use yloc.External.Nvml.{Nvml, clock_mem, clock_graphics}

-- `static_cast<uint64_t>(clockMHz) * 1000 * 1000`
unfoldable pub hertz : ℕ → ℕ
hertz mhz = mhz * 1000 % 2 ^ 64 * 1000 % 2 ^ 64

-- `static_cast<uint64_t>(power) * 1000`
unfoldable pub microwatts : ℕ → ℕ
microwatts milliwatts = milliwatts * 1000 % 2 ^ 64

-- `ffs`: one more than the place of the lowest bit that is set among the first `n`, and 0 without one.
unfoldable pub ffs_within : ℕ → ℕ → ℕ
ffs_within zero x = 0
ffs_within (suc n) x =
    let above = ffs_within n (x / 2) in
    if x % 2 == 1 then 1 else if above == 0 then 0 else suc above

-- The argument is an int of 32 bits.
unfoldable pub ffs : ℕ → ℕ
unfolding ffs_within
ffs x = ffs_within 32 (x % 2 ^ 32)

module _ (nvml : Nvml) {Mask : Type 0} where
  unfoldable pub nvml_adapter : nvml.Device → Adapter Mask
  nvml_adapter d = record base_adapter {
    name = nvml.device_name d;
    memory = checked (λ m. m.total) (nvml.device_memory_info d);
    memory_usage = checked (λ m. m.used) (nvml.device_memory_info d);
    memory_load = checked (λ u. u.memory) (nvml.device_utilization_rates d);
    memory_frequency = checked hertz (nvml.device_clock d clock_mem);
    bdfid = checked nvml_bdfid (nvml.device_pci_info d);
    numa_affinity = checked ffs (nvml.device_memory_affinity d);
    temperature = checked (λ t. pos (t * 1000)) (nvml.device_temperature d);
    frequency = checked hertz (nvml.device_clock d clock_graphics);
    load = checked (λ u. u.gpu) (nvml.device_utilization_rates d);
    power = checked microwatts (nvml.device_power_usage d);
  }
