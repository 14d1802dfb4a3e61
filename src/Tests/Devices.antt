-- ===== src/Tests/Devices.antt =====
-- An NVML and a ROCm SMI with two devices each, for the runs of modules/nvml and modules/rocm.
use yloc.Prelude.{
  ℕ, ◌<◌, ◌^◌, ◌==◌, if◌then◌else◌, some, none, codes, true, of_some, [], ◌∷◌, arith, subst,
}
use yloc.Bdfid.{PciAddress}
use yloc.External.Nvml.{Nvml}
use yloc.External.Rocm.{RocmSmi, Bandwidth}

-- The devices are at the bus 1, and have the NUMA node 3.
abbrev pub address_of : ℕ → PciAddress
address_of d = record { domain = 0; bus = 1; device = d; function = 0 }

abbrev pub listed_nvml : Nvml
listed_nvml = record {
  Device = ℕ;
  device_count = some 2;
  device_handle_by_index = λ i. some i;
  device_name = λ d. codes "A100";
  device_memory_info = λ d. some (record { total = 40000; used = 100 });
  device_utilization_rates = λ d. none;
  device_clock = λ d k. some 1410;
  device_pci_info = λ d. some (address_of d);
  device_memory_affinity = λ d. some 8;
  device_temperature = λ d. some 30;
  device_power_usage = λ d. some 50000;
  p2p_status_ok = λ d e. true;
  clock_fits = λ d k e. subst (λ n. n < 2 ^ 32) (of_some e) (omega arith);
  temperature_fits = λ d e. subst (λ n. n < 2 ^ 32) (of_some e) (omega arith);
  power_fits = λ d e. subst (λ n. n < 2 ^ 32) (of_some e) (omega arith);
}

-- Two transfer rates, of which the first is selected.
abbrev pub two_rates : Bandwidth
two_rates = record {
  transfer_rate = record { num_supported = 2; current = 0; frequency = 2500 ∷ 8000 ∷ [] };
  lanes = 1 ∷ 16 ∷ [];
}

-- The address of the second device cannot be read.
abbrev pub listed_smi : RocmSmi
listed_smi = record {
  num_monitor_devices = some 2;
  dev_name = λ i. codes "MI100";
  dev_memory_total = λ i t. some 32000;
  dev_memory_usage = λ i t. none;
  dev_memory_busy_percent = λ i. none;
  dev_gpu_clk_freq = λ i t. none;
  dev_pci_id = λ i. if i == 0 then some 256 else none;
  dev_pci_bandwidth = λ i. some two_rates;
  topo_numa_affinity = λ i. some 3;
  dev_temp_metric = λ i. none;
  dev_busy_percent = λ i. none;
  dev_power_ave = λ i s. none;
  dev_pci_throughput = λ i. none;
  topo_get_link_type = λ i j. some 1;
  sent_fits = λ i e. absurd (cc e);
  received_fits = λ i e. absurd (cc e);
}
