-- ===== src/Nvml.antt =====
-- The NVML module (modules/nvml/): its adapter, its init_graph and what they do.
pub mod Adapter
pub mod Build
pub mod Readings
pub mod Pci
pub mod Marks
pub mod Init
