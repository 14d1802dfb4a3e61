-- ===== src/Rocm.antt =====
-- The ROCm module (modules/rocm/): its adapter, its init_graph and what they do.
pub mod Adapter
pub mod Build
pub mod Marks
pub mod Init
