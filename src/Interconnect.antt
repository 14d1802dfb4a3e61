-- ===== src/Interconnect.antt =====
-- The loops over pairs of GPUs that add edges between those that are directly connected, in
-- modules/nvml/nvml_impl.cc. `connected` is whether NVML reports the status OK for a pair of devices,
-- and `vertices` are the vertices of the devices.
pub mod Counted
pub mod Linked
pub mod Gpus
use yloc.Prelude.{ℕ, zero, suc, Bool, if◌then◌else◌}
use yloc.Graph.{BoostGraph, Graph, add_gpu_link}

module _ {Mask : Type 0} {boost : BoostGraph Mask} (connected : ℕ → ℕ → Bool)
    (vertices : ℕ → ℕ) where
  -- The body of the inner loop, with the number of interconnects.
  unfoldable pub link_pair : ℕ → ℕ → Graph boost × ℕ → Graph boost × ℕ
  link_pair src dst (g, n) =
      if connected src dst then (add_gpu_link (vertices src) (vertices dst) g, suc n) else (g, n)

  -- The inner loop, with the number of rounds that are left.
  unfoldable pub link_from : ℕ → ℕ → ℕ → Graph boost × ℕ → Graph boost × ℕ
  link_from src zero dst s = s
  link_from src (suc left) dst s = link_from src left (suc dst) (link_pair src dst s)

  -- The outer loop; the inner one has one round fewer than are left of it.
  unfoldable pub link_all : ℕ → ℕ → Graph boost × ℕ → Graph boost × ℕ
  link_all zero src s = s
  link_all (suc left) src s = link_all left (suc src) (link_from src left (suc src) s)

  unfoldable pub yloc_nvml_gpu_interconnect : ℕ → Graph boost → Graph boost × ℕ
  yloc_nvml_gpu_interconnect num_devices g = link_all num_devices 0 (g, 0)
