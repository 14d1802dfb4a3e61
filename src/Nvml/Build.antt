-- ===== src/Nvml/Build.antt =====
-- How modules/nvml/nvml_impl.cc marks NVIDIA GPUs in the topology graph. Reading a variable that a failing
-- call left unwritten is a fault.
use yloc.Prelude.{ℕ, zero, suc, Bool, false, if◌then◌else◌, some, none, Result, ok, fault, ◌>>=◌}
use yloc.Status.{Status, success}
use yloc.ComponentTypes.{pci_device, gpu}
use yloc.GraphElement.{Vertex, add_adapter, is_a}
use yloc.Graph.{BoostGraph, Graph, vertex_at, modify, add_vertex}
use yloc.External.Nvml.{Nvml}
use yloc.Hwloc.Build.{bdfid_id, value}
use yloc.Interconnect.{yloc_nvml_gpu_interconnect}
use yloc.Interconnect.Gpus.{set_index}
use yloc.Nvml.Adapter.{nvml_adapter}

abbrev pub set_gpu : {Mask : Type 0} → Vertex Mask → Vertex Mask
set_gpu v = record v { m_type = gpu }

module _ (nvml : Nvml) where
  -- Whether NVML reports that the devices of two indices are connected.
  unfoldable pub nvlink : ℕ → ℕ → Bool
  nvlink i j = elim (nvml.device_handle_by_index i) [
    | some d ↦ elim (nvml.device_handle_by_index j) [
      | some e ↦ nvml.p2p_status_ok d e
      | none ↦ false
    ]
    | none ↦ false
  ]

  module _ {Mask : Type 0} {boost : BoostGraph Mask} where
    -- One round of the loop over the devices, on the graph and `vertices`. Only a vertex that is a PCI
    -- device already passes the assertion.
    unfoldable pub add_device : ℕ → Graph boost × (ℕ → ℕ) → Result (Graph boost × (ℕ → ℕ))
    add_device i (g, vertices) = do
      device ← value (nvml.device_handle_by_index i)
      bdfid ← (nvml_adapter nvml {Mask = Mask} device).bdfid
      n ← value bdfid
      let (g1, vd) = add_vertex (bdfid_id n) g
      let g2 = modify g1 vd (λ v. add_adapter v (nvml_adapter nvml device))
      if is_a (vertex_at g2 vd) pci_device
          then ok (modify g2 vd set_gpu, set_index vertices i vd)
          else fault

    -- The loop from the device `i` on, with the number of rounds that are left.
    unfoldable pub add_devices : ℕ → ℕ → Graph boost × (ℕ → ℕ) → Result (Graph boost × (ℕ → ℕ))
    unfolding add_device
    add_devices zero i s = ok s
    add_devices (suc left) i s = do t ← add_device i s; add_devices left (suc i) t

    -- `ModuleNvml::init_graph`. It goes on where nvmlInit fails.
    unfoldable pub init_graph : Graph boost → Result (Graph boost × Status)
    unfolding add_devices nvlink
    init_graph g = do
      num_devices ← value nvml.device_count
      (h, vertices) ← add_devices num_devices 0 (g, λ _. 0)
      ok ((yloc_nvml_gpu_interconnect nvlink vertices num_devices h).0, success)
