-- ===== src/Rocm/Build.antt =====
-- How modules/rocm/rocm_impl.cc adds AMD GPUs to the topology graph. `smi` is the ROCm SMI library, and
-- `stale_hops` is what the variable `hops` holds where the call that should write it fails. Reading any
-- other variable that no call has written is a fault. What is only printed is left out.
use yloc.Prelude.{
  ℕ, zero, suc, ◌+◌, ◌-◌, ◌*◌, ◌%◌, ◌^◌, ◌==◌, ◌&&◌, Bool, if◌then◌else◌, Option, some, none,
  Result, ok, fault, ◌>>=◌,
}
use yloc.Status.{Status, success}
use yloc.ComponentTypes.{pci_device, accelerator, gpu}
use yloc.GraphElement.{Vertex, add_adapter, is_a}
use yloc.Graph.{BoostGraph, Graph, vertex_at, modify, add_vertex}
use yloc.External.Rocm.{RocmSmi, Bandwidth}
use yloc.Hwloc.Build.{bdfid_id, value}
use yloc.Interconnect.{link_all}
use yloc.Interconnect.Gpus.{set_index}
use yloc.Rocm.Adapter.{element_at, rocm_adapter}

-- An output variable after a call: a call that fails does not write it.
abbrev pub written_or : {A : Type 0} → Option A → Option A → Option A
written_or (some new) old = some new
written_or none old = old

-- `f.frequency[i] * lanes[i]`
unfoldable pub bandwidth_at : Bandwidth → ℕ → Result ℕ
unfolding element_at
bandwidth_at b i = do
  rate ← element_at b.transfer_rate.frequency i
  lanes ← element_at b.lanes i
  ok (rate * lanes % 2 ^ 64)

-- The maximal and the current bandwidth of the PCI link. The last index is computed with 32 bits.
unfoldable pub pcie_bandwidths : Bandwidth → Result (ℕ × ℕ)
unfolding bandwidth_at
pcie_bandwidths b = do
  maximal ← bandwidth_at b ((b.transfer_rate.num_supported + 2 ^ 32 - 1) % 2 ^ 32)
  current ← bandwidth_at b b.transfer_rate.current
  ok (maximal, current)

-- The graph, `vertices`, and `bdfid`, which is declared outside the loop and not initialised.
pub record Found {Mask : Type 0} (boost : BoostGraph Mask) : Type 0 where
  pub graph : Graph boost
  pub vertices : ℕ → ℕ
  pub bdfid : Option ℕ

module _ (smi : RocmSmi) where
  -- The lines that change the vertex of a device.
  unfoldable pub describe_gpu : {Mask : Type 0} → ℕ → Vertex Mask → Vertex Mask
  describe_gpu {Mask} i v = record (add_adapter v (rocm_adapter smi i)) {
    m_description = (rocm_adapter smi {Mask = Mask} i).name;
    m_type = gpu;
  }

  module _ {Mask : Type 0} {boost : BoostGraph Mask} where
    -- One round of the loop over the devices.
    unfoldable pub add_device : ℕ → Found boost → Result (Found boost)
    unfolding pcie_bandwidths describe_gpu
    add_device i s = do
      n ← value (written_or (smi.dev_pci_id i) s.bdfid)
      b ← value (smi.dev_pci_bandwidth i)
      printed ← pcie_bandwidths b
      let (g, vd) = add_vertex (bdfid_id n) s.graph
      let h = modify g vd (describe_gpu i)
      if is_a (vertex_at h vd) pci_device
            && (is_a (vertex_at h vd) accelerator && is_a (vertex_at h vd) gpu)
          then ok (record { graph = h; vertices = set_index s.vertices i vd; bdfid = some n })
          else fault

    -- The loop from the device `i` on, with the number of rounds that are left.
    unfoldable pub add_devices : ℕ → ℕ → Found boost → Result (Found boost)
    unfolding add_device
    add_devices zero i s = ok s
    add_devices (suc left) i s = do t ← add_device i s; add_devices left (suc i) t

  -- `hops == 1`
  unfoldable pub one_hop : (ℕ → ℕ → ℕ) → ℕ → ℕ → Bool
  one_hop stale_hops i j = elim (smi.topo_get_link_type i j) [
    | some hops ↦ hops == 1
    | none ↦ stale_hops i j == 1
  ]

  module _ {Mask : Type 0} {boost : BoostGraph Mask} (stale_hops : ℕ → ℕ → ℕ) where
    unfoldable pub yloc_rocm_gpu_interconnect : (ℕ → ℕ) → ℕ → Graph boost → Graph boost × ℕ
    yloc_rocm_gpu_interconnect vertices num_devices g =
        link_all (one_hop stale_hops) vertices num_devices 0 (g, 0)

    -- `ModuleRocm::init_graph`. It goes on where rsmi_init fails.
    unfoldable pub init_graph : Graph boost → Result (Graph boost × Status)
    unfolding add_devices yloc_rocm_gpu_interconnect
    init_graph g = do
      num_devices ← value smi.num_monitor_devices
      s ← add_devices num_devices 0 (record { graph = g; vertices = λ _. 0; bdfid = none })
      ok ((yloc_rocm_gpu_interconnect s.vertices num_devices s.graph).0, success)
