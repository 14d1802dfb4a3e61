-- ===== src/Tests/NvmlRuns.antt =====
-- Runs of the NVML module (modules/nvml/).
use yloc.Prelude.{
  ◌^◌, suc, ℕ, Text, to_string, find_key, text_eq, ◌<◌, ◌≡◌, ◌⊎◌, refl, ok, fault, some, arith,
}
use yloc.Status.{success}
use yloc.ComponentTypes.{pci_device}
use yloc.Bdfid.{nvml_bdfid}
use yloc.Graph.{BoostGraph, Graph, new_graph, num_vertices, modify, set_vertex, add_vertex}
use yloc.Graph.WellFormed.{IsWellFormed, add_vertex-IsWellFormed}
use yloc.Graph.Invariants.{new_graph-IsWellFormed, Changes-IsWellFormed}
use yloc.Graph.Changes.{Change, unchanged, changed}
use yloc.GraphElement.{Vertex}
use yloc.Hwloc.Build.{bdfid_id}
use yloc.Interconnect.Gpus.{IsGpuGraph}
use yloc.Nvml.Adapter.{nvml_adapter}
use yloc.Nvml.Build.{nvlink, init_graph}
use yloc.Nvml.Readings.{IsInUnits, nvml_adapter-IsInUnits}
use yloc.Nvml.Pci.{IsPci}
use yloc.Nvml.Marks.{id}
use yloc.Nvml.Init.{init_graph-outcome}
use yloc.Tests.Bits.{BitFun}
use yloc.Tests.Lists.{boost_of}
use yloc.Tests.Devices.{listed_nvml, address_of}

abbrev graph_type : BoostGraph BitFun
graph_type = boost_of BitFun

nvml_adapter-IsInUnits_example :
    IsInUnits listed_nvml BitFun 0
    × ((k : ℕ)
        → k < 32
        → listed_nvml.device_memory_affinity 0 ≡ some (2 ^ k)
        → (nvml_adapter listed_nvml {Mask = BitFun} 0).numa_affinity ≡ ok (some (suc k)))
nvml_adapter-IsInUnits_example = nvml_adapter-IsInUnits listed_nvml BitFun 0

-- The graph after hwloc has found the two devices.
abbrev address_id : ℕ → Text
address_id d = bdfid_id (nvml_bdfid (address_of d))

abbrev two_vertices : Graph graph_type
two_vertices = (add_vertex (address_id 1) (add_vertex (address_id 0) (new_graph graph_type)).0).0

abbrev as_pci : Vertex BitFun → Vertex BitFun
as_pci v = record v { m_type = pci_device }

abbrev two_devices : Graph graph_type
two_devices = modify (modify two_vertices 0 as_pci) 1 as_pci

two_vertices_count : num_vertices two_vertices ≡ 2
unfolding add_vertex nvml_bdfid find_key text_eq to_string
two_vertices_count = refl

two_devices-IsWellFormed : IsWellFormed two_devices
unfolding set_vertex
two_devices-IsWellFormed =
    let g = add_vertex (address_id 0) (new_graph graph_type) in
    let w =
      add_vertex-IsWellFormed g.0 (address_id 1)
        (add_vertex-IsWellFormed (new_graph graph_type) (address_id 0) new_graph-IsWellFormed) in
    let typed = modify two_vertices 0 as_pci in
    let one = Change.written two_vertices 0 _ (omega (arith, two_vertices_count)) in
    let two = Change.written typed 1 _ (omega (arith, two_vertices_count)) in
    Changes-IsWellFormed (changed (changed unchanged one) two) w

init_graph-outcome_example :
    ((i : ℕ) × (i < 2)
      × (¬ IsPci two_devices (id listed_nvml (λ i. i) address_of i))
      × (init_graph listed_nvml two_devices ≡ fault))
    ⊎ (((i : ℕ) → i < 2 → IsPci two_devices (id listed_nvml (λ i. i) address_of i))
        × (h : Graph graph_type) × (init_graph listed_nvml two_devices ≡ ok (h, success))
        × IsGpuGraph
            (id listed_nvml (λ i. i) address_of)
            (λ j. nvml_adapter listed_nvml j)
            2
            (nvlink listed_nvml)
            two_devices
            h)
init_graph-outcome_example =
    init_graph-outcome listed_nvml (λ i. i) address_of 2
      (record { handles = λ i l. refl; addresses = λ i l. refl }) two_devices refl
      two_devices-IsWellFormed
