-- ===== src/Tests/Interconnects.antt =====
-- A run of the loops that link GPUs (modules/nvml/nvml_impl.cc).
use yloc.Prelude.{Memᴰ, ◌⊎◌, [], ℕ, ◌+◌, ◌*◌, ◌<◌, ◌≡◌, true, Bool, length, arith, ◌==◌}
use yloc.Graph.{BoostGraph, Graph, new_graph, edges, has_edge}
use yloc.GraphElement.{Edge, new_element}
use yloc.Graph.Changes.{Changes}
use yloc.External.AdjacencyList.{Link}
use yloc.Interconnect.Counted.{num_pairs}
use yloc.Interconnect.{yloc_nvml_gpu_interconnect}
use yloc.Interconnect.Linked.{IsLinkOf, yloc_nvml_gpu_interconnect-Linked}
use yloc.Tests.Bits.{BitFun}
use yloc.Tests.Lists.{boost_of}

abbrev graph_type : BoostGraph BitFun
graph_type = boost_of BitFun

-- Three devices at the vertices 1, 2 and 3, of which the first is connected to the others.
abbrev four_vertices : Graph graph_type
four_vertices = record (new_graph graph_type) {
  repr = record { count = 4; at = λ v. new_element; links = [] };
}

abbrev from_first : ℕ → ℕ → Bool
from_first i j = i == 0

abbrev after_host : ℕ → ℕ
after_host i = i + 1

abbrev linked : Graph graph_type × ℕ
linked = yloc_nvml_gpu_interconnect from_first after_host 3 four_vertices

yloc_nvml_gpu_interconnect-Linked_example :
    Changes four_vertices linked.0
    × (length (edges linked.0) ≡ length (edges four_vertices) + 2 * linked.1)
    × (linked.1 ≡ num_pairs from_first 3)
    × ((l : Link (Edge BitFun))
        → Memᴰ l (edges linked.0)
        → Memᴰ l (edges four_vertices)
          ⊎ IsLinkOf from_first after_host (λ i j. (i < j) × (j < 3)) l)
    × ((i j : ℕ)
        → i < j
        → j < 3
        → from_first i j ≡ true
        → (has_edge linked.0 (after_host i) (after_host j) ≡ true)
          × (has_edge linked.0 (after_host j) (after_host i) ≡ true))
yloc_nvml_gpu_interconnect-Linked_example =
    yloc_nvml_gpu_interconnect-Linked from_first after_host 3 four_vertices
      (λ i l. omega (arith, l))
