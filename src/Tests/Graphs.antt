-- ===== src/Tests/Graphs.antt =====
-- Runs of the topology graph.
use yloc.Prelude.{◌≡◌, ◌↔◌, refl, some, none, codes, find_key, text_eq, arith}
use yloc.Graph.{BoostGraph, Graph, new_graph, num_vertices, add_vertex, subscript_id, add_child}
use yloc.Graph.WellFormed.{IsWellFormed}
use yloc.Graph.Identifiers.{add_vertex_twice, subscript_id_missing}
use yloc.Graph.Changes.{Change, Changes, unchanged, changed}
use yloc.Graph.Invariants.{new_graph-IsWellFormed, Changes-IsWellFormed}
use yloc.Graph.Pairing.{IsPaired, new_graph-IsPaired, Changes-IsPaired}
use yloc.Graph.Growth.{Extends, Changes-Extends}
use yloc.Tests.Bits.{BitFun}
use yloc.Tests.Lists.{boost_of}

abbrev graph_type : BoostGraph BitFun
graph_type = boost_of BitFun

abbrev empty_graph : Graph graph_type
empty_graph = new_graph graph_type

abbrev node_graph : Graph graph_type
node_graph = (add_vertex (codes "machine:a") empty_graph).0

abbrev two_nodes : Graph graph_type
two_nodes = (add_vertex (codes "mpi_rank:0") node_graph).0

abbrev joined : Graph graph_type
joined = add_child 0 1 two_nodes

two_vertices : num_vertices two_nodes ≡ 2
unfolding add_vertex find_key text_eq
two_vertices = refl

joining : Changes empty_graph joined
joining =
    changed
      (changed (changed unchanged (Change.named empty_graph (codes "machine:a")))
        (Change.named node_graph (codes "mpi_rank:0")))
      (Change.tied two_nodes 0 1 (omega (arith, two_vertices)) (omega (arith, two_vertices)))

add_vertex_twice_example :
    (((add_vertex (codes "machine:a") empty_graph).1
        ≡ (add_vertex (codes "mpi_rank:0") node_graph).1)
      ↔ (codes "machine:a" ≡ codes "mpi_rank:0"))
    × (add_vertex (codes "machine:a") node_graph
        ≡ (node_graph, (add_vertex (codes "machine:a") empty_graph).1))
add_vertex_twice_example =
    add_vertex_twice empty_graph (codes "machine:a") (codes "mpi_rank:0") new_graph-IsWellFormed

missing : find_key (codes "gpu:0") node_graph.m_identifier_map ≡ none
unfolding add_vertex find_key text_eq
missing = refl

at_zero : find_key (codes "machine:a") node_graph.m_identifier_map ≡ some 0
unfolding add_vertex find_key text_eq
at_zero = refl

subscript_id_missing_example :
    (add_vertex (codes "gpu:0") (subscript_id (codes "gpu:0") node_graph).0
      ≡ ((subscript_id (codes "gpu:0") node_graph).0, 0))
    × (num_vertices (subscript_id (codes "gpu:0") node_graph).0 ≡ num_vertices node_graph)
    × (¬ IsWellFormed (subscript_id (codes "gpu:0") node_graph).0)
subscript_id_missing_example =
    subscript_id_missing node_graph (codes "gpu:0") (codes "machine:a") missing at_zero

Changes-IsWellFormed_example : IsWellFormed joined
Changes-IsWellFormed_example = Changes-IsWellFormed joining new_graph-IsWellFormed

Changes-IsPaired_example : IsPaired joined
Changes-IsPaired_example = Changes-IsPaired joining new_graph-IsPaired

Changes-Extends_example : Extends empty_graph joined
Changes-Extends_example = Changes-Extends joining
