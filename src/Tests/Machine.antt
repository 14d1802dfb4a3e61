-- ===== src/Tests/Machine.antt =====
-- Runs of the hwloc module's init_graph (modules/hwloc/init_graph.cc) on a small topology.
use yloc.Prelude.{◌+◌, ◌*◌, ◌≡◌, refl, codes, ok, length, arith}
use yloc.Status.{success}
use yloc.External.Hwloc.{os_device}
use yloc.Graph.{Graph, BoostGraph, new_graph, edges, add_unnamed_vertex}
use yloc.Graph.WellFormed.{IsWellFormed}
use yloc.Graph.Changes.{Changes, Change, one_change}
use yloc.Graph.Invariants.{new_graph-IsWellFormed, Changes-IsWellFormed}
use yloc.Hwloc.Types.{hwloc_2_yloc_type}
use yloc.Hwloc.Table.{component_table, hwloc_2_yloc_type-table}
use yloc.Hwloc.Build.{make_hwloc_graph, init_graph}
use yloc.Hwloc.Structure.{descendants}
use yloc.Hwloc.Total.{IsSupported}
use yloc.Hwloc.Init.{IsInitialised, init_graph-IsInitialised, make_hwloc_graph-Built}
use yloc.Tests.Bits.{BitFun, function_bits}
use yloc.Tests.Cpus.{bitmap_list}
use yloc.Tests.Lists.{boost_of}
use yloc.Tests.Objects.{listed_hwloc, machine_tree, gpu_object}

abbrev graph_type : BoostGraph BitFun
graph_type = boost_of BitFun

abbrev empty_graph : Graph graph_type
empty_graph = new_graph graph_type

abbrev one_vertex : Graph graph_type
unfolding add_unnamed_vertex
one_vertex = (add_unnamed_vertex empty_graph).0

machine_tree-IsSupported : IsSupported machine_tree
unfolding IsSupported
machine_tree-IsSupported = (λ e. cc e, tt, ((λ _. refl), ((λ _. refl), tt, tt), tt))

init_graph-IsInitialised_example :
    (h : Graph graph_type) × (init_graph function_bits 4 bitmap_list listed_hwloc graph_type
        (codes "node7")
        machine_tree
        empty_graph
      ≡ ok (h, success))
    × IsInitialised function_bits 4 bitmap_list listed_hwloc graph_type
        (codes "node7")
        (descendants machine_tree)
        empty_graph
        h
init_graph-IsInitialised_example =
    init_graph-IsInitialised function_bits 4 bitmap_list listed_hwloc graph_type (codes "node7")
      machine_tree empty_graph refl refl machine_tree-IsSupported new_graph-IsWellFormed

-- A topology with three objects below its root.
three_objects : descendants machine_tree ≡ 3
unfolding descendants
three_objects = refl

one_vertex-IsWellFormed : IsWellFormed one_vertex
unfolding add_unnamed_vertex
one_vertex-IsWellFormed =
    Changes-IsWellFormed (one_change (unfold add_unnamed_vertex in Change.unnamed empty_graph))
      new_graph-IsWellFormed

make_hwloc_graph-Built_example :
    (h : Graph graph_type) × (make_hwloc_graph function_bits 4 bitmap_list listed_hwloc graph_type
        one_vertex 0 machine_tree
      ≡ ok h)
    × IsWellFormed h
    × Changes one_vertex h
    × (length (edges h) ≡ length (edges one_vertex) + 2 * descendants machine_tree)
    × (h.m_root_vertex ≡ one_vertex.m_root_vertex)
unfolding one_vertex
make_hwloc_graph-Built_example =
    make_hwloc_graph-Built function_bits 4 bitmap_list listed_hwloc graph_type one_vertex 0
      machine_tree machine_tree-IsSupported one_vertex-IsWellFormed (omega arith)

hwloc_2_yloc_type-table_example :
    hwloc_2_yloc_type listed_hwloc gpu_object ≡ component_table os_device gpu_object.attr
hwloc_2_yloc_type-table_example = hwloc_2_yloc_type-table listed_hwloc gpu_object
