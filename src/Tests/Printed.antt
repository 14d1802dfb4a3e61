-- ===== src/Tests/Printed.antt =====
-- find_distances (example/example.cc) on what the hwloc module builds of a machine with a PCI device
-- and an OS device that is a GPU.
use yloc.Prelude.{ℕ, ◌≡◌, refl, List, [], ◌∷◌, none, ok, codes}
use yloc.Status.{success}
use yloc.ComponentTypes.{accelerator}
use yloc.GraphElement.{Edge}
use yloc.Graph.{Graph, new_graph, edges}
use yloc.External.AdjacencyList.{Link}
use yloc.External.Hwloc.{machine}
use yloc.Hwloc.Build
use yloc.Examples.{found_accelerators, find_distances}
use yloc.Examples.Classes.{Is}
use yloc.Examples.Hosted.{hwloc_then_find_distances}
use yloc.Tests.Bits.{BitFun, function_bits}
use yloc.Tests.Cpus.{bitmap_list}
use yloc.Tests.Objects.{listed_hwloc, machine_tree}
use yloc.Tests.Hosted.{graph_type, object-IsOnline, machine_tree-HasReadable, one_device}
use yloc.Tests.Programs.{list_filtered}

abbrev edge_search : Graph graph_type → ℕ → List (Link (Edge BitFun))
edge_search g s = edges g

hwloc_then_find_distances_example :
    (h : Graph graph_type) × (Build.init_graph function_bits 4 bitmap_list listed_hwloc graph_type
        (codes "node7")
        machine_tree
        (new_graph graph_type)
      ≡ ok (h, success))
    × ((a : ℕ) → ¬ Is h accelerator a)
    × (find_distances list_filtered edge_search h ≡ ok (found_accelerators 0 ∷ []))
hwloc_then_find_distances_example =
    hwloc_then_find_distances function_bits 4 bitmap_list listed_hwloc graph_type list_filtered
      edge_search (codes "node7") machine_tree refl refl (object-IsOnline machine none)
      machine_tree-HasReadable one_device
