-- ===== src/Tests/Hosted.antt =====
-- A run of init (src/init.cc) with the hwloc module and the MPI module.
use yloc.Prelude.{
  ℕ, suc, ◌+◌, ◌≤◌, length, ◌<◌, ◌≡◌, refl, sym, subst, true, some, none, of_some, ok, codes, List,
  [], ◌∷◌, Option, Permᴰ, arith,
}
use yloc.Status.{success}
use yloc.Graph.{BoostGraph, Graph, new_graph}
use yloc.External.Hwloc.{HwlocAttr, HwlocObjType, machine, core, pci_device, os_device}
use yloc.Hwloc.Build
use yloc.Hwloc.Table.{place}
use yloc.Hwloc.Structure.{descendants}
use yloc.Hwloc.Devices.{AreDistinct, ids_below}
use yloc.Hwloc.Described.{IsOnline}
use yloc.Hwloc.Searchable.{HasReadable}
use yloc.Hwloc.Ready.{IsReady}
use yloc.Mpi
use yloc.Mpi.Processes.{AreAttached}
use yloc.Modules.{Module, init}
use yloc.Modules.Filled.{hwloc_module, mpi_module}
use yloc.Modules.Together.{init-AreAttached}
use yloc.Tests.Bits.{BitFun, function_bits}
use yloc.Tests.Cpus.{cpu_list, bitmap_list, holds}
use yloc.Tests.Lists.{boost_of}
use yloc.Tests.Objects.{attributes, listed_hwloc, machine_tree, object}
use yloc.Tests.Ranks.{three_ranks}
use yloc.Tests.Sorts.{insertion}

abbrev pub graph_type : BoostGraph BitFun
graph_type = boost_of BitFun

zero_online : (i : ℕ) → holds (0 ∷ []) i ≡ true → i < 4
zero_online i h = ground arith

pub object-IsOnline :
    (t : HwlocObjType) (a : Option HwlocAttr)
    → IsOnline function_bits 4 bitmap_list listed_hwloc graph_type (object t a)
object-IsOnline t a s e i h =
    zero_online i (subst (λ (x : List ℕ). holds x i ≡ true) (sym (of_some e)) h)

pub machine_tree-HasReadable :
    HasReadable function_bits 4 bitmap_list listed_hwloc graph_type machine_tree
unfolding HasReadable
machine_tree-HasReadable = (
  (λ e. cc e),
  object-IsOnline core none,
  tt,
  (
    (λ _. refl),
    object-IsOnline pci_device (some attributes),
    ((λ _. refl), object-IsOnline os_device (some attributes), tt, tt),
    tt,
  ),
)

pub one_device : AreDistinct (ids_below machine_tree)
unfolding AreDistinct ids_below place
one_device = ((λ m. elim m [ ]), tt)

abbrev mpi_listed_first : List (Module graph_type)
mpi_listed_first =
    mpi_module function_bits 4 cpu_list graph_type (insertion ℕ) 7 true (codes "node7") three_ranks
    ∷ hwloc_module function_bits 4 bitmap_list listed_hwloc graph_type (codes "node7") machine_tree
    ∷ []

enough : suc (descendants machine_tree) + length three_ranks ≤ 7
unfolding descendants
enough = omega arith

init-AreAttached_example :
    (h : Graph graph_type) × (k : Graph graph_type) × (Build.init_graph function_bits 4 bitmap_list
        listed_hwloc graph_type
        (codes "node7")
        machine_tree
        (new_graph graph_type)
      ≡ ok (h, success))
    × (init graph_type (insertion (Module graph_type)) mpi_listed_first (new_graph graph_type)
        ≡ ok (k, success))
    × IsReady function_bits 4 bitmap_list listed_hwloc graph_type
        (codes "node7")
        (ids_below machine_tree)
        (descendants machine_tree)
        h
    × (Mpi.init_graph function_bits 4 cpu_list graph_type
          (insertion ℕ)
          7
          true
          (codes "node7")
          three_ranks
          h
        ≡ some (ok (k, success)))
    × AreAttached function_bits 4 cpu_list graph_type (codes "node7") 0 three_ranks h k
init-AreAttached_example =
    init-AreAttached function_bits 4 bitmap_list listed_hwloc cpu_list graph_type (insertion ℕ)
      (insertion (Module graph_type)) (codes "node7") machine_tree three_ranks 7 mpi_listed_first
      (Permᴰ.swap refl refl) refl refl (object-IsOnline machine none) machine_tree-HasReadable
      one_device enough
