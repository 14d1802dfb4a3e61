-- ===== src/Modules/Together.antt =====
-- init of src/init.cc with the hwloc module and the MPI module.
use yloc.Prelude.{
  ℕ, suc, ◌+◌, ◌/◌, ◌^◌, ◌≤◌, ◌≡◌, refl, ap, ◌∙◌, List, [], ◌∷◌, Permᴰ, true, Text, length, ok,
  some, ◌>>=◌,
}
use yloc.Prelude.Sorting.{Sorting, sort_two}
use yloc.Status.{success}
use yloc.Graph.{BoostGraph, Graph, new_graph}
use yloc.External.Bitset.{Bitset}
use yloc.External.CpuSets.{CpuSet, Bitmap}
use yloc.External.Hwloc.{Hwloc, HwlocObj, machine}
use yloc.Hwloc.Build
use yloc.Hwloc.Build.{info_of}
use yloc.Hwloc.Structure.{descendants}
use yloc.Hwloc.Devices.{AreDistinct, ids_below}
use yloc.Hwloc.Described.{IsOnline}
use yloc.Hwloc.Searchable.{HasReadable}
use yloc.Hwloc.Ready.{IsReady}
use yloc.Mpi
use yloc.Mpi.Processes.{AreAttached}
use yloc.Mpi.Composed.{hwloc_then_mpi-AreAttached}
use yloc.Modules.{Module, init, run_modules, order_value}
use yloc.Modules.Filled.{hwloc_module, mpi_module}

module _ (bits : Bitset) (nprocs : ℕ) (bitmap : Bitmap) (hw : Hwloc) (c : CpuSet)
    (boost : BoostGraph bits.Bits) (sorting : Sorting ℕ) (sorting_modules : Sorting (Module boost))
    (hostname : Text) (root : HwlocObj bitmap.Carrier) (ps : List (Text × c.Carrier))
    (fuel : ℕ) where
  abbrev first_module : Module boost
  first_module = hwloc_module bits nprocs bitmap hw boost hostname root

  abbrev second_module : Module boost
  second_module = mpi_module bits nprocs c boost sorting fuel true hostname ps

  -- The list of the two modules, whatever its order, is sorted to the hwloc module and the MPI module.
  sorted_modules :
      (modules : List (Module boost))
      → Permᴰ modules (first_module ∷ second_module ∷ [])
      → (sorting_modules (λ m. order_value m.m_init_order)).sort modules
        ≡ first_module ∷ second_module ∷ []
  unfolding order_value
  sorted_modules modules r =
      sort_two sorting_modules (λ m. order_value m.m_init_order) first_module second_module modules
        refl r

  -- The two modules one after the other.
  run_two :
      (g h k : Graph boost)
      → Build.init_graph bits nprocs bitmap hw boost hostname root g ≡ ok (h, success)
      → Mpi.init_graph bits nprocs c boost sorting fuel true hostname ps h ≡ some (ok (k, success))
      → run_modules boost (first_module ∷ second_module ∷ []) g ≡ ok k
  unfolding run_modules
  run_two g h k e f = rw (e, f) refl

  -- Where MPI is initialised and the hwloc module and the MPI module are the only ones, in whichever
  -- order they are listed, init succeeds on the empty graph, if the versions of hwloc agree, the root
  -- object is the machine, the objects have their attributes and processors that are online, no two
  -- PCI devices have the same address, and the fuel of each search is at least the number of objects
  -- and processes together. The graph is that which the MPI module leaves of the one that the hwloc
  -- module leaves of the empty graph; in the latter the root is the machine of the host and any two
  -- vertices are connected, and in the former every rank is attached as in init_graph-AreAttached.
  pub init-AreAttached :
      (modules : List (Module boost))
      → Permᴰ modules (first_module ∷ second_module ∷ [])
      → hw.api_version / 2 ^ 16 ≡ hw.header_version / 2 ^ 16
      → (info_of bits nprocs bitmap hw boost root).type ≡ machine
      → IsOnline bits nprocs bitmap hw boost (info_of bits nprocs bitmap hw boost root)
      → HasReadable bits nprocs bitmap hw boost root
      → AreDistinct (ids_below root)
      → suc (descendants root) + length ps ≤ fuel
      → (h : Graph boost) × (k : Graph boost) × (Build.init_graph bits nprocs bitmap hw boost
            hostname root
            (new_graph boost)
          ≡ ok (h, success))
        × (init boost sorting_modules modules (new_graph boost) ≡ ok (k, success))
        × IsReady bits nprocs bitmap hw boost hostname (ids_below root) (descendants root) h
        × (Mpi.init_graph bits nprocs c boost sorting fuel true hostname ps h
            ≡ some (ok (k, success)))
        × AreAttached bits nprocs c boost hostname 0 ps h k
  unfolding init
  init-AreAttached modules r same is_machine on readable distinct l =
      let (h, k, e, ready, f, attached) =
        hwloc_then_mpi-AreAttached bits nprocs bitmap hw c boost sorting hostname root ps fuel same
          is_machine on readable distinct l in
      (
        h,
        k,
        e,
        ap (λ ms. run_modules boost ms (new_graph boost) >>= λ x. ok (x, success))
              (sorted_modules modules r)
            ∙ ap (λ x. x >>= λ y. ok (y, success)) (run_two (new_graph boost) h k e f),
        ready,
        f,
        attached,
      )
