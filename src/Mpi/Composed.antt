-- ===== src/Mpi/Composed.antt =====
-- init_graph of modules/mpi/init_graph.cc on the graph that modules/hwloc/init_graph.cc has built: the
-- modules of the first and of the second order on one machine.
use yloc.Prelude.{
  ℕ, suc, ◌+◌, ◌-◌, ◌/◌, ◌^◌, ◌≤◌, ◌≡◌, ap, List, [], ◌∷◌, true, Text, length, Memᴰ, some, ok, inl,
  inr, arith,
}
use yloc.Prelude.Sorting.{Sorting}
use yloc.Status.{success}
use yloc.Graph.{BoostGraph, Graph, new_graph, num_vertices}
use yloc.External.Bitset.{Bitset}
use yloc.External.CpuSets.{CpuSet, Bitmap}
use yloc.External.Hwloc.{Hwloc, HwlocObj, machine}
use yloc.Hwloc.Build
use yloc.Hwloc.Build.{info_of, bdfid_id}
use yloc.Hwloc.Structure.{descendants}
use yloc.Hwloc.Devices.{AreDistinct, ids_below, ids_below_bdfid_lem}
use yloc.Hwloc.Described.{IsOnline}
use yloc.Hwloc.Searchable.{HasReadable}
use yloc.Hwloc.Ready.{IsReady, init_graph-IsReady}
use yloc.Mpi
use yloc.Mpi.{rank_id}
use yloc.Mpi.Round.{machine_not_rank}
use yloc.Mpi.Processes.{AreAttached, init_graph-AreAttached}

abbrev first_code : Text → ℕ
first_code [] = 0
first_code (c ∷ s) = c

-- A rank has no identifier of a device.
rank_no_device :
    {Cpus : Type 0} (root : HwlocObj Cpus) (j : ℕ) → ¬ Memᴰ (rank_id j) (ids_below root)
rank_no_device root j m =
    let (n, e) = ids_below_bdfid_lem root (rank_id j) m in
    let texts : first_code (rank_id j) ≡ first_code (bdfid_id n) = ap first_code e in
    absurd (omega (arith, texts))

module _ (bits : Bitset) (nprocs : ℕ) (bitmap : Bitmap) (hw : Hwloc) (c : CpuSet)
    (boost : BoostGraph bits.Bits) (sorting : Sorting ℕ) where
  -- Where the versions of hwloc agree, the root object is the machine, the objects have their
  -- attributes and processors that are online, no two PCI devices have the same address, and MPI is
  -- initialised, the hwloc module and after it the MPI module succeed on the empty graph, if the fuel
  -- of each search is at least the number of objects and processes together. The first leaves a
  -- connected graph in which the root is the machine of the host; the second leaves every rank
  -- attached as in init_graph-AreAttached.
  pub hwloc_then_mpi-AreAttached :
      (hostname : Text) (root : HwlocObj bitmap.Carrier) (ps : List (Text × c.Carrier)) (fuel : ℕ)
      → hw.api_version / 2 ^ 16 ≡ hw.header_version / 2 ^ 16
      → (info_of bits nprocs bitmap hw boost root).type ≡ machine
      → IsOnline bits nprocs bitmap hw boost (info_of bits nprocs bitmap hw boost root)
      → HasReadable bits nprocs bitmap hw boost root
      → AreDistinct (ids_below root)
      → suc (descendants root) + length ps ≤ fuel
      → (h : Graph boost) × (k : Graph boost) × (Build.init_graph bits nprocs bitmap hw boost
            hostname root
            (new_graph boost)
          ≡ ok (h, success))
        × IsReady bits nprocs bitmap hw boost hostname (ids_below root) (descendants root) h
        × (Mpi.init_graph bits nprocs c boost sorting fuel true hostname ps h
            ≡ some (ok (k, success)))
        × AreAttached bits nprocs c boost hostname 0 ps h k
  hwloc_then_mpi-AreAttached hostname root ps fuel same is_machine on readable distinct l =
      let (h, e, r) =
        init_graph-IsReady bits nprocs bitmap hw boost hostname root same is_machine on readable
          distinct in
      elim (init_graph-AreAttached bits nprocs c boost hostname sorting fuel true ps h
        (λ v. num_vertices h - v) r.searchable
        (λ j. r.other_ids (rank_id j) (machine_not_rank hostname j) (rank_no_device root j))
        (omega (arith, r.size, l))) [
          | inl (off, _) ↦ cc off
          | inr (_, k, f, a) ↦ (h, k, e, r, f, a)
        ]
