-- ===== src/Examples/Hosted.antt =====
-- find_distances of example/example.cc on the graph that the hwloc module (modules/hwloc/init_graph.cc) has
-- built.
use yloc.Prelude.{Memᴰ, refl, inl, inr, ℕ, ◌/◌, ◌^◌, ◌≡◌, sym, subst, List, [], ◌∷◌, Text, ok}
use yloc.Status.{success}
use yloc.ComponentTypes.{accelerator}
use yloc.GraphElement.{Vertex, Edge}
use yloc.Graph.{BoostGraph, Graph, new_graph}
use yloc.External.AdjacencyList.{Link}
use yloc.External.FilteredGraph.{FilteredGraph}
use yloc.External.Bitset.{Bitset}
use yloc.External.CpuSets.{Bitmap}
use yloc.External.Hwloc.{Hwloc, HwlocObj, machine}
use yloc.Hwloc.Build
use yloc.Hwloc.Build.{info_of}
use yloc.Hwloc.Devices.{AreDistinct, ids_below}
use yloc.Hwloc.Described.{IsOnline}
use yloc.Hwloc.Searchable.{HasReadable}
use yloc.Hwloc.Ready.{init_graph-IsReady}
use yloc.Examples.{view_of, found_accelerators, find_distances}
use yloc.Examples.Classes.{Is, in_view_iff}
use yloc.Examples.Nearest.{List-cases, none_found}

module _ {Mask : Type 0} {boost : BoostGraph Mask}
    (filtered : FilteredGraph (Vertex Mask) (Edge Mask))
    (breadth_first_search : Graph boost → ℕ → List (Link (Edge Mask))) where
  -- A graph without an accelerator.
  none_there :
      (g : Graph boost)
      → ((a : ℕ) → ¬ Is g accelerator a)
      → find_distances filtered breadth_first_search g ≡ ok (found_accelerators 0 ∷ [])
  none_there g none_is = elim (List-cases (view_of filtered g accelerator).vertices) [
    | inl e ↦ (none_found filtered breadth_first_search g e).1
    | inr (a, rest, e) ↦ absurd (
        none_is a
          ((in_view_iff filtered g accelerator a).0 (subst (Memᴰ a) (sym e) (Memᴰ.head refl))))
  ]

module _ (bits : Bitset) (nprocs : ℕ) (bitmap : Bitmap) (hw : Hwloc) (boost : BoostGraph bits.Bits)
    (filtered : FilteredGraph (Vertex bits.Bits) (Edge bits.Bits))
    (breadth_first_search : Graph boost → ℕ → List (Link (Edge bits.Bits))) where
  -- Where the versions of hwloc agree, the root object is the machine, the objects have their
  -- attributes and processors that are online, and no two PCI devices have the same address: the hwloc
  -- module succeeds on the empty graph with one that has no accelerator, whatever OS devices the
  -- machine has, since their types are logical ones; so find_distances prints that it has found 0
  -- accelerators, and nothing else.
  pub hwloc_then_find_distances :
      (hostname : Text) (root : HwlocObj bitmap.Carrier)
      → hw.api_version / 2 ^ 16 ≡ hw.header_version / 2 ^ 16
      → (info_of bits nprocs bitmap hw boost root).type ≡ machine
      → IsOnline bits nprocs bitmap hw boost (info_of bits nprocs bitmap hw boost root)
      → HasReadable bits nprocs bitmap hw boost root
      → AreDistinct (ids_below root)
      → (h : Graph boost) × (Build.init_graph bits nprocs bitmap hw boost hostname root
            (new_graph boost)
          ≡ ok (h, success))
        × ((a : ℕ) → ¬ Is h accelerator a)
        × (find_distances filtered breadth_first_search h ≡ ok (found_accelerators 0 ∷ []))
  hwloc_then_find_distances hostname root same is_machine on readable distinct =
      let (h, e, ready) =
        init_graph-IsReady bits nprocs bitmap hw boost hostname root same is_machine on readable
          distinct in
      let none_is : (a : ℕ) → ¬ Is h accelerator a =
        (λ a x. cc (x.of_class, ready.no_accelerator a x.in_range)) in
      (h, e, none_is, none_there filtered breadth_first_search h none_is)
