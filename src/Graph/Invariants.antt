-- ===== src/Graph/Invariants.antt =====
-- Module changes keep the topology graph well-formed (src/include/yloc/graph.h).
use yloc.Prelude.{refl, inl, inr, find_key, arith}
use yloc.GraphElement.{parent, child, gpu_interconnect}
use yloc.Graph.{BoostGraph, Graph, new_graph, set_vertex, set_root_vertex, add_child, add_gpu_link}
use yloc.Graph.WellFormed.{IsWellFormed, add_vertex-IsWellFormed, add_unnamed_vertex-IsWellFormed}
use yloc.Graph.Changes.{
  Change, unnamed, named, written, rooted, tied, interconnected, Changes, unchanged, changed,
  pair-IsWellFormed,
}

module _ {Mask : Type 0} {boost : BoostGraph Mask} where
  Change-IsWellFormed : {g h : Graph boost} → Change g h → IsWellFormed g → IsWellFormed h
  unfolding set_vertex set_root_vertex add_child add_gpu_link
  Change-IsWellFormed (unnamed g) w = add_unnamed_vertex-IsWellFormed g w
  Change-IsWellFormed (named g id) w = add_vertex-IsWellFormed g id w
  Change-IsWellFormed (written g v x h) w =
      let n = boost.num-set_vertex g.repr v x in
      record {
        ids_in_range = λ id y e. omega (arith, n, w.ids_in_range id y e);
        ids_distinct = w.ids_distinct;
        ends_in_range = rw (boost.edges-set_vertex g.repr v x, n) w.ends_in_range;
        root_in_range = rw n w.root_in_range;
      }
  Change-IsWellFormed (rooted g v h) w = record {
    ids_in_range = w.ids_in_range;
    ids_distinct = w.ids_distinct;
    ends_in_range = w.ends_in_range;
    root_in_range = inr h;
  }
  Change-IsWellFormed (tied g u v hu hv) w = pair-IsWellFormed g u v child parent hu hv w
  Change-IsWellFormed (interconnected g u v hu hv) w =
      pair-IsWellFormed g u v gpu_interconnect gpu_interconnect hu hv w

  pub new_graph-IsWellFormed : IsWellFormed (new_graph boost)
  unfolding find_key
  new_graph-IsWellFormed = record {
    ids_in_range = λ id v e. absurd (cc e);
    ids_distinct = λ i j v e _. absurd (cc e);
    ends_in_range = rw boost.edges-empty tt;
    root_in_range = inl refl;
  }

  -- Every sequence of module changes keeps a graph well-formed; operator[](id) and single edges are
  -- not among them.
  pub Changes-IsWellFormed : {g h : Graph boost} → Changes g h → IsWellFormed g → IsWellFormed h
  Changes-IsWellFormed unchanged w = w
  Changes-IsWellFormed (changed c s) w = Change-IsWellFormed s (Changes-IsWellFormed c w)
