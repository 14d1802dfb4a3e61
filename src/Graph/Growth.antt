-- ===== src/Graph/Growth.antt =====
-- Module changes take nothing away from the topology graph (src/include/yloc/graph.h).
use mathlib.Core.List.{append_assoc, append-nil}
use yloc.Prelude.{ℕ, ◌≤◌, ◌≡◌, sym, ap, ◌∙◌, some, Text, find_key, arith, List, [], ◌∷◌, ◌++◌}
use yloc.External.AdjacencyList.{Link}
use yloc.GraphElement.{Edge, new_element, parent, child, gpu_interconnect}
use yloc.Graph.{
  BoostGraph, Graph, num_vertices, edges, set_vertex, add_unnamed_vertex, set_root_vertex, add_edge,
  add_child, add_gpu_link,
}
use yloc.Graph.WellFormed.{fresh_num}
use yloc.Graph.Identifiers.{num-add_vertex-le, find_kept}
use yloc.Graph.Changes.{
  Change, unnamed, named, written, rooted, tied, interconnected, Changes, unchanged, changed, link,
  num-pair, edges-pair,
}
use yloc.Graph.Pairing.{edges-add_vertex}

module _ {Mask : Type 0} {boost : BoostGraph Mask} where
  -- `h` has all that `g` has: the vertices, the identifiers with their vertices, and the edges, in
  -- front of the new ones.
  pub record Extends (g h : Graph boost) : Type 0 where
    pub vertices_kept : num_vertices g ≤ num_vertices h
    pub ids_kept :
        (id : Text) (v : ℕ)
        → find_key id g.m_identifier_map ≡ some v
        → find_key id h.m_identifier_map ≡ some v
    pub edges_kept : (es : List (Link (Edge Mask))) × (edges h ≡ edges g ++ es)

  Extends-refl : (g : Graph boost) → Extends g g
  Extends-refl g = record {
    vertices_kept = omega arith;
    ids_kept = λ id v e. e;
    edges_kept = ([], sym (append-nil (edges g)));
  }

  Extends-trans : (g h k : Graph boost) → Extends g h → Extends h k → Extends g k
  Extends-trans g h k a b = record {
    vertices_kept = omega arith;
    ids_kept = λ id v e. b.ids_kept id v (a.ids_kept id v e);
    edges_kept =
        let (es, e) = a.edges_kept in
        let (fs, f) = b.edges_kept in
        (es ++ fs, f ∙ ap (λ l. l ++ fs) e ∙ append_assoc (edges g) es fs);
  }

  Change-Extends : {g h : Graph boost} → Change g h → Extends g h
  unfolding set_vertex set_root_vertex add_child add_gpu_link add_unnamed_vertex add_edge
  Change-Extends (unnamed g) = record {
    vertices_kept = omega (arith, fresh_num g);
    ids_kept = λ id v e. e;
    edges_kept = ([], boost.edges-add_vertex new_element g.repr ∙ sym (append-nil (edges g)));
  }
  Change-Extends (named g id) = record {
    vertices_kept = num-add_vertex-le g id;
    ids_kept = λ j v e. find_kept g id j e;
    edges_kept = ([], edges-add_vertex g id ∙ sym (append-nil (edges g)));
  }
  Change-Extends (written g v x h) = record {
    vertices_kept = omega (arith, boost.num-set_vertex g.repr v x);
    ids_kept = λ id v e. e;
    edges_kept = ([], boost.edges-set_vertex g.repr v x ∙ sym (append-nil (edges g)));
  }
  Change-Extends (rooted g v h) = record {
    vertices_kept = omega arith;
    ids_kept = λ id x e. e;
    edges_kept = ([], sym (append-nil (edges g)));
  }
  Change-Extends (tied g u v hu hv) = record {
    vertices_kept = omega (arith, num-pair g u v child parent hu hv);
    ids_kept = λ id v e. e;
    edges_kept = (link u v child ∷ link v u parent ∷ [], edges-pair g u v child parent hu hv);
  }
  Change-Extends (interconnected g u v hu hv) = record {
    vertices_kept = omega (arith, num-pair g u v gpu_interconnect gpu_interconnect hu hv);
    ids_kept = λ id v e. e;
    edges_kept = (
      link u v gpu_interconnect ∷ link v u gpu_interconnect ∷ [],
      edges-pair g u v gpu_interconnect gpu_interconnect hu hv,
    );
  }

  -- A sequence of module changes takes nothing away: every vertex descriptor stays valid, every identifier
  -- keeps its vertex, and every edge stays, in its place.
  pub Changes-Extends : {g h : Graph boost} → Changes g h → Extends g h
  Changes-Extends {g} unchanged = Extends-refl g
  Changes-Extends {g} {h} (changed {h = m} c s) =
      Extends-trans g m h (Changes-Extends c) (Change-Extends s)
