-- ===== src/Graph/Reaches.antt =====
-- Chains of operations on a vertex of the topology graph (src/include/yloc/graph.h).
use yloc.Prelude.{
  Option-cases, find_key, inl, inr, ◌<◌, ◌≡◌, ◌∙◌, ◌++◌, ◌∷◌, [], refl, ap, ℕ, Text, arith,
}
use yloc.GraphElement.{Vertex, child, parent}
use yloc.Graph.{
  BoostGraph, Graph, num_vertices, edges, vertex_at, set_vertex, modify, add_unnamed_vertex,
  add_vertex, add_child, add_vertex_by, add_edge, add_vertex_by, add_edge,
}
use yloc.Graph.WellFormed.{
  IsWellFormed, add_vertex_found, add_vertex-IsWellFormed, fresh_num, fresh_descriptor,
}
use yloc.Graph.Changes.{
  Changes, changed, unchanged, unnamed, named, written, tied, one_change, edges-add_child, link,
}
use yloc.Graph.Growth.{Changes-Extends}
use yloc.Graph.Pairing.{edges-add_vertex}

module _ {Mask : Type 0} {boost : BoostGraph Mask} where
  -- A change that keeps the edges and the root vertex and leads to a vertex of the new graph.
  pub record Reaches (g : Graph boost) (r : Graph boost × ℕ) : Type 0 where
    pub changes : Changes g r.0
    pub in_range : r.1 < num_vertices r.0
    pub same_edges : edges r.0 ≡ edges g
    pub same_root : r.0.m_root_vertex ≡ g.m_root_vertex

  pub unnamed-Reaches : (g : Graph boost) → Reaches g (add_unnamed_vertex g)
  unfolding add_unnamed_vertex
  unnamed-Reaches g = record {
    changes = one_change (unnamed g);
    in_range = omega (arith, fresh_num g, fresh_descriptor g);
    same_edges = boost.edges-add_vertex _ g.repr;
    same_root = refl;
  }

  pub here-Reaches : (g : Graph boost) (v : ℕ) → v < num_vertices g → Reaches g (g, v)
  here-Reaches g v l = record {
    changes = unchanged;
    in_range = l;
    same_edges = refl;
    same_root = refl;
  }

  -- add_vertex leaves the root vertex as it is.
  root-add_vertex :
      (g : Graph boost) (id : Text) → (add_vertex id g).0.m_root_vertex ≡ g.m_root_vertex
  unfolding add_vertex add_vertex_by
  root-add_vertex g id = elim (Option-cases (find_key id g.m_identifier_map)) [
    | inl e ↦ rw e
    | inr (v, e) ↦ rw e
  ]

  pub named-Reaches : (g : Graph boost) (id : Text) → IsWellFormed g → Reaches g (add_vertex id g)
  named-Reaches g id w = record {
    changes = one_change (named g id);
    in_range =
        (add_vertex-IsWellFormed g id w).ids_in_range id (add_vertex id g).1
          (add_vertex_found g id);
    same_edges = edges-add_vertex g id;
    same_root = root-add_vertex g id;
  }

  num-set_vertex :
      (g : Graph boost) (v : ℕ) (x : Vertex Mask) → num_vertices (set_vertex g v x) ≡ num_vertices g
  unfolding set_vertex
  num-set_vertex g v x = boost.num-set_vertex g.repr v x

  edges-set_vertex :
      (g : Graph boost) (v : ℕ) (x : Vertex Mask) → edges (set_vertex g v x) ≡ edges g
  unfolding set_vertex
  edges-set_vertex g v x = boost.edges-set_vertex g.repr v x

  root-set_vertex :
      (g : Graph boost) (v : ℕ) (x : Vertex Mask)
      → (set_vertex g v x).m_root_vertex ≡ g.m_root_vertex
  unfolding set_vertex
  root-set_vertex g v x = refl

  pub modify-Reaches :
      (g h : Graph boost) (v : ℕ) (f : Vertex Mask → Vertex Mask)
      → Reaches g (h, v)
      → Reaches g (modify h v f, v)
  modify-Reaches g h v f r = record {
    changes = changed r.changes (written h v (f (vertex_at h v)) r.in_range);
    in_range = omega (arith, r.in_range, num-set_vertex h v (f (vertex_at h v)));
    same_edges = edges-set_vertex h v (f (vertex_at h v)) ∙ r.same_edges;
    same_root = root-set_vertex h v (f (vertex_at h v)) ∙ r.same_root;
  }

  -- The changes that tie a vertex to the one above it, and the two edges that they add.
  pub record Ties (g : Graph boost) (u : ℕ) (r : Graph boost × ℕ) : Type 0 where
    pub changes : Changes g r.0
    pub in_range : r.1 < num_vertices r.0
    pub new_edges : edges r.0 ≡ edges g ++ link u r.1 child ∷ link r.1 u parent ∷ []
    pub same_root : r.0.m_root_vertex ≡ g.m_root_vertex

  root-add_child : (g : Graph boost) (u v : ℕ) → (add_child u v g).m_root_vertex ≡ g.m_root_vertex
  unfolding add_child add_edge
  root-add_child g u v = refl

  pub tie-Ties :
      (g h : Graph boost) (u v : ℕ)
      → u < num_vertices g
      → Reaches g (h, v)
      → Ties g u (add_child u v h, v)
  tie-Ties g h u v hu r =
      let hu' : u < num_vertices h = omega (arith, (Changes-Extends r.changes).vertices_kept) in
      let all = changed r.changes (tied h u v hu' r.in_range) in
      record {
        changes = all;
        in_range = omega (
          arith,
          r.in_range,
          (Changes-Extends (one_change (tied h u v hu' r.in_range))).vertices_kept,
        );
        new_edges =
            edges-add_child h u v hu' r.in_range
            ∙ ap (λ es. es ++ link u v child ∷ link v u parent ∷ []) r.same_edges;
        same_root = root-add_child h u v ∙ r.same_root;
      }
