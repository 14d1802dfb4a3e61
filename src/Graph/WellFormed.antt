-- ===== src/Graph/WellFormed.antt =====
-- The invariant of the topology graph (src/include/yloc/graph.h), and that adding vertices keeps it.
use yloc.Prelude.{
  ℕ, suc, ◌<◌, ◌≤◌, ◌≡◌, refl, sym, ◌∙◌, ◌⊎◌, inl, inr, Option, none, some, Text, find_key,
  find_key-cons, find_key_self, arith, All, All-imp, List, ◌∷◌,
}
use yloc.External.AdjacencyList.{Link}
use yloc.GraphElement.{Edge, new_element}
use yloc.Graph.{
  BoostGraph, Graph, num_vertices, edges, add_vertex_by, add_vertex, add_unnamed_vertex,
}

-- The range of a list of edges grows with the number of vertices.
pub ends_grow :
    {Mask : Type 0} (n m : ℕ) (es : List (Link (Edge Mask)))
    → n ≤ m
    → All (λ (l : Link (Edge Mask)). (l.source < n) × (l.target < n)) es
    → All (λ (l : Link (Edge Mask)). (l.source < m) × (l.target < m)) es
ends_grow n m es h = All-imp (λ l (s, t). (omega arith, omega arith)) es

module _ {Mask : Type 0} {boost : BoostGraph Mask} where
  -- What a topology graph keeps to: identifiers stand for vertices of the graph, and no two for the
  -- same; edges end at vertices; and the root is a vertex, or the number 0 of the first vertex.
  pub record IsWellFormed (g : Graph boost) : Type 0 where
    pub ids_in_range :
        (id : Text) (v : ℕ) → find_key id g.m_identifier_map ≡ some v → v < num_vertices g
    pub ids_distinct :
        (i j : Text) (v : ℕ)
        → find_key i g.m_identifier_map ≡ some v
        → find_key j g.m_identifier_map ≡ some v
        → i ≡ j
    pub ends_in_range :
        All
          (λ (l : Link (Edge Mask)). (l.source < num_vertices g) × (l.target < num_vertices g))
          (edges g)
    pub root_in_range : (g.m_root_vertex ≡ 0) ⊎ (g.m_root_vertex < num_vertices g)

  module _ (g : Graph boost) where
    abbrev pub fresh : boost.Repr × ℕ
    fresh = boost.add_vertex new_element g.repr

    pub fresh_num : boost.num_vertices fresh.0 ≡ suc (num_vertices g)
    fresh_num = boost.num-add_vertex new_element g.repr

    pub fresh_descriptor : fresh.1 ≡ num_vertices g
    fresh_descriptor = boost.descriptor-add_vertex new_element g.repr

    fresh_ends :
        IsWellFormed g
        → All
            (λ (l : Link (Edge Mask)).
              (l.source < boost.num_vertices fresh.0) × (l.target < boost.num_vertices fresh.0))
            (boost.edges fresh.0)
    fresh_ends w = rw (boost.edges-add_vertex new_element g.repr) (
        ends_grow (num_vertices g) (boost.num_vertices fresh.0) (edges g) (omega (arith, fresh_num))
          w.ends_in_range)

    fresh_root :
        IsWellFormed g → (g.m_root_vertex ≡ 0) ⊎ (g.m_root_vertex < boost.num_vertices fresh.0)
    fresh_root w = elim w.root_in_range [ inl e ↦ inl e | inr l ↦ inr (omega (arith, fresh_num)) ]

    -- A new unnamed vertex keeps the graph well-formed.
    pub add_unnamed_vertex-IsWellFormed : IsWellFormed g → IsWellFormed (add_unnamed_vertex g).0
    unfolding add_unnamed_vertex
    add_unnamed_vertex-IsWellFormed w = record {
      ids_in_range = λ j v e. omega (arith, fresh_num, w.ids_in_range j v e);
      ids_distinct = w.ids_distinct;
      ends_in_range = fresh_ends w;
      root_in_range = fresh_root w;
    }

    module _ (id : Text) where
      fresh_distinct :
          IsWellFormed g
          → (i j : Text) (v : ℕ) → find_key i ((id, fresh.1) ∷ g.m_identifier_map) ≡ some v
          → find_key j ((id, fresh.1) ∷ g.m_identifier_map) ≡ some v
          → i ≡ j
      fresh_distinct w i j v p q =
          both (find_key-cons i id fresh.1 v g.m_identifier_map p)
            (find_key-cons j id fresh.1 v g.m_identifier_map q)
        where
          both :
              ((id ≡ i) × (fresh.1 ≡ v)) ⊎ (find_key i g.m_identifier_map ≡ some v)
              → ((id ≡ j) × (fresh.1 ≡ v)) ⊎ (find_key j g.m_identifier_map ≡ some v)
              → i ≡ j
          both (inl (a, _)) (inl (b, _)) = sym a ∙ b
          both (inl (_, a)) (inr b) = absurd (omega (arith, fresh_descriptor, w.ids_in_range j v b))
          both (inr a) (inl (_, b)) = absurd (omega (arith, fresh_descriptor, w.ids_in_range i v a))
          both (inr a) (inr b) = w.ids_distinct i j v a b

      add_vertex_by-IsWellFormed :
          (o : Option ℕ) → IsWellFormed g → IsWellFormed (add_vertex_by o id g).0
      unfolding add_vertex_by
      add_vertex_by-IsWellFormed (some vd) w = w
      add_vertex_by-IsWellFormed none w = record {
        ids_in_range = λ j v e. elim (find_key-cons j id fresh.1 v g.m_identifier_map e) [
          | inl (_, same) ↦ omega (arith, fresh_num, fresh_descriptor)
          | inr old ↦ omega (arith, fresh_num, w.ids_in_range j v old)
        ];
        ids_distinct = fresh_distinct w;
        ends_in_range = fresh_ends w;
        root_in_range = fresh_root w;
      }

      -- `add_vertex(id)` keeps the graph well-formed.
      pub add_vertex-IsWellFormed : IsWellFormed g → IsWellFormed (add_vertex id g).0
      unfolding add_vertex
      add_vertex-IsWellFormed w = add_vertex_by-IsWellFormed (find_key id g.m_identifier_map) w

      add_vertex_by_found :
          (o : Option ℕ)
          → find_key id g.m_identifier_map ≡ o
          → find_key id (add_vertex_by o id g).0.m_identifier_map ≡ some (add_vertex_by o id g).1
      unfolding add_vertex_by
      add_vertex_by_found (some vd) e = e
      add_vertex_by_found none e = find_key_self id fresh.1 g.m_identifier_map

      -- After `add_vertex(id)` the identifier stands for the vertex that was returned.
      pub add_vertex_found :
          find_key id (add_vertex id g).0.m_identifier_map ≡ some (add_vertex id g).1
      unfolding add_vertex
      add_vertex_found = add_vertex_by_found (find_key id g.m_identifier_map) refl
