-- ===== src/Graph/Identifiers.antt =====
-- Identifiers of vertices (src/include/yloc/graph.h): what add_vertex and operator[](id) do to the
-- identifier map.
use yloc.Prelude.{
  ℕ, ◌≤◌, ◌≡◌, refl, sym, ap, ◌∙◌, ◌↔◌, inl, inr, Option, none, some, Text, find_key, find_key_self,
  arith, ◌∷◌, Bool-cases, text_eq, eq_of_text_eq, if◌then◌else◌,
}
use yloc.Graph.WellFormed.{IsWellFormed, add_vertex-IsWellFormed, add_vertex_found, fresh_num}
use yloc.Graph.{
  BoostGraph, Graph, num_vertices, add_vertex_by, add_vertex, subscript_by, subscript_id,
}

module _ {Mask : Type 0} {boost : BoostGraph Mask} where
  module _ (g : Graph boost) (id : Text) where
    pub registered : {vd : ℕ} → find_key id g.m_identifier_map ≡ some vd → add_vertex id g ≡ (g, vd)
    unfolding add_vertex
    registered e = rw (e, add_vertex_by)

    lookup_by :
        (o : Option ℕ) (j : Text)
        → find_key id g.m_identifier_map ≡ o
        → find_key j (add_vertex_by o id g).0.m_identifier_map
          ≡ (if text_eq id j then some (add_vertex_by o id g).1 else find_key j g.m_identifier_map)
    unfolding add_vertex_by find_key
    lookup_by none j e = refl
    lookup_by (some vd) j e = elim (Bool-cases (text_eq id j)) [
      | inl same ↦ rw same (rw (← eq_of_text_eq id j same) e)
      | inr other ↦ rw other
    ]

    -- `add_vertex(id)` enters its result for the identifier, and keeps the vertex of every other one.
    pub lookup-add_vertex :
        (j : Text)
        → find_key j (add_vertex id g).0.m_identifier_map
          ≡ (if text_eq id j then some (add_vertex id g).1 else find_key j g.m_identifier_map)
    unfolding add_vertex
    lookup-add_vertex j = lookup_by (find_key id g.m_identifier_map) j refl

    -- The vertex of an identifier that is in the map does not change.
    pub find_kept :
        (j : Text) {v : ℕ}
        → find_key j g.m_identifier_map ≡ some v
        → find_key j (add_vertex id g).0.m_identifier_map ≡ some v
    find_kept j {v} e = elim (Bool-cases (text_eq id j)) [
      | inl same ↦
          let own : find_key id g.m_identifier_map ≡ some v = rw (eq_of_text_eq id j same) e in
          rw (registered own) e
      | inr other ↦ lookup-add_vertex j ∙ rw other e
    ]

    num_by : (o : Option ℕ) → num_vertices g ≤ num_vertices (add_vertex_by o id g).0
    unfolding add_vertex_by
    num_by none = omega (arith, fresh_num g)
    num_by (some vd) = omega arith

    pub num-add_vertex-le : num_vertices g ≤ num_vertices (add_vertex id g).0
    unfolding add_vertex
    num-add_vertex-le = num_by (find_key id g.m_identifier_map)

  -- Two calls of `add_vertex` on a well-formed graph return the same vertex exactly when they are
  -- given the same identifier, and the second call of a pair with the same identifier changes
  -- nothing.
  pub add_vertex_twice :
      (g : Graph boost) (i j : Text)
      → IsWellFormed g
      → (((add_vertex i g).1 ≡ (add_vertex j (add_vertex i g).0).1) ↔ (i ≡ j))
        × (add_vertex i (add_vertex i g).0 ≡ ((add_vertex i g).0, (add_vertex i g).1))
  add_vertex_twice g i j w =
      let h = (add_vertex i g).0 in
      let u = (add_vertex i g).1 in
      let again = registered h i (add_vertex_found g i) in
      let k = (add_vertex j h).0 in
      let w' = add_vertex-IsWellFormed h j (add_vertex-IsWellFormed g i w) in
      (
        (
          λ same. elim (Bool-cases (text_eq j i)) [
            | inl e ↦ sym (eq_of_text_eq j i e)
            | inr e ↦
                w'.ids_distinct i j u (lookup-add_vertex h j i ∙ rw e (add_vertex_found g i))
                  (add_vertex_found h j ∙ ap some (sym same))
          ],
          λ same. rw (← same) (rw again),
        ),
        again,
      )

  subscript_by_none :
      (g : Graph boost) (id : Text)
      → find_key id g.m_identifier_map ≡ none
      → subscript_id id g ≡ (record g { m_identifier_map = (id, 0) ∷ g.m_identifier_map }, 0)
  unfolding subscript_id
  subscript_by_none g id e = rw (e, subscript_by)

  kept_zero :
      (g : Graph boost) (id other : Text)
      → find_key other g.m_identifier_map ≡ some 0
      → find_key other ((id, 0) ∷ g.m_identifier_map) ≡ some 0
  unfolding find_key
  kept_zero g id other o = ground arith

  -- `operator[](id)` with an identifier that is not in the map enters it for the vertex 0: from then
  -- on `add_vertex(id)` returns the vertex 0 and adds none, and if another identifier stands for the
  -- vertex 0 already, the graph is no longer well-formed.
  pub subscript_id_missing :
      (g : Graph boost) (id other : Text)
      → find_key id g.m_identifier_map ≡ none
      → find_key other g.m_identifier_map ≡ some 0
      → (add_vertex id (subscript_id id g).0 ≡ ((subscript_id id g).0, 0))
        × (num_vertices (subscript_id id g).0 ≡ num_vertices g)
        × (¬ IsWellFormed (subscript_id id g).0)
  subscript_id_missing g id other e o =
      let h = record g { m_identifier_map = (id, 0) ∷ g.m_identifier_map } in
      rw (subscript_by_none g id e) (
        registered h id (find_key_self id 0 g.m_identifier_map),
        refl,
        λ w. cc (
          w.ids_distinct id other 0 (find_key_self id 0 g.m_identifier_map)
              (kept_zero g id other o),
          e,
          o,
        ),
      )
