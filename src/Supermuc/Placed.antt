-- ===== src/Supermuc/Placed.antt =====
-- Where the SuperMUC module (modules/supermuc/init_graph.cc) places the hosts.
use yloc.Prelude.{
  ℕ, ◌<◌, ◌≡◌, refl, List, [], ◌∷◌, ◌++◌, Bool, true, ◌&&◌, Text, codes, some, find_key, any, ◌==◌,
  ==_iff, Bool-cases, inl, inr,
}
use yloc.ComponentTypes.{ComponentType}
use yloc.GraphElement.{Vertex, add_adapter, child, parent}
use yloc.Graph.{BoostGraph, Graph, num_vertices, edges, modify, set_vertex, add_vertex, has_edge}
use yloc.Graph.WellFormed.{IsWellFormed, add_vertex_found}
use yloc.Graph.Changes.{Change, Changes, unchanged, one_change, edges-add_child, link}
use yloc.Graph.Invariants.{Changes-IsWellFormed}
use yloc.Graph.Growth.{Extends}
use yloc.Graph.Reaches.{Reaches, named-Reaches, modify-Reaches}
use yloc.Supermuc.{supermuc_adapter, furnish, make_supermuc_node, make_slot, tie_once}

any-append :
    {A : Type 0} (p : A → Bool) (xs ys : List A) → any p xs ≡ true → any p (xs ++ ys) ≡ true
any-append p [] ys h = cc h
any-append p (x ∷ xs) ys h = elim (Bool-cases (p x)) [
  | inl e ↦ rw e refl
  | inr e ↦ rw e (any-append p xs ys (rw e at h))
]

pub any-behind :
    {A : Type 0} (p : A → Bool) (xs ys : List A) → any p ys ≡ true → any p (xs ++ ys) ≡ true
any-behind p [] ys h = h
any-behind p (x ∷ xs) ys h = elim (Bool-cases (p x)) [
  | inl e ↦ rw e refl
  | inr e ↦ rw e (any-behind p xs ys h)
]

module _ {Mask : Type 0} {boost : BoostGraph Mask} where
  furnish-Reaches :
      (t : ComponentType) (name : Text) (g : Graph boost) (r : Graph boost × ℕ)
      → Reaches g r
      → Reaches g (furnish t name r)
  unfolding furnish
  furnish-Reaches t name g (h, v) r =
      let typed = λ (x : Vertex Mask). record x { m_type = t } in
      let named = λ (x : Vertex Mask). record x { m_description = name } in
      let adapted = λ (x : Vertex Mask). add_adapter x (supermuc_adapter name) in
      modify-Reaches g (modify (modify h v typed) v named) v adapted
        (modify-Reaches g (modify h v typed) v named (modify-Reaches g h v typed r))

  furnish_found :
      (t : ComponentType) (name id : Text) (r : Graph boost × ℕ)
      → find_key id r.0.m_identifier_map ≡ some r.1
      → find_key id (furnish t name r).0.m_identifier_map ≡ some (furnish t name r).1
  unfolding furnish set_vertex
  furnish_found t name id r e = e

  -- A vertex that is made for an identifier, and found by it.
  pub record Made (id : Text) (g : Graph boost) (r : Graph boost × ℕ) : Type 0 where
    pub reaches : Reaches g r
    pub found : find_key id r.0.m_identifier_map ≡ some r.1
    pub well_formed : IsWellFormed r.0

  furnish-Made :
      (t : ComponentType) (name id : Text) (g : Graph boost)
      → IsWellFormed g
      → Made id g (furnish t name (add_vertex id g))
  furnish-Made t name id g w =
      let r = furnish-Reaches t name g (add_vertex id g) (named-Reaches g id w) in
      record {
        reaches = r;
        found = furnish_found t name id (add_vertex id g) (add_vertex_found g id);
        well_formed = Changes-IsWellFormed r.changes w;
      }

  pub node-Made :
      (name : Text) (g : Graph boost)
      → IsWellFormed g
      → Made (codes "system:" ++ name) g (make_supermuc_node name g)
  unfolding make_supermuc_node
  node-Made name g w = furnish-Made ComponentType.misc name (codes "system:" ++ name) g w

  pub slot-Made :
      (name : Text) (g : Graph boost)
      → IsWellFormed g
      → Made (codes "machine:" ++ name) g (make_slot name g)
  unfolding make_slot
  slot-Made name g w = furnish-Made ComponentType.node name (codes "machine:" ++ name) g w

  pub tie_once-Changes :
      (u v : ℕ) (g : Graph boost)
      → u < num_vertices g
      → v < num_vertices g
      → Changes g (tie_once u v g)
  unfolding tie_once
  tie_once-Changes u v g hu hv = elim (Bool-cases (has_edge g u v)) [
    | inl e ↦ rw (tie_once, e) unchanged
    | inr e ↦ rw (tie_once, e) (one_change (Change.tied g u v hu hv))
  ]

  pub has_edge-tie_once :
      (u v : ℕ) (g : Graph boost)
      → u < num_vertices g
      → v < num_vertices g
      → has_edge (tie_once u v g) u v ≡ true
  unfolding tie_once has_edge
  has_edge-tie_once u v g hu hv = elim (Bool-cases (has_edge g u v)) [
    | inl e ↦ rw (tie_once, e) e
    | inr e ↦
        rw (tie_once, e, edges-add_child g u v hu hv)
          (any-behind (λ l. l.source == u && l.target == v) (edges g)
            (link u v child ∷ link v u parent ∷ [])
            (rw ((==_iff u u).1 refl, (==_iff v v).1 refl) refl))
  ]

  pub has_edge_kept :
      {g h : Graph boost} (u v : ℕ) → Extends g h → has_edge g u v ≡ true → has_edge h u v ≡ true
  unfolding has_edge
  has_edge_kept {g} u v x e =
      let (es, f) = x.edges_kept in
      rw f (any-append (λ l. l.source == u && l.target == v) (edges g) es e)
