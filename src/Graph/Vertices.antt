-- ===== src/Graph/Vertices.antt =====
-- What the operations of the topology graph (src/include/yloc/graph.h) do to the contents of its
-- vertices.
use yloc.Prelude.{
  subst, sym, ℕ, suc, ◌<◌, ◌≡◌, refl, ap, ◌∙◌, ◌==◌, ==_iff, if◌then◌else◌, Text, none, find_key,
  Bool-cases, Option-cases, inl, inr, false, arith,
}
use yloc.GraphElement.{Vertex, new_element, new_edge, parent, child, gpu_interconnect}
use yloc.Graph.WellFormed.{fresh_num, fresh_descriptor}
use yloc.Graph.{
  BoostGraph, Graph, num_vertices, vertex_at, set_vertex, modify, add_vertex, add_vertex_by,
  add_edge, add_child, add_gpu_link,
}

module _ {Mask : Type 0} {boost : BoostGraph Mask} where
  -- A new vertex has no type and no adapters, and the others are as before.
  pub vertex_at-add_vertex :
      (g : Graph boost) (id : Text) (v : ℕ)
      → v < num_vertices g
      → vertex_at (add_vertex id g).0 v ≡ vertex_at g v
  unfolding add_vertex add_vertex_by
  vertex_at-add_vertex g id v l = elim (Option-cases (find_key id g.m_identifier_map)) [
    | inl e ↦
        rw e (boost.vertex_at-add_vertex new_element g.repr v (omega (arith, l)) ∙ ground arith)
    | inr (u, e) ↦ rw e refl
  ]

  pub vertex_at-add_vertex_new :
      (g : Graph boost) (id : Text)
      → find_key id g.m_identifier_map ≡ none
      → vertex_at (add_vertex id g).0 (add_vertex id g).1 ≡ new_element
  unfolding add_vertex add_vertex_by
  vertex_at-add_vertex_new g id e =
      rw (add_vertex, e)
        (boost.vertex_at-add_vertex new_element g.repr (boost.add_vertex new_element g.repr).1
            (omega (arith, boost.descriptor-add_vertex new_element g.repr))
          ∙ rw
              ((==_iff (boost.add_vertex new_element g.repr).1 (boost.num_vertices g.repr)).1
                (boost.descriptor-add_vertex new_element g.repr))
              refl)

  -- A new identifier is given the next vertex.
  pub new_vertex :
      (g : Graph boost) (id : Text)
      → find_key id g.m_identifier_map ≡ none
      → ((add_vertex id g).1 ≡ num_vertices g)
        × (num_vertices (add_vertex id g).0 ≡ suc (num_vertices g))
  unfolding add_vertex add_vertex_by
  new_vertex g id e = (rw (add_vertex, e) (fresh_descriptor g), rw (add_vertex, e) (fresh_num g))

  pub num-modify :
      (g : Graph boost) (u : ℕ) (f : Vertex Mask → Vertex Mask)
      → num_vertices (modify g u f) ≡ num_vertices g
  unfolding set_vertex
  num-modify g u f = boost.num-set_vertex g.repr u (f (vertex_at g u))

  pub map-modify :
      (g : Graph boost) (u : ℕ) (f : Vertex Mask → Vertex Mask)
      → (modify g u f).m_identifier_map ≡ g.m_identifier_map
  unfolding set_vertex
  map-modify g u f = refl

  pub vertex_at-modify :
      (g : Graph boost) (u v : ℕ) (f : Vertex Mask → Vertex Mask)
      → u < num_vertices g
      → v < num_vertices g
      → vertex_at (modify g u f) v ≡ (if u == v then f (vertex_at g u) else vertex_at g v)
  unfolding set_vertex
  vertex_at-modify g u v f hu hv = boost.vertex_at-set_vertex g.repr u v (f (vertex_at g u)) hu hv

  pub vertex_at-modify_self :
      (g : Graph boost) (u : ℕ) (f : Vertex Mask → Vertex Mask)
      → u < num_vertices g
      → vertex_at (modify g u f) u ≡ f (vertex_at g u)
  vertex_at-modify_self g u f hu = vertex_at-modify g u u f hu hu ∙ rw ((==_iff u u).1 refl) refl

  pub vertex_at-modify_other :
      (g : Graph boost) (u v : ℕ) (f : Vertex Mask → Vertex Mask)
      → u < num_vertices g
      → v < num_vertices g
      → (u == v) ≡ false
      → vertex_at (modify g u f) v ≡ vertex_at g v
  vertex_at-modify_other g u v f hu hv e = vertex_at-modify g u v f hu hv ∙ rw e refl

  -- A field that a change of a vertex leaves as it is.
  pub modify_keeps :
      {A : Type 0} (field : Vertex Mask → A) (g : Graph boost) (u v : ℕ)
      (f : Vertex Mask → Vertex Mask)
      → u < num_vertices g
      → v < num_vertices g
      → ((x : Vertex Mask) → field (f x) ≡ field x)
      → field (vertex_at (modify g u f) v) ≡ field (vertex_at g v)
  modify_keeps field g u v f hu hv h = elim (Bool-cases (u == v)) [
    | inl e ↦
        ap field (vertex_at-modify g u v f hu hv ∙ rw e refl)
        ∙ h (vertex_at g u)
        ∙ ap (λ w. field (vertex_at g w)) ((==_iff u v).0 e)
    | inr e ↦ ap field (vertex_at-modify g u v f hu hv ∙ rw e refl)
  ]

  pub num-add_gpu_link :
      (g : Graph boost) (u v : ℕ)
      → u < num_vertices g
      → v < num_vertices g
      → num_vertices (add_gpu_link u v g) ≡ num_vertices g
  unfolding add_gpu_link add_edge
  num-add_gpu_link g u v hu hv =
      let n = boost.num-add_edge u v (new_edge gpu_interconnect) g.repr hu hv in
      boost.num-add_edge v u (new_edge gpu_interconnect)
        (boost.add_edge u v (new_edge gpu_interconnect) g.repr) (omega arith) (omega arith)
      ∙ n

  pub vertex_at-add_gpu_link :
      (g : Graph boost) (u v w : ℕ)
      → u < num_vertices g
      → v < num_vertices g
      → vertex_at (add_gpu_link u v g) w ≡ vertex_at g w
  unfolding add_gpu_link add_edge
  vertex_at-add_gpu_link g u v w hu hv =
      let n = boost.num-add_edge u v (new_edge gpu_interconnect) g.repr hu hv in
      boost.vertex_at-add_edge v u (new_edge gpu_interconnect)
        (boost.add_edge u v (new_edge gpu_interconnect) g.repr) w (omega arith) (omega arith)
      ∙ boost.vertex_at-add_edge u v (new_edge gpu_interconnect) g.repr w hu hv

  pub num-add_child :
      (g : Graph boost) (u v : ℕ)
      → u < num_vertices g
      → v < num_vertices g
      → num_vertices (add_child u v g) ≡ num_vertices g
  unfolding add_child add_edge
  num-add_child g u v hu hv =
      let n = boost.num-add_edge u v (new_edge child) g.repr hu hv in
      boost.num-add_edge v u (new_edge parent) (boost.add_edge u v (new_edge child) g.repr)
        (omega arith) (omega arith)
      ∙ n

  pub vertex_at-add_child :
      (g : Graph boost) (u v w : ℕ)
      → u < num_vertices g
      → v < num_vertices g
      → vertex_at (add_child u v g) w ≡ vertex_at g w
  unfolding add_child add_edge
  vertex_at-add_child g u v w hu hv =
      let n = boost.num-add_edge u v (new_edge child) g.repr hu hv in
      boost.vertex_at-add_edge v u (new_edge parent) (boost.add_edge u v (new_edge child) g.repr) w
        (omega arith) (omega arith)
      ∙ boost.vertex_at-add_edge u v (new_edge child) g.repr w hu hv

  -- Every vertex has a property.
  abbrev pub AllHold : (Vertex Mask → Type 0) → Graph boost → Type 0
  AllHold P g = (v : ℕ) → v < num_vertices g → P (vertex_at g v)

  pub add_child-AllHold :
      (P : Vertex Mask → Type 0) (g : Graph boost) (u v : ℕ)
      → u < num_vertices g
      → v < num_vertices g
      → AllHold P g
      → AllHold P (add_child u v g)
  add_child-AllHold P g u v hu hv r w l =
      subst P (sym (vertex_at-add_child g u v w hu hv))
        (r w (omega (arith, l, num-add_child g u v hu hv)))
