-- ===== src/Mpi/Readable.antt =====
-- The vertex that modules/mpi/init_graph.cc adds for a process, and the masks that the vertices have then.
use yloc.Prelude.{
  ℕ, suc, ◌<◌, ◌≡◌, refl, sym, ◌∙◌, ◌==◌, ==_iff, Bool-cases, Option-cases, inl, inr, Text, text_eq,
  find_key, codes, Option, some, none, ok, false, arith, subst,
}
use yloc.Property.{affinity_mask, value_as}
use yloc.Adapter.{shared_map}
use yloc.GraphElement.{Vertex, new_element, add_adapter, get, first_value}
use yloc.Graph.{BoostGraph, Graph, num_vertices, vertex_at, set_vertex, add_vertex}
use yloc.Graph.WellFormed.{IsWellFormed}
use yloc.Graph.Identifiers.{registered}
use yloc.Graph.Reaches.{Reaches, named-Reaches, modify-Reaches}
use yloc.Graph.Vertices.{
  vertex_at-add_vertex, vertex_at-add_vertex_new, new_vertex, num-modify, map-modify,
  vertex_at-modify_other, vertex_at-modify_self, AllHold,
}
use yloc.External.Bitset.{Bitset}
use yloc.Mpi.{mpi_adapter, as_process}

-- The element can be asked for its mask.
abbrev pub Reads : {Mask : Type 0} → Vertex Mask → Type 0
Reads {Mask} x = (o : Option Mask) × (get affinity_mask x (codes "cpu_affinity_mask") ≡ ok o)

new_element-Reads : (Mask : Type 0) → Reads (new_element {Mask = Mask})
unfolding get shared_map find_key text_eq first_value value_as
new_element-Reads Mask = (none, refl)

pub process-Reads :
    (bits : Bitset) (i : ℕ) (m : bits.Bits)
    → Reads (add_adapter (as_process bits new_element) (mpi_adapter bits i m))
unfolding get shared_map find_key text_eq first_value value_as add_adapter mpi_adapter
process-Reads bits i m = elim (Bool-cases (bits.any m)) [
  | inl e ↦ (some m, rw e refl)
  | inr e ↦ (none, rw e refl)
]

module _ {Mask : Type 0} {boost : BoostGraph Mask} where
  -- Every vertex can be asked for its mask.
  abbrev pub AllRead : Graph boost → Type 0
  AllRead = AllHold Reads

  -- The graph with a new vertex for an identifier, whose contents were written; the others are as before.
  pub record Prepared (g : Graph boost) (id : Text) (k : Graph boost) : Type 0 where
    pub reaches : Reaches g (k, (add_vertex id g).1)
    pub descriptor : (add_vertex id g).1 ≡ num_vertices g
    pub size : num_vertices k ≡ suc (num_vertices g)
    pub others : (v : ℕ) → v < num_vertices g → vertex_at k v ≡ vertex_at g v
    pub same_map : k.m_identifier_map ≡ (add_vertex id g).0.m_identifier_map

  pub new-Prepared :
      (g : Graph boost) (id : Text)
      → IsWellFormed g
      → find_key id g.m_identifier_map ≡ none
      → Prepared g id (add_vertex id g).0
  new-Prepared g id w e = record {
    reaches = named-Reaches g id w;
    descriptor = (new_vertex g id e).0;
    size = (new_vertex g id e).1;
    others = λ v l. vertex_at-add_vertex g id v l;
    same_map = refl;
  }

  pub set-Prepared :
      (g : Graph boost) (id : Text) (k : Graph boost) (x : Vertex Mask)
      → Prepared g id k
      → Prepared g id (set_vertex k (add_vertex id g).1 x)
  set-Prepared g id k x p =
      let vd = (add_vertex id g).1 in
      let f = λ (_ : Vertex Mask). x in
      record {
        reaches = modify-Reaches g k vd f p.reaches;
        descriptor = p.descriptor;
        size = num-modify k vd f ∙ p.size;
        others = λ v l.
            vertex_at-modify_other k vd v f p.reaches.in_range (omega (arith, l, p.size))
              (different v l p.descriptor)
            ∙ p.others v l;
        same_map = map-modify k vd f ∙ p.same_map;
      }
    where
      different :
          (v : ℕ)
          → v < num_vertices g
          → (add_vertex id g).1 ≡ num_vertices g
          → ((add_vertex id g).1 == v) ≡ false
      different v l e = ground arith

  -- The contents that were written last.
  pub set-written :
      (g : Graph boost) (id : Text) (k : Graph boost) (x : Vertex Mask)
      → Prepared g id k
      → vertex_at (set_vertex k (add_vertex id g).1 x) (add_vertex id g).1 ≡ x
  set-written g id k x p = vertex_at-modify_self k (add_vertex id g).1 (λ _. x) p.reaches.in_range

  pub Prepared-AllRead :
      (g : Graph boost) (id : Text) (k : Graph boost)
      → Prepared g id k
      → AllRead g
      → Reads (vertex_at k (add_vertex id g).1)
      → AllRead k
  Prepared-AllRead g id k p r new v l = elim (Bool-cases (v == num_vertices g)) [
    | inl e ↦
        subst (λ w. Reads (vertex_at k w)) (p.descriptor ∙ sym ((==_iff v (num_vertices g)).0 e))
          new
    | inr e ↦
        let old : v < num_vertices g = ground (arith, p.size) in
        subst Reads (sym (p.others v old)) (r v old)
  ]

  -- After add_vertex(id) every vertex can be asked for its mask if that was so before.
  pub add_vertex-AllRead :
      (g : Graph boost) (id : Text) → IsWellFormed g → AllRead g → AllRead (add_vertex id g).0
  add_vertex-AllRead g id w r = elim (Option-cases (find_key id g.m_identifier_map)) [
    | inl e ↦
        Prepared-AllRead g id (add_vertex id g).0 (new-Prepared g id w e) r
          (subst Reads (sym (vertex_at-add_vertex_new g id e)) (new_element-Reads Mask))
    | inr (vd, e) ↦ rw (registered g id e) r
  ]
