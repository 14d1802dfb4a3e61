-- ===== src/Mpi/Edges.antt =====
-- The child edges of the topology graph (src/include/yloc/graph.h) when a vertex is tied below another, as
-- modules/mpi/init_graph.cc does with processes.
use yloc.Prelude.{
  ℕ, suc, ◌<◌, ◌≤◌, ◌≡◌, ◌≢◌, refl, sym, ◌∙◌, subst, ◌⊎◌, inl, inr, Bool, true, false, ◌&&◌, ◌||◌,
  ◌==◌, ==_iff, Bool-cases, if◌then◌else◌, List, [], ◌∷◌, ◌++◌, any, any-Memᴰ, All-Memᴰ, arith,
}
use yloc.GraphElement.{Edge, child, parent}
use yloc.Graph.{BoostGraph, Graph, num_vertices, edges, is_link, edge_type_eq, has_edge, add_child}
use yloc.Graph.Changes.{link, edges-add_child}
use yloc.Supermuc.Placed.{any-behind}
use yloc.Graph.WellFormed.{IsWellFormed}
use yloc.External.AdjacencyList.{Link}
use yloc.External.Bitset.{Bitset}
use yloc.Search.Lowest.{both, Lowest, settled, down}

or_false : (b : Bool) → (b || false) ≡ true → b ≡ true
or_false true e = refl
or_false false e = e

any-of_append :
    {A : Type 0} (p : A → Bool) (xs ys : List A)
    → any p (xs ++ ys) ≡ true
    → (any p xs ≡ true) ⊎ (any p ys ≡ true)
any-of_append p [] ys h = inr h
any-of_append p (x ∷ xs) ys h = elim (Bool-cases (p x)) [
  | inl e ↦ inl (rw e refl)
  | inr e ↦ elim (any-of_append p xs ys (rw e at h)) [ inl l ↦ inl (rw e l) | inr r ↦ inr r ]
]

link_ends :
    {Mask : Type 0} (v t : ℕ) (l : Link (Edge Mask))
    → is_link child v t l ≡ true
    → (l.source ≡ v) × (l.target ≡ t)
link_ends v t l e =
    let (d, f) =
      both (edge_type_eq l.property.m_edgetype child) (l.source == v && l.target == t) e in
    let (s, u) = both (l.source == v) (l.target == t) f in
    ((==_iff l.source v).0 s, (==_iff l.target t).0 u)

-- The number of a process below all others.
abbrev pub deeper : (ℕ → ℕ) → ℕ → ℕ → ℕ
deeper depth proc v = if v == proc then 0 else suc (depth v)

module _ {Mask : Type 0} {boost : BoostGraph Mask} where
  -- A child edge leads from `v` to `t`.
  abbrev pub IsChild : Graph boost → ℕ → ℕ → Type 0
  IsChild g v t = any (is_link child v t) (edges g) ≡ true

  -- A number for each vertex that goes down along the child edges.
  abbrev pub IsLayered : Graph boost → (ℕ → ℕ) → Type 0
  IsLayered g depth = (v t : ℕ) → IsChild g v t → depth t < depth v

  pub IsChild-in_range :
      (g : Graph boost) (v t : ℕ)
      → IsWellFormed g
      → IsChild g v t
      → (v < num_vertices g) × (t < num_vertices g)
  IsChild-in_range g v t w e =
      let (l, m, f) = any-Memᴰ (is_link child v t) (edges g) e in
      let (s, u) = link_ends v t l f in
      let (hs, hu) =
        All-Memᴰ
          (λ (k : Link (Edge Mask)). (k.source < num_vertices g) × (k.target < num_vertices g)) m
          w.ends_in_range in
      (omega (arith, s, hs), omega (arith, u, hu))

  -- A child edge of the graph with a pair of edges is one of the graph, or the new one.
  pub tied_child :
      (g h : Graph boost) (node proc v t : ℕ)
      → edges h ≡ edges g ++ link node proc child ∷ link proc node parent ∷ []
      → IsChild h v t
      → IsChild g v t ⊎ ((v ≡ node) × (t ≡ proc))
  tied_child g h node proc v t e c =
      let pair = link node proc child ∷ link proc node parent ∷ [] in
      elim (any-of_append (is_link child v t) (edges g) pair (rw e at c)) [
        | inl old ↦ inl old
        | inr new ↦
            let (a, b) = both (node == v) (proc == t) (or_false (node == v && proc == t) new) in
            inr (sym ((==_iff node v).0 a), sym ((==_iff proc t).0 b))
      ]

  -- The edges of a vertex that was tied below another.
  pub add_child_there :
      (g : Graph boost) (u v : ℕ)
      → u < num_vertices g
      → v < num_vertices g
      → (has_edge (add_child u v g) u v ≡ true) × (has_edge (add_child u v g) v u ≡ true)
  unfolding has_edge
  add_child_there g u v hu hv =
      let new = link u v child ∷ link v u parent ∷ [] in
      (
        rw (edges-add_child g u v hu hv) (
            any-behind (λ l. l.source == u && l.target == v) (edges g) new
              (rw ((==_iff u u).1 refl, (==_iff v v).1 refl) refl)),
        rw (edges-add_child g u v hu hv)
            (any-behind (λ l. l.source == v && l.target == u) (edges g) new (ground arith)),
      )

  pub tied-IsLayered :
      (g h : Graph boost) (depth : ℕ → ℕ) (node proc : ℕ)
      → IsWellFormed g
      → num_vertices g ≤ proc
      → node ≢ proc
      → edges h ≡ edges g ++ link node proc child ∷ link proc node parent ∷ []
      → IsLayered g depth
      → IsLayered h (deeper depth proc)
  tied-IsLayered g h depth node proc w fresh apart e lower v t c =
      elim (tied_child g h node proc v t e c) [
        | inl old ↦
            let (hv, ht) = IsChild-in_range g v t w old in
            let less = lower v t old in
            let nv : (v == proc) ≡ false = ground arith in
            let nt : (t == proc) ≡ false = ground arith in rw (nv, nt) (omega (arith, less))
        | inr (a, b) ↦
            let nv : (v == proc) ≡ false = elim (Bool-cases (v == proc)) [
              | inl f ↦ absurd (apart (sym a ∙ (==_iff v proc).0 f))
              | inr f ↦ f
            ] in
            rw (nv, (==_iff t proc).1 b) (omega arith)
      ]

-- The search ends at the vertex where it starts or at the end of a child edge.
pub Lowest-end :
    (bits : Bitset) (boost : BoostGraph bits.Bits) (mask : bits.Bits) (g : Graph boost) (v r : ℕ)
    → Lowest bits boost mask g v r
    → (r ≡ v) ⊎ ((u : ℕ) × IsChild g u r)
Lowest-end bits boost mask g v r (settled _ h) = inl refl
Lowest-end bits boost mask g v r (down {t = t} b least rest) =
    elim (Lowest-end bits boost mask g t r rest) [
      | inl e ↦ inr (v, subst (λ x. IsChild g v x) (sym e) b.child_edge)
      | inr found ↦ inr found
    ]
