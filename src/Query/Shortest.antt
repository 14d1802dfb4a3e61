-- ===== src/Query/Shortest.antt =====
-- The numbers of hops of bfs_distance_vector (src/include/yloc/query.h) against the walks of the graph.
use yloc.Prelude.{
  ℕ, zero, suc, ◌+◌, ◌<◌, ◌≤◌, ◌≡◌, ◌≢◌, refl, sym, ap, subst, ◌⊎◌, inl, inr, List, [], ◌∷◌, some,
  of_some, false, get_elem?, Memᴰ, Bool-cases, ◌==◌, ==_iff, arith,
}
use yloc.External.AdjacencyList.{Link}
use yloc.GraphElement.{Edge}
use yloc.Graph.{BoostGraph, Graph, edges}
use yloc.Query.{visit, bfs_hops, bfs_distance_vector}
use yloc.Query.Tree.{visit_kept, visit_tree}

-- The vertex `v` is the `t`-th that a search from `s` with these tree edges discovers, from 0 on.
unfoldable pub Discovered : {E : Type 0} → List (Link E) → ℕ → ℕ → ℕ → Type 0
Discovered {E} es s zero v = s ≡ v
Discovered {E} es s (suc i) v = (l : Link E) × (get_elem? es i ≡ some l) × (l.target ≡ v)

module _ {Mask : Type 0} {boost : BoostGraph Mask} where
  -- A walk from `s` of the given length to the given vertex.
  pub data Walk (g : Graph boost) (s : ℕ) : ℕ → ℕ → Type 0 where
    start : Walk g s 0 s
    step :
        {k : ℕ} (l : Link (Edge Mask))
        → Walk g s k l.source
        → Memᴰ l (edges g)
        → Walk g s (suc k) l.target

  -- What is documented of breadth_first_search: the tree edges are edges of the graph, from vertices
  -- that were discovered before; a vertex is discovered once; vertices are examined in the order in
  -- which they were discovered; and after a vertex was examined, the ends of its edges are discovered.
  pub record IsBreadthFirst (g : Graph boost) (s : ℕ) (es : List (Link (Edge Mask))) : Type 0 where
    pub are_edges : (i : ℕ) (l : Link (Edge Mask)) → get_elem? es i ≡ some l → Memᴰ l (edges g)
    pub from_discovered :
        (i : ℕ) (l : Link (Edge Mask))
        → get_elem? es i ≡ some l
        → (t : ℕ) × (t ≤ i) × Discovered es s t l.source
    pub once : (t u v : ℕ) → Discovered es s t v → Discovered es s u v → t ≡ u
    pub in_order :
        (i j t u : ℕ) (l m : Link (Edge Mask))
        → i ≤ j
        → get_elem? es i ≡ some l
        → get_elem? es j ≡ some m
        → Discovered es s t l.source
        → Discovered es s u m.source
        → t ≤ u
    pub ends_discovered :
        (t : ℕ) (l : Link (Edge Mask))
        → Memᴰ l (edges g)
        → Discovered es s t l.source
        → (s ≡ l.target)
          ⊎ ((i u : ℕ) × (m : Link (Edge Mask)) × (get_elem? es i ≡ some m)
              × (m.target ≡ l.target)
              × Discovered es s u m.source
              × (u ≤ t))

  module _ (g : Graph boost) (s : ℕ) (es : List (Link (Edge Mask)))
      (b : IsBreadthFirst g s es) where
    -- The value that a vertex has after the search.
    abbrev hops : ℕ → ℕ
    hops v = visit (λ e val_pre. val_pre + 1) (λ _. 0) es v

    hops_start : hops s ≡ 0
    unfolding Discovered
    hops_start =
        visit_kept (λ e val_pre. val_pre + 1) es (λ _. 0) s
          (λ i l e same. absurd (omega (arith, b.once 0 (suc i) s refl (l, e, same))))

    hops_step :
        (i : ℕ) (l : Link (Edge Mask)) → get_elem? es i ≡ some l → hops l.target ≡ hops l.source + 1
    unfolding Discovered
    hops_step i l e =
        let (t, le, d) = b.from_discovered i l e in
        visit_tree (λ e val_pre. val_pre + 1) es (λ _. 0) i l e
          (λ j m f less same.
            absurd (omega (arith, less, b.once (suc i) (suc j) l.target (l, e, refl) (m, f, same))))
          (λ j m f less same.
            absurd (omega (arith, less, le, b.once t (suc j) l.source d (m, f, same))))

    -- A vertex that is discovered later is not closer. The first number bounds the times.
    hops_grow :
        (n t u v w : ℕ)
        → u < n
        → t ≤ u
        → Discovered es s t v
        → Discovered es s u w
        → hops v ≤ hops w
    unfolding Discovered
    hops_grow zero t u v w l h d e = absurd (omega (arith, l))
    hops_grow (suc n) zero u v w l h d e = omega (arith, hops_start, ap hops d)
    hops_grow (suc n) (suc t) zero v w l h d e = absurd (omega (arith, h))
    hops_grow (suc n) (suc t) (suc u) v w l h (a, f, p) (c, k, q) =
        let (x, xl, dx) = b.from_discovered t a f in
        let (y, yl, dy) = b.from_discovered u c k in
        let order = b.in_order t u x y a c (omega (arith, h)) f k dx dy in
        let rest = hops_grow n x y a.source c.source (omega (arith, l, yl)) order dx dy in
        omega (arith, rest, hops_step t a f, hops_step u c k, ap hops p, ap hops q)

    -- The end of a walk is discovered, and has no more hops than the walk has edges.
    Walk-hops : {k v : ℕ} → Walk g s k v → (t : ℕ) × Discovered es s t v × (hops v ≤ k)
    unfolding Discovered
    Walk-hops start = (0, refl, omega (arith, hops_start))
    Walk-hops (step l w m) =
        let (t, d, h) = Walk-hops w in
        elim (b.ends_discovered t l m d) [
          | inl e ↦ (0, e, omega (arith, hops_start, ap hops e))
          | inr (i, u, c, f, e, du, le) ↦ (
            suc i,
            (c, f, e),
            omega (
              arith,
              h,
              hops_step i c f,
              ap hops e,
              hops_grow (suc t) u t c.source l.source (omega arith) le du d,
            ),
          )
        ]

    -- A discovered vertex has a walk with as many edges as it has hops.
    hops-Walk : (n t v : ℕ) → t < n → Discovered es s t v → Walk g s (hops v) v
    unfolding Discovered
    hops-Walk zero t v l d = absurd (omega (arith, l))
    hops-Walk (suc n) zero v l d =
        subst (λ x. Walk g s (hops x) x) d (subst (λ k. Walk g s k s) (sym hops_start) start)
    hops-Walk (suc n) (suc i) v l (a, f, p) =
        let (x, xl, dx) = b.from_discovered i a f in
        let w = hops-Walk n x a.source (omega (arith, l, xl)) dx in
        subst (λ y. Walk g s (hops y) y) p
          (subst (λ k. Walk g s k a.target) (omega (arith, hops_step i a f))
            (step a w (b.are_edges i a f)))

-- An edge of a list that leads to a vertex, if there is one.
find_target :
    {E : Type 0} (es : List (Link E)) (v : ℕ)
    → ((i : ℕ) × (l : Link E) × (get_elem? es i ≡ some l) × (l.target ≡ v))
      ⊎ ((i : ℕ) (l : Link E) → get_elem? es i ≡ some l → l.target ≢ v)
find_target [] v = inr (λ i l e. cc e)
find_target (e ∷ es) v = elim (Bool-cases (e.target == v)) [
  | inl f ↦ inl (0, e, refl, (==_iff e.target v).0 f)
  | inr f ↦ elim (find_target es v) [
    | inl (i, l, k, same) ↦ inl (suc i, l, k, same)
    | inr h ↦ inr (later e es f h)
  ]
]
  where
    later :
        {E : Type 0} (e : Link E) (es : List (Link E)) {v : ℕ}
        → (e.target == v) ≡ false
        → ((i : ℕ) (l : Link E) → get_elem? es i ≡ some l → l.target ≢ v)
        → (i : ℕ) (l : Link E) → get_elem? (e ∷ es) i ≡ some l
        → l.target ≢ v
    later e es {v} f h zero l k same =
        cc (f, (==_iff l.target v).1 same, ap (λ (x : Link _). x.target == v) (of_some k))
    later e es f h (suc i) l k same = h i l k same

undiscovered :
    {E : Type 0} (s : ℕ) (es : List (Link E)) (v : ℕ)
    → (s == v) ≡ false
    → ((i : ℕ) (l : Link E) → get_elem? es i ≡ some l → l.target ≢ v)
    → (t : ℕ) → ¬ Discovered es s t v
unfolding Discovered
undiscovered s es v e h zero d = cc (e, (==_iff s v).1 d)
undiscovered s es v e h (suc i) (l, f, same) = h i l f same

module _ {Mask : Type 0} {boost : BoostGraph Mask}
    (breadth_first_search : Graph boost → ℕ → List (Link (Edge Mask))) where
  -- Where boost's search is breadth first, bfs_distance_vector without a function gives every vertex that
  -- can be reached from the start vertex the length of a shortest walk to it, and 0 to all that cannot be
  -- reached.
  pub bfs_hops-shortest :
      (g : Graph boost) (s v : ℕ)
      → IsBreadthFirst g s (breadth_first_search g s)
      → (Walk g s (bfs_hops breadth_first_search g s v) v
          × ((k : ℕ) → Walk g s k v → bfs_hops breadth_first_search g s v ≤ k))
        ⊎ ((¬ ((k : ℕ) × Walk g s k v)) × (bfs_hops breadth_first_search g s v ≡ 0))
  unfolding bfs_hops bfs_distance_vector Discovered
  bfs_hops-shortest g s v b =
      let es = breadth_first_search g s in
      let near = λ (k : ℕ) (w : Walk g s k v). (Walk-hops g s es b w).2 in
      elim (Bool-cases (s == v)) [
        | inl e ↦ inl (hops-Walk g s es b 1 0 v (omega arith) ((==_iff s v).0 e), near)
        | inr e ↦ elim (find_target es v) [
          | inl (i, l, f, same) ↦
              inl (hops-Walk g s es b (suc (suc i)) (suc i) v (omega arith) (l, f, same), near)
          | inr h ↦ inr (
            λ (k, w). undiscovered s es v e h (Walk-hops g s es b w).0 (Walk-hops g s es b w).1,
            visit_kept (λ e val_pre. val_pre + 1) es (λ _. 0) v h,
          )
        ]
      ]
