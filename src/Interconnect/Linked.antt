-- ===== src/Interconnect/Linked.antt =====
-- Which edges the loops over pairs of GPUs (modules/nvml/nvml_impl.cc) add.
use mathlib.Core.List.Memᴰ as MemD
use yloc.Prelude.{
  Memᴰ, subst, ◌⊎◌, ℕ, zero, suc, ◌+◌, ◌*◌, ◌<◌, ◌≤◌, ◌≡◌, refl, ap, ◌∙◌, Bool, true, ◌&&◌,
  Bool-cases, inl, inr, length, length-append, arith, [], ◌∷◌, ◌++◌, ◌==◌, ==_iff,
}
use yloc.GraphElement.{Edge, gpu_interconnect}
use yloc.External.AdjacencyList.{Link}
use yloc.Interconnect.Counted.{num_pairs, link_all-num_pairs}
use yloc.Graph.{BoostGraph, Graph, num_vertices, edges, add_gpu_link, add_edge, has_edge}
use yloc.Graph.Changes.{Change, Changes, unchanged, one_change, Changes-trans, edges-pair, link}
use yloc.Graph.Growth.{Changes-Extends}
use yloc.Supermuc.Placed.{has_edge_kept, any-behind}
use yloc.Interconnect.{link_pair, link_from, link_all, yloc_nvml_gpu_interconnect}

module _ {Mask : Type 0} (connected : ℕ → ℕ → Bool) (vertices : ℕ → ℕ) where
  -- An edge in one of the two directions between a connected pair.
  pub record IsLinkOf (Through : ℕ → ℕ → Type 0) (l : Link (Edge Mask)) : Type 0 where
    pub src : ℕ
    pub dst : ℕ
    pub through : Through src dst
    pub are_connected : connected src dst ≡ true
    pub ends :
        (l ≡ link (vertices src) (vertices dst) gpu_interconnect)
        ⊎ (l ≡ link (vertices dst) (vertices src) gpu_interconnect)

  IsLinkOf-wider :
      (P Q : ℕ → ℕ → Type 0) (l : Link (Edge Mask))
      → ((i j : ℕ) → P i j → Q i j)
      → IsLinkOf P l
      → IsLinkOf Q l
  IsLinkOf-wider P Q l w k = record {
    src = k.src;
    dst = k.dst;
    through = w k.src k.dst k.through;
    are_connected = k.are_connected;
    ends = k.ends;
  }

one_of_two : {Mask : Type 0} {l a b : Link (Edge Mask)} → Memᴰ l (a ∷ b ∷ []) → (l ≡ a) ⊎ (l ≡ b)
one_of_two (Memᴰ.head e) = inl e
one_of_two (Memᴰ.tail (Memᴰ.head e)) = inr e
one_of_two (Memᴰ.tail (Memᴰ.tail m)) = elim m [ ]

module _ {Mask : Type 0} {boost : BoostGraph Mask} (connected : ℕ → ℕ → Bool)
    (vertices : ℕ → ℕ) where
  -- What a part of the loops did: only changes, two edges for each counted interconnect, and edges
  -- between the connected pairs that it went through, and no others.
  pub record Linked (s t : Graph boost × ℕ) (Through : ℕ → ℕ → Type 0) : Type 0 where
    pub changes : Changes s.0 t.0
    pub counted : length (edges t.0) + 2 * s.1 ≡ length (edges s.0) + 2 * t.1
    pub no_others :
        (l : Link (Edge Mask))
        → Memᴰ l (edges t.0)
        → Memᴰ l (edges s.0) ⊎ IsLinkOf connected vertices Through l
    pub there :
        (i j : ℕ)
        → Through i j
        → connected i j ≡ true
        → (has_edge t.0 (vertices i) (vertices j) ≡ true)
          × (has_edge t.0 (vertices j) (vertices i) ≡ true)

  edges-gpu_link :
      (g : Graph boost) (u v : ℕ)
      → u < num_vertices g
      → v < num_vertices g
      → edges (add_gpu_link u v g)
        ≡ edges g ++ link u v gpu_interconnect ∷ link v u gpu_interconnect ∷ []
  unfolding add_gpu_link
  edges-gpu_link g u v hu hv =
      unfold add_edge in edges-pair g u v gpu_interconnect gpu_interconnect hu hv

  gpu_link_there :
      (g : Graph boost) (u v : ℕ)
      → u < num_vertices g
      → v < num_vertices g
      → (has_edge (add_gpu_link u v g) u v ≡ true) × (has_edge (add_gpu_link u v g) v u ≡ true)
  unfolding has_edge
  gpu_link_there g u v hu hv =
      let new = link u v gpu_interconnect ∷ link v u gpu_interconnect ∷ [] in
      (
        rw (edges-gpu_link g u v hu hv) (
            any-behind (λ l. l.source == u && l.target == v) (edges g) new
              (rw ((==_iff u u).1 refl, (==_iff v v).1 refl) refl)),
        rw (edges-gpu_link g u v hu hv)
            (any-behind (λ l. l.source == v && l.target == u) (edges g) new (ground arith)),
      )

  link_pair-Linked :
      (src dst : ℕ) (s : Graph boost × ℕ)
      → vertices src < num_vertices s.0
      → vertices dst < num_vertices s.0
      → Linked s (link_pair connected vertices src dst s) (λ i j. (i ≡ src) × (j ≡ dst))
  unfolding link_pair
  link_pair-Linked src dst (g, n) hs hd = elim (Bool-cases (connected src dst)) [
    | inl e ↦
        rw (link_pair, e)
          (record {
            changes = one_change (Change.interconnected g (vertices src) (vertices dst) hs hd);
            counted = omega (
              arith,
              ap length (edges-gpu_link g (vertices src) (vertices dst) hs hd)
                  ∙ length-append (edges g) _,
            );
            no_others = λ l m.
                elim (MemD.append_cases (edges g)
                  (subst (Memᴰ l) (edges-gpu_link g (vertices src) (vertices dst) hs hd) m)) [
                    | inl old ↦ inl old
                    | inr new ↦ inr (record {
                      src = src;
                      dst = dst;
                      through = (refl, refl);
                      are_connected = e;
                      ends = one_of_two new;
                    })
                  ];
            there = λ i j p c. rw (p.0, p.1) (gpu_link_there g (vertices src) (vertices dst) hs hd);
          })
    | inr e ↦
        rw (link_pair, e)
          (record {
            changes = unchanged;
            counted = refl;
            no_others = λ l m. inl m;
            there = λ i j p c. absurd (cc (e, c, p.0, p.1));
          })
  ]

  -- Two parts after each other went through the pairs of both.
  joined :
      (s t u : Graph boost × ℕ) (P Q R : ℕ → ℕ → Type 0)
      → Linked s t P
      → Linked t u Q
      → ((i j : ℕ) → R i j → P i j ⊎ Q i j)
      → ((i j : ℕ) → P i j → R i j)
      → ((i j : ℕ) → Q i j → R i j)
      → Linked s u R
  joined s t u P Q R a b split first second = record {
    changes = Changes-trans a.changes b.changes;
    counted = omega (arith, a.counted, b.counted);
    no_others = λ l m. elim (b.no_others l m) [
      | inr k ↦ inr (IsLinkOf-wider connected vertices Q R l second k)
      | inl n ↦ elim (a.no_others l n) [
        | inr k ↦ inr (IsLinkOf-wider connected vertices P R l first k)
        | inl old ↦ inl old
      ]
    ];
    there = λ i j r c. elim (split i j r) [
      | inl p ↦
          let (down, up) = a.there i j p c in
          (
            has_edge_kept (vertices i) (vertices j) (Changes-Extends b.changes) down,
            has_edge_kept (vertices j) (vertices i) (Changes-Extends b.changes) up,
          )
      | inr q ↦ b.there i j q c
    ];
  }

  link_from-Linked :
      (src left dst : ℕ) (s : Graph boost × ℕ)
      → vertices src < num_vertices s.0
      → ((i : ℕ) → i < dst + left → vertices i < num_vertices s.0)
      → Linked s
          (link_from connected vertices src left dst s)
          (λ i j. (i ≡ src) × (dst ≤ j) × (j < dst + left))
  unfolding link_from
  link_from-Linked src zero dst s hs h = record {
    changes = unchanged;
    counted = refl;
    no_others = λ l m. inl m;
    there = λ i j p c. absurd (omega (arith, p.1, p.2));
  }
  link_from-Linked src (suc left) dst s hs h =
      let t = link_pair connected vertices src dst s in
      let a = link_pair-Linked src dst s hs (h dst (omega arith)) in
      let kept = (Changes-Extends a.changes).vertices_kept in
      let b =
        link_from-Linked src left (suc dst) t (omega (arith, hs, kept))
          (λ i l. omega (arith, kept, h i (omega (arith, l)))) in
      joined s t (link_from connected vertices src left (suc dst) t) (λ i j. (i ≡ src) × (j ≡ dst))
        (λ i j. (i ≡ src) × (suc dst ≤ j) × (j < suc dst + left))
        (λ i j. (i ≡ src) × (dst ≤ j) × (j < dst + suc left)) a b
        (λ i j (e, l, m). elim (Bool-cases (j == dst)) [
          | inl f ↦ inl (e, (==_iff j dst).0 f)
          | inr f ↦ inr (e, ground arith, omega (arith, m))
        ])
        (λ i j (e, f). (e, omega (arith, f), omega (arith, f)))
        (λ i j (e, l, m). (e, omega (arith, l), omega (arith, m)))

  pub link_all-Linked :
      (left src : ℕ) (s : Graph boost × ℕ)
      → ((i : ℕ) → i < src + left → vertices i < num_vertices s.0)
      → Linked s
          (link_all connected vertices left src s)
          (λ i j. (src ≤ i) × (i < j) × (j < src + left))
  unfolding link_all
  link_all-Linked zero src s h = record {
    changes = unchanged;
    counted = refl;
    no_others = λ l m. inl m;
    there = λ i j p c. absurd (omega (arith, p.0, p.1, p.2));
  }
  link_all-Linked (suc left) src s h =
      let t = link_from connected vertices src left (suc src) s in
      let a =
        link_from-Linked src left (suc src) s (h src (omega arith))
          (λ i l. h i (omega (arith, l))) in
      let kept = (Changes-Extends a.changes).vertices_kept in
      let b =
        link_all-Linked left (suc src) t (λ i l. omega (arith, kept, h i (omega (arith, l)))) in
      joined s t (link_all connected vertices left (suc src) t)
        (λ i j. (i ≡ src) × (suc src ≤ j) × (j < suc src + left))
        (λ i j. (suc src ≤ i) × (i < j) × (j < suc src + left))
        (λ i j. (src ≤ i) × (i < j) × (j < src + suc left)) a b
        (λ i j (e, l, m). elim (Bool-cases (i == src)) [
          | inl f ↦
              let same : i ≡ src = (==_iff i src).0 f in
              inl (same, omega (arith, same, l), omega (arith, m))
          | inr f ↦ inr (ground arith, l, omega (arith, m))
        ])
        (λ i j (e, l, m). (omega (arith, e), omega (arith, e, l), omega (arith, m)))
        (λ i j (e, l, m). (omega (arith, e), l, omega (arith, m)))

  -- Where the devices have vertices, the loops make only module changes, count each connected pair of
  -- devices once, and add exactly two edges for each of them: every edge behind them was there before
  -- or is a GPU interconnect between the vertices of two connected devices, and every two connected
  -- devices have edges between their vertices in both directions.
  pub yloc_nvml_gpu_interconnect-Linked :
      (num_devices : ℕ) (g : Graph boost)
      → ((i : ℕ) → i < num_devices → vertices i < num_vertices g)
      → Changes g (yloc_nvml_gpu_interconnect connected vertices num_devices g).0
        × (length (edges (yloc_nvml_gpu_interconnect connected vertices num_devices g).0)
            ≡ length (edges g)
              + 2 * (yloc_nvml_gpu_interconnect connected vertices num_devices g).1)
        × ((yloc_nvml_gpu_interconnect connected vertices num_devices g).1
            ≡ num_pairs connected num_devices)
        × ((l : Link (Edge Mask))
            → Memᴰ l (edges (yloc_nvml_gpu_interconnect connected vertices num_devices g).0)
            → Memᴰ l (edges g) ⊎ IsLinkOf connected vertices (λ i j. (i < j) × (j < num_devices)) l)
        × ((i j : ℕ)
            → i < j
            → j < num_devices
            → connected i j ≡ true
            → (has_edge
                  (yloc_nvml_gpu_interconnect connected vertices num_devices g).0
                  (vertices i)
                  (vertices j)
                ≡ true)
              × (has_edge
                    (yloc_nvml_gpu_interconnect connected vertices num_devices g).0
                    (vertices j)
                    (vertices i)
                  ≡ true))
  unfolding yloc_nvml_gpu_interconnect
  yloc_nvml_gpu_interconnect-Linked num_devices g h =
      let a = link_all-Linked num_devices 0 (g, 0) (λ i l. h i (omega (arith, l))) in
      (
        a.changes,
        omega (arith, a.counted),
        link_all-num_pairs connected vertices num_devices g,
        λ l m. elim (a.no_others l m) [
          | inl old ↦ inl old
          | inr k ↦ inr (
              IsLinkOf-wider connected vertices (λ i j. (0 ≤ i) × (i < j) × (j < 0 + num_devices))
                (λ i j. (i < j) × (j < num_devices)) l (λ i j p. (p.1, omega (arith, p.2))) k)
        ],
        λ i j l m c. a.there i j (omega arith, l, omega (arith, m)) c,
      )
