-- ===== src/Examples/Hops.antt =====
-- What find_distances (example/example.cc) prints from the first accelerator on: the logical cores with the
-- fewest hops from it.
use yloc.Prelude.{
  ℕ, ◌≤◌, ◌≡◌, ◌↔◌, inl, inr, refl, sym, ap, ◌∙◌, subst, arith, true, not, ltb, List, ◌∷◌, map_iff,
  keep_iff, Memᴰ, Text,
}
use yloc.ComponentTypes.{logical_core}
use yloc.GraphElement.{Vertex, Edge}
use yloc.Graph.{BoostGraph, Graph}
use yloc.External.AdjacencyList.{Link}
use yloc.External.FilteredGraph.{FilteredGraph}
use yloc.View.{GraphView, vertex_range}
use yloc.Query.{bfs_hops}
use yloc.Query.Shortest.{Walk, IsBreadthFirst}
use yloc.Query.Distance.{IsShortest, IsShortest-unique, bfs_hops-IsShortest}
use yloc.Examples.{
  Line, hops, first_accelerator, number_of_pus, minimum_distance, least, view_of, nearest_cores,
}
use yloc.Examples.Classes.{Is, in_view_iff}
use yloc.Examples.Minimum.{least_bounds, least_reached}

-- The logical cores with the fewest hops from `a`, with the number of hops.
pub record IsNearest {Mask : Type 0} {boost : BoostGraph Mask} (g : Graph boost) (a v d : ℕ)
    : Type 0 where
  pub core : Is g logical_core v
  pub distance : IsShortest g a v d
  pub nearest : (w k : ℕ) → Is g logical_core w → Walk g a k w → d ≤ k

module _ (d : ℕ → ℕ) (first : ℕ) (rest : List ℕ) where
  abbrev minimum : ℕ
  minimum = least d (d first) (first ∷ rest)

  minimum_at : (w : ℕ) × Memᴰ w (first ∷ rest) × (minimum ≡ d w)
  minimum_at = elim (least_reached d (d first) (first ∷ rest)) [
    | inl e ↦ (first, Memᴰ.head refl, e)
    | inr h ↦ h
  ]

  -- A vertex is kept exactly where no other one has a smaller value.
  minimum_iff :
      (v : ℕ) → (not (ltb minimum (d v)) ≡ true) ↔ ((w : ℕ) → Memᴰ w (first ∷ rest) → d v ≤ d w)
  minimum_iff v =
      let bounds = (least_bounds d (d first) (first ∷ rest)).1 in
      let (w0, m0, e0) = minimum_at in
      (λ h w m. kept_le minimum (d v) h (bounds w m), λ h. le_kept minimum (d v) (rw e0 (h w0 m0)))
    where
      kept_le : (a b : ℕ) {c : ℕ} → not (ltb a b) ≡ true → a ≤ c → b ≤ c
      kept_le a b h k = ground arith

      le_kept : (a b : ℕ) → b ≤ a → not (ltb a b) ≡ true
      le_kept a b h = ground arith

-- The lines about logical cores are those of the nearest.
pub record PrintsNearest {Mask : Type 0} {boost : BoostGraph Mask} (g : Graph boost) (a : ℕ)
    (lines : List Line) : Type 0 where
  pub printed_iff : (v d : ℕ) → Memᴰ (hops a v d) lines ↔ IsNearest g a v d

module _ {Mask : Type 0} {boost : BoostGraph Mask}
    (filtered : FilteredGraph (Vertex Mask) (Edge Mask))
    (breadth_first_search : Graph boost → ℕ → List (Link (Edge Mask))) (g : Graph boost) where
  abbrev pub cores : List ℕ
  cores = (view_of filtered g logical_core).vertices

  module _ (a : ℕ) (breadth : IsBreadthFirst g a (breadth_first_search g a))
      (reached : (v : ℕ) → Is g logical_core v → (k : ℕ) × Walk g a k v) where
    abbrev dist : ℕ → ℕ
    dist = bfs_hops breadth_first_search g a

    dist-IsShortest : (v : ℕ) → Is g logical_core v → IsShortest g a v (dist v)
    dist-IsShortest v h = bfs_hops-IsShortest breadth_first_search g a v breadth (reached v h).1

    -- The hops of a core are the fewest exactly where it is the nearest.
    fewest_hops_iff :
        (v d : ℕ)
        → ((Is g logical_core v) × ((w : ℕ) → Memᴰ w cores → dist v ≤ dist w) × (dist v ≡ d))
          ↔ IsNearest g a v d
    fewest_hops_iff v d = (
      λ (h, least, e). record {
        core = h;
        distance = subst (IsShortest g a v) e (dist-IsShortest v h);
        nearest = λ w k c walk.
            let near = least w ((in_view_iff filtered g logical_core w).1 c) in
            let short = (dist-IsShortest w c).at_most k walk in omega (arith, near, short, e);
      },
      λ h.
          let e : dist v ≡ d = IsShortest-unique (dist-IsShortest v h.core) h.distance in
          (
            h.core,
            λ w m.
                let c = (in_view_iff filtered g logical_core w).0 m in
                let le = h.nearest w (dist w) c (dist-IsShortest w c).walk in omega (arith, e, le),
            e,
          ),
    )

    abbrev mindist : ℕ → ℕ
    mindist first = least dist (dist first) cores

    abbrev fgv_pu_min : ℕ → GraphView Mask
    fgv_pu_min first =
        filtered.make_filtered_graph (view_of filtered g logical_core)
          (λ v. not (ltb (mindist first) (dist v)))

    -- The vertices that are left are the cores with the fewest hops.
    left_iff :
        (first : ℕ) (rest : List ℕ)
        → cores ≡ first ∷ rest
        → (v : ℕ)
        → Memᴰ v (fgv_pu_min first).vertices
          ↔ (Is g logical_core v × ((w : ℕ) → Memᴰ w cores → dist v ≤ dist w))
    left_iff first rest e v =
        let near = λ (v : ℕ). not (ltb (mindist first) (dist v)) in
        let kept = filtered.vertices-make_filtered_graph (view_of filtered g logical_core) near in
        let near_iff : (near v ≡ true) ↔ ((w : ℕ) → Memᴰ w cores → dist v ≤ dist w) =
          rw e (minimum_iff dist first rest v) in
        (
          λ m.
              let (k, h) = (keep_iff near v cores).0 (subst (Memᴰ v) kept m) in
              ((in_view_iff filtered g logical_core v).0 k, near_iff.0 h),
          λ (c, le). subst (Memᴰ v) (sym kept) (
              (keep_iff near v cores).1
                ((in_view_iff filtered g logical_core v).1 c, near_iff.1 le)),
        )

    pub nearest_cores-PrintsNearest :
        (first : ℕ) (rest : List ℕ)
        → cores ≡ first ∷ rest
        → PrintsNearest g a (nearest_cores filtered breadth_first_search g a first)
    unfolding nearest_cores vertex_range
    nearest_cores-PrintsNearest first rest e = record {
      printed_iff = λ v d.
          let lines_iff =
            map_iff (λ vd. hops a vd (dist vd)) (hops a v d) (fgv_pu_min first).vertices in
          (
            λ m.
                let (x, n, f) = lines_iff.0 (hops_line m) in
                let same : x ≡ v = cc f in
                let value : dist v ≡ d = ap dist (sym same) ∙ cc f in
                let (c, le) =
                  (left_iff first rest e v).0
                    (subst (λ y. Memᴰ y (fgv_pu_min first).vertices) same n) in
                (fewest_hops_iff v d).0 (c, le, value),
            λ h.
                let (c, le, value) = (fewest_hops_iff v d).1 h in
                let m = lines_iff.1 (v, (left_iff first rest e v).1 (c, le), ap (hops a v) value) in
                Memᴰ.tail (Memᴰ.tail (Memᴰ.tail m)),
          );
    }
      where
        hops_line :
            {a v d n mindist : ℕ} {s : Text} {rest : List Line}
            → Memᴰ
                (hops a v d)
                (first_accelerator s ∷ number_of_pus n ∷ minimum_distance mindist ∷ rest)
            → Memᴰ (hops a v d) rest
        hops_line (Memᴰ.head e) = cc e
        hops_line (Memᴰ.tail (Memᴰ.head e)) = cc e
        hops_line (Memᴰ.tail (Memᴰ.tail (Memᴰ.head e))) = cc e
        hops_line (Memᴰ.tail (Memᴰ.tail (Memᴰ.tail m))) = m
