-- ===== src/Examples/Nearest.antt =====
-- What find_distances (example/example.cc) prints: the logical cores with the fewest hops from the first
-- accelerator.
use yloc.Prelude.{
  ℕ, suc, ◌≤◌, ◌≡◌, ◌⊎◌, inl, inr, refl, sym, ap, ◌∙◌, subst, arith, false, ltb, List, [], ◌∷◌,
  length, Memᴰ, ok, fault, ◌>>=◌,
}
use yloc.ComponentTypes.{accelerator, logical_core}
use yloc.GraphElement.{Vertex, Edge}
use yloc.Graph.{BoostGraph, Graph, num_vertices}
use yloc.External.AdjacencyList.{Link}
use yloc.External.FilteredGraph.{FilteredGraph}
use yloc.View.{whole, vertex_range, num_vertices_view}
use yloc.View.Counting.{first_kept-le, num_vertices_view-length}
use yloc.Query.Shortest.{Walk, IsBreadthFirst}
use yloc.Examples.{
  Line, hops, found_accelerators, is_of, view_of, nearest_cores, distances_from, find_distances,
}
use yloc.Examples.Classes.{Is, in_view_iff}
use yloc.Examples.Hops.{PrintsNearest, cores, nearest_cores-PrintsNearest}

-- A range is at its end, or it has a first vertex.
pub List-cases : (vs : List ℕ) → (vs ≡ []) ⊎ ((v : ℕ) × (rest : List ℕ) × (vs ≡ v ∷ rest))
List-cases [] = inl refl
List-cases (v ∷ rest) = inr (v, rest, refl)

without_first :
    {a n v d : ℕ} {lines : List Line}
    → Memᴰ (hops a v d) (found_accelerators n ∷ lines)
    → Memᴰ (hops a v d) lines
without_first (Memᴰ.head e) = cc e
without_first (Memᴰ.tail m) = m

module _ {Mask : Type 0} {boost : BoostGraph Mask} {g : Graph boost} where
  later :
      {a n : ℕ} {lines : List Line}
      → PrintsNearest g a lines
      → PrintsNearest g a (found_accelerators n ∷ lines)
  later {a} {n} {lines} prints = record {
    printed_iff = λ v d. (
      λ m. (prints.printed_iff v d).0 (without_first m),
      λ h. Memᴰ.tail ((prints.printed_iff v d).1 h),
    );
  }

module _ {Mask : Type 0} {boost : BoostGraph Mask}
    (filtered : FilteredGraph (Vertex Mask) (Edge Mask))
    (breadth_first_search : Graph boost → ℕ → List (Link (Edge Mask))) (g : Graph boost) where
  module _ (a : ℕ) (breadth : IsBreadthFirst g a (breadth_first_search g a))
      (reached : (v : ℕ) → Is g logical_core v → (k : ℕ) × Walk g a k v) where
    distances_from-outcome :
        ((cores filtered breadth_first_search g ≡ [])
          × (distances_from filtered breadth_first_search g a ≡ fault))
        ⊎ ((lines : List Line) × (distances_from filtered breadth_first_search g a ≡ ok lines)
            × PrintsNearest g a lines)
    unfolding distances_from vertex_range
    distances_from-outcome = elim (List-cases (cores filtered breadth_first_search g)) [
      | inl e ↦ inl (e, rw e refl)
      | inr (first, rest, e) ↦ inr (
        nearest_cores filtered breadth_first_search g a first,
        rw e refl,
        nearest_cores-PrintsNearest filtered breadth_first_search g a breadth reached first rest e,
      )
    ]

  -- The first accelerator has the smallest number.
  first_accelerator_le :
      (a : ℕ) (rest : List ℕ)
      → (view_of filtered g accelerator).vertices ≡ a ∷ rest
      → (b : ℕ) → Is g accelerator b
      → a ≤ b
  unfolding whole
  first_accelerator_le a rest e b h =
      let kept = filtered.vertices-make_filtered_graph (whole g) (is_of g accelerator) in
      first_kept-le (is_of g accelerator) (num_vertices g) a rest (sym kept ∙ e) b
        (subst (Memᴰ b) kept ((in_view_iff filtered g accelerator b).1 h))

  pub none_found :
      (view_of filtered g accelerator).vertices ≡ []
      → ((a : ℕ) → ¬ Is g accelerator a)
        × (find_distances filtered breadth_first_search g ≡ ok (found_accelerators 0 ∷ []))
  unfolding find_distances
  none_found e =
      let view = view_of filtered g accelerator in
      let zero_long : num_vertices_view view ≡ 0 = num_vertices_view-length view ∙ ap length e in
      (
        λ a h. elim (subst (Memᴰ a) e ((in_view_iff filtered g accelerator a).1 h)) [ ],
        rw zero_long refl,
      )

  first_found :
      (a : ℕ) (rest : List ℕ)
      → (view_of filtered g accelerator).vertices ≡ a ∷ rest
      → find_distances filtered breadth_first_search g
        ≡ distances_from filtered breadth_first_search g a >>= λ lines.
            ok (found_accelerators (num_vertices_view (view_of filtered g accelerator)) ∷ lines)
  unfolding find_distances vertex_range
  first_found a rest e =
      let view = view_of filtered g accelerator in
      let long : num_vertices_view view ≡ suc (length rest) =
        num_vertices_view-length view ∙ ap length e in
      let some_found : ltb (num_vertices_view view) 1 ≡ false = ground arith in
      rw (some_found, e) refl

  -- Either there is no accelerator, and find_distances prints their number only; or there is one but no
  -- logical core, and it faults; or it prints exactly the logical cores that are the nearest to the first
  -- accelerator, each with its distance.
  pub find_distances-outcome :
      ((a : ℕ) → Is g accelerator a → IsBreadthFirst g a (breadth_first_search g a))
      → ((a v : ℕ) → Is g accelerator a → Is g logical_core v → (k : ℕ) × Walk g a k v)
      → (((a : ℕ) → ¬ Is g accelerator a)
          × (find_distances filtered breadth_first_search g ≡ ok (found_accelerators 0 ∷ [])))
        ⊎ (((a : ℕ) × Is g accelerator a)
            × ((v : ℕ) → ¬ Is g logical_core v)
            × (find_distances filtered breadth_first_search g ≡ fault))
        ⊎ ((a : ℕ) × Is g accelerator a
            × ((b : ℕ) → Is g accelerator b → a ≤ b)
            × (lines : List Line) × (find_distances filtered breadth_first_search g ≡ ok lines)
            × PrintsNearest g a lines)
  find_distances-outcome breadth reached =
      elim (List-cases (view_of filtered g accelerator).vertices) [
        | inl e ↦ inl (none_found e)
        | inr (a, rest, e) ↦
            let is_first =
              (in_view_iff filtered g accelerator a).0 (subst (Memᴰ a) (sym e) (Memᴰ.head refl)) in
            elim (distances_from-outcome a (breadth a is_first) (λ v. reached a v is_first)) [
              | inl (no_core, f) ↦ inr (
                  inl (
                    (a, is_first),
                    (λ v h.
                        elim (subst (Memᴰ v) no_core
                          ((in_view_iff filtered g logical_core v).1 h)) [ ]),
                    rw (first_found a rest e, f) refl,
                  ))
              | inr (lines, f, prints) ↦ inr (
                  inr (
                    a,
                    is_first,
                    first_accelerator_le a rest e,
                    (found_accelerators (num_vertices_view (view_of filtered g accelerator))
                        ∷ lines),
                    rw (first_found a rest e, f) refl,
                    later prints,
                  ))
            ]
      ]
