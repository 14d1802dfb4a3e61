-- ===== src/Query/Dijkstra.antt =====
-- The distances of dijkstra_path_distance_vector in src/include/yloc/query.h, where the map of weights is
-- that of make_edge_weight_map.
use yloc.Prelude.{
  ℕ, zero, suc, ◌+◌, ◌<◌, ◌≤◌, ◌≡◌, ◌⊎◌, inl, inr, sym, ap, ◌∙◌, subst, List, [], ◌∷◌, Option, some,
  of_some, get_elem?, Memᴰ, arith,
}
use yloc.External.AdjacencyList.{Link}
use yloc.GraphElement.{Edge}
use yloc.Graph.{BoostGraph, Graph, edges}
use yloc.Query.{bfs_hops}
use yloc.Query.Shortest.{Walk, start, step, IsBreadthFirst, bfs_hops-shortest}
use yloc.Query.Weights.{
  make_edge_weight_map, make_edge_weight_map_lem, weight_of, dijkstra_path_distance_vector,
}

get_elem?-Memᴰ : {A : Type 0} (xs : List A) (i : ℕ) {x : A} → get_elem? xs i ≡ some x → Memᴰ x xs
get_elem?-Memᴰ [] i e = cc e
get_elem?-Memᴰ (y ∷ ys) zero e = Memᴰ.head (sym (of_some e))
get_elem?-Memᴰ (y ∷ ys) (suc i) e = Memᴰ.tail (get_elem?-Memᴰ ys i e)

Memᴰ-get_elem? :
    {A : Type 0} {x : A} {xs : List A} → Memᴰ x xs → (i : ℕ) × (get_elem? xs i ≡ some x)
Memᴰ-get_elem? (Memᴰ.head e) = (0, ap some (sym e))
Memᴰ-get_elem? (Memᴰ.tail m) = let (i, e) = Memᴰ-get_elem? m in (suc i, e)

module _ {Mask : Type 0} {boost : BoostGraph Mask} where
  -- A walk from `s` along edges with entries in the map, with the sum of their weights.
  pub data WeightedWalk (g : Graph boost) (weights : ℕ → Option ℕ) (s : ℕ) : ℕ → ℕ → Type 0 where
    stay : WeightedWalk g weights s 0 s
    go :
        {k : ℕ} (i x : ℕ) (l : Link (Edge Mask))
        → WeightedWalk g weights s k l.source
        → get_elem? (edges g) i ≡ some l
        → weights i ≡ some x
        → WeightedWalk g weights s (k + x) l.target

  -- What is documented of dijkstra_shortest_paths for unsigned weights, whose largest value stands for
  -- infinity: a vertex at the end of a walk of less weight has the least weight of all walks to it, and a
  -- vertex that no walk leads to has the largest value.
  pub record IsLeastWeight (g : Graph boost) (weights : ℕ → Option ℕ) (s infinity : ℕ)
      (distances : ℕ → ℕ) : Type 0 where
    pub least :
        (v k : ℕ)
        → WeightedWalk g weights s k v
        → k < infinity
        → WeightedWalk g weights s (distances v) v × (distances v ≤ k)
    pub unreached : (v : ℕ) → ¬ ((k : ℕ) × WeightedWalk g weights s k v) → distances v ≡ infinity

  module _ (g : Graph boost) (s : ℕ) where
    abbrev pub ones : ℕ → Option ℕ
    ones = make_edge_weight_map g (λ e. 1)

    -- With weights of 1 the sum is the number of edges.
    pub Walk-weighted : {k v : ℕ} → Walk g s k v → WeightedWalk g ones s k v
    Walk-weighted start = stay
    Walk-weighted (step {k} l w m) =
        let (i, e) = Memᴰ-get_elem? m in
        let one : ones i ≡ some 1 =
          make_edge_weight_map_lem g (λ e. 1) i ∙ ap (weight_of (λ e. 1)) e in
        let longer : k + 1 ≡ suc k = omega arith in
        subst (λ j. WeightedWalk g ones s j l.target) longer (go i 1 l (Walk-weighted w) e one)

    pub weighted-Walk : {k v : ℕ} → WeightedWalk g ones s k v → Walk g s k v
    weighted-Walk stay = start
    weighted-Walk (go {k} i x l w e f) =
        let one : x ≡ 1 =
          of_some (sym f ∙ make_edge_weight_map_lem g (λ e. 1) i ∙ ap (weight_of (λ e. 1)) e) in
        let longer : suc k ≡ k + x = omega (arith, one) in
        subst (λ j. Walk g s j l.target) longer
          (step l (weighted-Walk w) (get_elem?-Memᴰ (edges g) i e))

  -- Where every edge has the weight 1, a vertex that can be reached over fewer edges than the largest
  -- value is as far for dijkstra_path_distance_vector as for bfs_distance_vector; a vertex that cannot be
  -- reached has the largest value there and 0 here.
  pub dijkstra-eq-bfs_hops :
      (dijkstra_shortest_paths : Graph boost → ℕ → (ℕ → Option ℕ) → (ℕ → ℕ) × (ℕ → ℕ))
      (breadth_first_search : Graph boost → ℕ → List (Link (Edge Mask))) (g : Graph boost)
      (s v infinity : ℕ)
      → IsBreadthFirst g s (breadth_first_search g s)
      → IsLeastWeight g
          (make_edge_weight_map g (λ e. 1))
          s
          infinity
          (dijkstra_shortest_paths g s (make_edge_weight_map g (λ e. 1))).1
      → bfs_hops breadth_first_search g s v < infinity
      → (((k : ℕ) × Walk g s k v)
          × ((dijkstra_path_distance_vector dijkstra_shortest_paths g s
                  (make_edge_weight_map g (λ e. 1))).1
                v
              ≡ bfs_hops breadth_first_search g s v))
        ⊎ ((¬ ((k : ℕ) × Walk g s k v))
            × ((dijkstra_path_distance_vector dijkstra_shortest_paths g s
                    (make_edge_weight_map g (λ e. 1))).1
                  v
                ≡ infinity)
            × (bfs_hops breadth_first_search g s v ≡ 0))
  unfolding dijkstra_path_distance_vector
  dijkstra-eq-bfs_hops dijkstra search g s v infinity b d small =
      elim (bfs_hops-shortest search g s v b) [
        | inl (walk, at_most) ↦
            let (least_walk, le) =
              d.least v (bfs_hops search g s v) (Walk-weighted g s walk) small in
            let ge = at_most _ (weighted-Walk g s least_walk) in
            inl ((bfs_hops search g s v, walk), omega arith)
        | inr (no_walk, e) ↦
            inr (no_walk, d.unreached v (λ (k, w). no_walk (k, weighted-Walk g s w)), e)
      ]
