-- ===== src/Tests/Weighted.antt =====
-- A run of the distances by weights (src/include/yloc/query.h).
use yloc.Prelude.{
  ℕ, zero, suc, ◌<◌, ◌≡◌, ◌⊎◌, refl, sym, ap, subst, Option, Memᴰ, arith, ltb, lt→ltb, ltb→lt,
  Bool-cases, inl, inr, if◌then◌else◌,
}
use yloc.External.AdjacencyList.{Link}
use yloc.GraphElement.{Edge}
use yloc.Graph.{Graph}
use yloc.Query.{bfs_hops}
use yloc.Query.Shortest.{Walk, start, step}
use yloc.Query.Weights.{make_edge_weight_map, dijkstra_path_distance_vector}
use yloc.Query.Dijkstra.{
  WeightedWalk, IsLeastWeight, Walk-weighted, weighted-Walk, dijkstra-eq-bfs_hops,
}
use yloc.Tests.Bits.{BitFun}
use yloc.Tests.Queries.{
  graph_type, path_graph, path_edges, path_search, path_search-IsBreadthFirst, first_link,
  second_link, place, path_steps,
}
use yloc.GraphElement.{new_element}

-- A search on the path, from its first vertex.
abbrev path_dijkstra : Graph graph_type → ℕ → (ℕ → Option ℕ) → (ℕ → ℕ) × (ℕ → ℕ)
path_dijkstra g s weights = (λ v. v, λ v. if ltb v 3 then v else 100)

target_below : (l : Link (Edge BitFun)) → Memᴰ l path_edges → l.target < 3
target_below l (Memᴰ.head e) = omega (arith, ap (λ x. x.target) e)
target_below l (Memᴰ.tail (Memᴰ.head e)) = omega (arith, ap (λ x. x.target) e)
target_below l (Memᴰ.tail (Memᴰ.tail m)) = elim m [ ]

-- A walk on the path has as many edges as the number of its last vertex.
steps_to : {k v : ℕ} → Walk path_graph 0 k v → (v ≡ k) × (v < 3)
steps_to start = (refl, omega arith)
steps_to (step l w m) =
    let (e, _) = steps_to w in
    let (i, f) = place l m in
    let found = path_steps i l f in (omega (arith, e, found.from, found.to), target_below l m)

way_to : (v : ℕ) → v < 3 → Walk path_graph 0 v v
way_to zero h = start
way_to (suc zero) h = step first_link start (Memᴰ.head refl)
way_to (suc (suc zero)) h =
    step second_link (step first_link start (Memᴰ.head refl)) (Memᴰ.tail (Memᴰ.head refl))
way_to (suc (suc (suc v))) h = absurd (omega arith)

path_dijkstra-IsLeastWeight :
    IsLeastWeight path_graph
      (make_edge_weight_map path_graph (λ e. 1))
      0
      100
      (path_dijkstra path_graph 0 (make_edge_weight_map path_graph (λ e. 1))).1
path_dijkstra-IsLeastWeight = record {
  least = λ v k w small.
      let (e, l) = steps_to (weighted-Walk path_graph 0 w) in
      let inside : (if ltb v 3 then v else 100) ≡ k = rw (lt→ltb v 3 l) e in
      (
        subst (λ j. WeightedWalk path_graph (make_edge_weight_map path_graph (λ e. 1)) 0 j v)
            (sym inside) w,
        omega (arith, inside),
      );
  unreached = λ v h. elim (Bool-cases (ltb v 3)) [
    | inl e ↦ absurd (h (v, Walk-weighted path_graph 0 (way_to v (ltb→lt v 3 e))))
    | inr e ↦ rw e refl
  ];
}

two_hops : bfs_hops path_search path_graph 0 2 < 100
unfolding bfs_hops
two_hops = omega arith

dijkstra-eq-bfs_hops_example :
    (((k : ℕ) × Walk path_graph 0 k 2)
      × ((dijkstra_path_distance_vector path_dijkstra path_graph 0
              (make_edge_weight_map path_graph (λ e. 1))).1
            2
          ≡ bfs_hops path_search path_graph 0 2))
    ⊎ ((¬ ((k : ℕ) × Walk path_graph 0 k 2))
        × ((dijkstra_path_distance_vector path_dijkstra path_graph 0
                (make_edge_weight_map path_graph (λ e. 1))).1
              2
            ≡ 100)
        × (bfs_hops path_search path_graph 0 2 ≡ 0))
dijkstra-eq-bfs_hops_example =
    dijkstra-eq-bfs_hops path_dijkstra path_search path_graph 0 2 100
      (path_search-IsBreadthFirst (λ v. new_element)) path_dijkstra-IsLeastWeight two_hops
