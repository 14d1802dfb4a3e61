-- ===== src/Query/Weights.antt =====
-- The weights of edges in src/include/yloc/query.h, and the call of boost::dijkstra_shortest_paths,
-- which is a parameter. An edge descriptor is the key of a map by the address of its property, so that
-- parallel edges have entries of their own: the key is the place of the edge among boost::edges.
use Prim.Native.Nat.{bit_xor}
use yloc.Prelude.{
  ℕ, zero, suc, ◌+◌, ◌*◌, ◌%◌, ◌^◌, ◌==◌, ◌<◌, ◌≤◌, ◌≡◌, refl, sym, ap, ◌∙◌, List, [], ◌∷◌, Option,
  none, some, get_elem?, if◌then◌else◌, arith,
}
use yloc.External.AdjacencyList.{Link}
use yloc.GraphElement.{Edge}
use yloc.Graph.{BoostGraph, Graph}
use yloc.View.{whole, edge_range}

-- `std::hash<yloc::edge_t>`, over the hash of a descriptor.
unfoldable pub edge_hash : {E : Type 0} → (ℕ → ℕ) → Link E → ℕ
edge_hash hash f = bit_xor (hash f.source) (hash f.target * 2 % 2 ^ 64)

module _ {E T : Type 0} (edge_weight_fn : Link E → T) where
  -- The loop that fills the map, from the edge at the place `i` on.
  unfoldable pub fill_weights : ℕ → List (Link E) → (ℕ → Option T) → ℕ → Option T
  fill_weights i [] edge_weight_map = edge_weight_map
  fill_weights i (e ∷ es) edge_weight_map =
      fill_weights (suc i) es (λ j. if i == j then some (edge_weight_fn e) else edge_weight_map j)

  fill_keeps :
      (es : List (Link E)) (i j : ℕ) (m : ℕ → Option T) → j < i → fill_weights i es m j ≡ m j
  unfolding fill_weights
  fill_keeps [] i j m l = refl
  fill_keeps (e ∷ es) i j m l =
      fill_keeps es (suc i) j (λ k. if i == k then some (edge_weight_fn e) else m k) (omega arith)
      ∙ ground arith

  abbrev pub weight_of : Option (Link E) → Option T
  weight_of none = none
  weight_of (some e) = some (edge_weight_fn e)

  fill_weights_lem :
      (es : List (Link E)) (first i : ℕ) (m : ℕ → Option T)
      → ((j : ℕ) → first ≤ j → m j ≡ none)
      → fill_weights first es m (first + i) ≡ weight_of (get_elem? es i)
  unfolding fill_weights
  fill_weights_lem [] first i m h = h (first + i) (omega arith)
  fill_weights_lem (e ∷ es) first zero m h =
      let here : first + 0 ≡ first = omega arith in
      ap (fill_weights first (e ∷ es) m) here
      ∙ fill_keeps es (suc first) first (λ k. if first == k then some (edge_weight_fn e) else m k)
          (omega arith)
      ∙ ground arith
  fill_weights_lem (e ∷ es) first (suc i) m h =
      let next : first + suc i ≡ suc first + i = omega arith in
      ap (fill_weights first (e ∷ es) m) next
      ∙ fill_weights_lem es (suc first) i (λ k. if first == k then some (edge_weight_fn e) else m k)
          (λ j l. ground (arith, h j))

module _ {Mask : Type 0} {boost : BoostGraph Mask} where
  unfoldable pub make_edge_weight_map :
      {T : Type 0} → Graph boost → (Link (Edge Mask) → T) → ℕ → Option T
  unfolding fill_weights
  make_edge_weight_map graph edge_weight_fn =
      fill_weights edge_weight_fn 0 (edge_range (whole graph)) (λ _. none)

  -- The vectors of the predecessors and of the distances that boost::dijkstra_shortest_paths leaves.
  unfoldable pub dijkstra_path_distance_vector :
      {T : Type 0}
      → (Graph boost → ℕ → (ℕ → Option T) → (ℕ → ℕ) × (ℕ → T))
      → Graph boost
      → ℕ
      → (ℕ → Option T)
      → (ℕ → ℕ) × (ℕ → T)
  dijkstra_path_distance_vector dijkstra_shortest_paths graph vstart edge_weight_map =
      let (predecessors, distances) = dijkstra_shortest_paths graph vstart edge_weight_map in
      (predecessors, distances)

  -- The map gives each edge its weight, and nothing where there is no edge.
  pub make_edge_weight_map_lem :
      {T : Type 0} (graph : Graph boost) (edge_weight_fn : Link (Edge Mask) → T) (i : ℕ)
      → make_edge_weight_map graph edge_weight_fn i
        ≡ weight_of edge_weight_fn (get_elem? (boost.edges graph.repr) i)
  unfolding make_edge_weight_map whole edge_range
  make_edge_weight_map_lem graph f i =
      let here : 0 + i ≡ i = omega arith in
      ap (fill_weights f 0 (boost.edges graph.repr) (λ _. none)) (sym here)
      ∙ fill_weights_lem f (boost.edges graph.repr) 0 i (λ _. none) (λ j l. refl)
