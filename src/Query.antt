-- ===== src/Query.antt =====
-- The distance queries of src/include/yloc/query.h. boost::breadth_first_search is the list of the
-- edges for which it calls tree_edge, in the order of the calls; the distance vector is a function.
pub mod Tree
pub mod Shortest
pub mod Distance
pub mod Symmetric
pub mod Weights
pub mod Dijkstra
pub mod Reached
use yloc.Prelude.{ℕ, zero, suc, ◌+◌, ◌==◌, if◌then◌else◌, List, [], ◌∷◌}
use yloc.GraphElement.{Edge}
use yloc.Graph.{BoostGraph, Graph}
use yloc.External.AdjacencyList.{Link}

-- `boost::put(m_distmap, v, x)`
abbrev pub put : {T : Type 0} → (ℕ → T) → ℕ → T → ℕ → T
put d v x w = if v == w then x else d w

module _ {E T : Type 0} (on_tree_edge : Link E → T → T) where
  -- bfs_tree_edge_visitor::tree_edge
  unfoldable pub tree_edge : (ℕ → T) → Link E → ℕ → T
  tree_edge distances e = put distances e.target (on_tree_edge e (distances e.source))

  -- The calls of the visitor in the course of a search.
  unfoldable pub visit : (ℕ → T) → List (Link E) → ℕ → T
  unfolding tree_edge
  visit distances [] = distances
  visit distances (e ∷ es) = visit (tree_edge distances e) es

module _ {Mask : Type 0} {boost : BoostGraph Mask}
    (breadth_first_search : Graph boost → ℕ → List (Link (Edge Mask))) where
  -- `bfs_distance_vector(graph, vstart, on_tree_edge)`; `initial` is the value of the elements of a new
  -- vector.
  unfoldable pub bfs_distance_vector :
      {T : Type 0} → T → Graph boost → ℕ → (Link (Edge Mask) → T → T) → ℕ → T
  unfolding visit
  bfs_distance_vector initial graph vstart on_tree_edge =
      visit on_tree_edge (λ _. initial) (breadth_first_search graph vstart)

  -- `bfs_distance_vector(graph, vstart)`
  unfoldable pub bfs_hops : Graph boost → ℕ → ℕ → ℕ
  unfolding bfs_distance_vector
  bfs_hops graph vstart = bfs_distance_vector 0 graph vstart (λ e val_pre. val_pre + 1)
