-- ===== src/External/FilteredGraph.antt =====
-- What boost's algorithms and writers read of a graph, and boost::filtered_graph with
-- boost::keep_all as the predicate of the edges.
use yloc.Prelude.{ℕ, ◌≡◌, List, Bool, ◌&&◌, keep}
use yloc.External.AdjacencyList.{Link}

-- The vertices and edges in the order of the iterators of boost::vertices and boost::edges, and `g[vd]`.
pub record View (V E : Type 0) : Type 0 where
  pub vertices : List ℕ
  pub edges : List (Link E)
  pub element : ℕ → V

-- A filtered graph shows the vertices that pass the predicate and the edges between them.
pub record FilteredGraph (V E : Type 0) : Type 0 where
  pub make_filtered_graph : View V E → (ℕ → Bool) → View V E
  pub vertices-make_filtered_graph :
      (g : View V E) (p : ℕ → Bool) → (make_filtered_graph g p).vertices ≡ keep p g.vertices
  pub edges-make_filtered_graph :
      (g : View V E) (p : ℕ → Bool)
      → (make_filtered_graph g p).edges ≡ keep (λ l. p l.source && p l.target) g.edges
  pub element-make_filtered_graph :
      (g : View V E) (p : ℕ → Bool) (v : ℕ) → (make_filtered_graph g p).element v ≡ g.element v
