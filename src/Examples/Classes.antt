-- ===== src/Examples/Classes.antt =====
-- The vertices of the views that the programs of example/ make: those of a class.
use yloc.Prelude.{◌<◌, ◌≡◌, ◌↔◌, ℕ, true, sym, subst, keep_iff, Memᴰ}
use yloc.ComponentTypes.{ComponentType}
use yloc.GraphElement.{Vertex, Edge}
use yloc.Graph.{BoostGraph, Graph, num_vertices}
use yloc.External.FilteredGraph.{FilteredGraph}
use yloc.View.{whole, vertices}
use yloc.View.Counting.{in_vertices_iff}
use yloc.Examples.{is_of, view_of}

-- A vertex of the graph whose type is of the class.
pub record Is {Mask : Type 0} {boost : BoostGraph Mask} (g : Graph boost) (c : ComponentType)
    (v : ℕ) : Type 0 where
  pub in_range : v < num_vertices g
  pub of_class : is_of g c v ≡ true

module _ {Mask : Type 0} {boost : BoostGraph Mask}
    (filtered : FilteredGraph (Vertex Mask) (Edge Mask)) where
  pub in_view_iff :
      (g : Graph boost) (c : ComponentType) (v : ℕ)
      → Memᴰ v (view_of filtered g c).vertices ↔ Is g c v
  unfolding whole
  in_view_iff g c v =
      let kept = filtered.vertices-make_filtered_graph (whole g) (is_of g c) in
      (
        λ m.
            let (n, h) =
              (keep_iff (is_of g c) v (vertices (num_vertices g))).0 (subst (Memᴰ v) kept m) in
            record { in_range = (in_vertices_iff (num_vertices g) v).0 n; of_class = h },
        λ h. subst (Memᴰ v) (sym kept) (
            (keep_iff (is_of g c) v (vertices (num_vertices g))).1
              ((in_vertices_iff (num_vertices g) v).1 h.in_range, h.of_class)),
      )
