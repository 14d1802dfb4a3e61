-- ===== src/Tests/Queries.antt =====
-- A run of the distance queries (src/include/yloc/query.h).
use yloc.Prelude.{
  ℕ, zero, suc, ◌≤◌, ◌≡◌, ◌⊎◌, refl, sym, ap, subst, inr, List, [], ◌∷◌, get_elem?, some, of_some,
  Memᴰ, arith,
}
use yloc.External.AdjacencyList.{Link}
use yloc.GraphElement.{Vertex, Edge, new_element, new_edge, child}
use yloc.Graph.{BoostGraph, Graph, new_graph, edges}
use yloc.Query.{bfs_hops}
use yloc.Query.Shortest.{Walk, Discovered, IsBreadthFirst, bfs_hops-shortest}
use yloc.Tests.Bits.{BitFun}
use yloc.Tests.Lists.{boost_of}

abbrev pub graph_type : BoostGraph BitFun
graph_type = boost_of BitFun

abbrev pub first_link : Link (Edge BitFun)
first_link = record { source = 0; target = 1; property = new_edge child }

abbrev pub second_link : Link (Edge BitFun)
second_link = record { source = 1; target = 2; property = new_edge child }

-- The path 0, 1, 2 with given vertices.
abbrev pub path_of : (ℕ → Vertex BitFun) → Graph graph_type
path_of at = record (new_graph graph_type) {
  repr = record { count = 3; at = at; links = first_link ∷ second_link ∷ [] };
}

abbrev pub path_graph : Graph graph_type
path_graph = path_of (λ v. new_element)

-- On a path from its first vertex, the edges in the order of the graph are the tree edges.
abbrev pub path_search : Graph graph_type → ℕ → List (Link (Edge BitFun))
path_search g s = edges g

abbrev pub path_edges : List (Link (Edge BitFun))
path_edges = first_link ∷ second_link ∷ []

-- The edge at the place `i` leads from the vertex `i` to the next one, and starts where the search has
-- been.
pub record IsStep (i : ℕ) (l : Link (Edge BitFun)) : Type 0 where
  pub from : l.source ≡ i
  pub to : l.target ≡ suc i
  listed : Memᴰ l path_edges
  known : Discovered path_edges 0 i l.source

pub path_steps : (i : ℕ) (l : Link (Edge BitFun)) → get_elem? path_edges i ≡ some l → IsStep i l
unfolding Discovered
path_steps zero l e =
    subst (λ m. IsStep 0 m) (of_some e)
      (record { from = refl; to = refl; listed = Memᴰ.head refl; known = refl })
path_steps (suc zero) l e =
    subst (λ m. IsStep 1 m) (of_some e)
      (record {
        from = refl;
        to = refl;
        listed = Memᴰ.tail (Memᴰ.head refl);
        known = (first_link, refl, refl);
      })
path_steps (suc (suc i)) l e = cc e

-- A vertex is discovered at the time that is its number.
discovery_time : (t v : ℕ) → Discovered path_edges 0 t v → t ≡ v
unfolding Discovered
discovery_time zero v d = d
discovery_time (suc i) v (l, e, same) = omega (arith, (path_steps i l e).to, same)

pub place :
    (l : Link (Edge BitFun)) → Memᴰ l path_edges → (i : ℕ) × (get_elem? path_edges i ≡ some l)
place l (Memᴰ.head e) = (0, ap some (sym e))
place l (Memᴰ.tail (Memᴰ.head e)) = (1, ap some (sym e))
place l (Memᴰ.tail (Memᴰ.tail m)) = elim m [ ]

pub path_search-IsBreadthFirst :
    (at : ℕ → Vertex BitFun) → IsBreadthFirst (path_of at) 0 (path_search (path_of at) 0)
unfolding Discovered
path_search-IsBreadthFirst at = record {
  are_edges = λ i l e. (path_steps i l e).listed;
  from_discovered = λ i l e. (i, omega arith, (path_steps i l e).known);
  once = λ t u v d e. omega (arith, discovery_time t v d, discovery_time u v e);
  in_order = λ i j t u l m h e f d k. omega (
    arith,
    h,
    discovery_time t l.source d,
    discovery_time u m.source k,
    (path_steps i l e).from,
    (path_steps j m f).from,
  );
  ends_discovered = λ t l m d.
      let (i, e) = place l m in
      let found = path_steps i l e in
      inr (i, i, l, e, refl, found.known, omega (arith, discovery_time t l.source d, found.from));
}

bfs_hops-shortest_example :
    (Walk path_graph 0 (bfs_hops path_search path_graph 0 2) 2
      × ((k : ℕ) → Walk path_graph 0 k 2 → bfs_hops path_search path_graph 0 2 ≤ k))
    ⊎ ((¬ ((k : ℕ) × Walk path_graph 0 k 2)) × (bfs_hops path_search path_graph 0 2 ≡ 0))
bfs_hops-shortest_example =
    bfs_hops-shortest path_search path_graph 0 2 (path_search-IsBreadthFirst (λ v. new_element))
