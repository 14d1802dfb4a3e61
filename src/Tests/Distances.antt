-- ===== src/Tests/Distances.antt =====
-- A run of the program of example/example-mpi.cc on two processes that are tied to each other.
use yloc.Prelude.{
  ℕ, zero, suc, ◌<◌, ◌≡◌, ◌≢◌, ◌⊎◌, inl, inr, refl, sym, ap, ◌∙◌, subst, List, [], ◌∷◌, ◌==◌, Memᴰ,
  get_elem?, some, of_some, codes, ok, fault, arith, if◌then◌else◌, find_key, text_eq,
}
use yloc.External.AdjacencyList.{Link}
use yloc.ComponentTypes.{mpi_process}
use yloc.Adapter.{base_adapter}
use yloc.GraphElement.{Vertex, Edge, new_element, child, parent}
use yloc.Graph.{
  BoostGraph, Graph, new_graph, edges, num_vertices, add_vertex, set_vertex, add_child,
}
use yloc.Graph.Changes.{Changes, unchanged, changed, named, written, tied, link}
use yloc.Query.{bfs_hops}
use yloc.Query.Shortest.{Walk, start, step, Discovered, IsBreadthFirst}
use yloc.Query.Distance.{IsShortest}
use yloc.Query.Symmetric.{bfs_hops-symmetric}
use yloc.Examples.{rank_at, mpi_distances}
use yloc.Examples.Classes.{Is}
use yloc.Examples.Processes.{IsDistanceTable, mpi_distances-outcome}
use yloc.Tests.Bits.{BitFun}
use yloc.Tests.Lists.{boost_of}
use yloc.Tests.Programs.{list_filtered}

-- A search over one edge, in a graph of two vertices.
module _ {Mask : Type 0} {boost : BoostGraph Mask} (g : Graph boost) (l : Link (Edge Mask))
    (there : Memᴰ l (edges g)) (apart : l.source ≢ l.target)
    (all : (m : Link (Edge Mask))
      → Memᴰ m (edges g)
      → (l.source ≡ m.target) ⊎ (l.target ≡ m.target)) where
  only_edge : (i : ℕ) (m : Link (Edge Mask)) → get_elem? (l ∷ []) i ≡ some m → (i ≡ 0) × (l ≡ m)
  only_edge zero m e = (refl, of_some e)
  only_edge (suc i) m e = cc e

  only_time :
      (t v : ℕ)
      → Discovered (l ∷ []) l.source t v
      → ((t ≡ 0) × (l.source ≡ v)) ⊎ ((t ≡ 1) × (l.target ≡ v))
  unfolding Discovered
  only_time zero v d = inl (refl, d)
  only_time (suc i) v (m, e, same) =
      let (first, edge) = only_edge i m e in inr (ap suc first, ap (λ x. x.target) edge ∙ same)

  once_each :
      (t u v : ℕ) → Discovered (l ∷ []) l.source t v → Discovered (l ∷ []) l.source u v → t ≡ u
  once_each t u v d e = elim (only_time t v d) [
    | inl (a, f) ↦ elim (only_time u v e) [
      | inl (b, h) ↦ a ∙ sym b
      | inr (b, h) ↦ absurd (apart (f ∙ sym h))
    ]
    | inr (a, f) ↦ elim (only_time u v e) [
      | inl (b, h) ↦ absurd (apart (h ∙ sym f))
      | inr (b, h) ↦ a ∙ sym b
    ]
  ]

  one_edge-IsBreadthFirst : IsBreadthFirst g l.source (l ∷ [])
  unfolding Discovered
  one_edge-IsBreadthFirst = record {
    are_edges = λ i m e. subst (λ x. Memᴰ x (edges g)) (only_edge i m e).1 there;
    from_discovered = λ i m e. (0, omega arith, ap (λ x. x.source) (only_edge i m e).1);
    once = once_each;
    in_order = λ i j t u m n h e f d k.
        let same : m.source ≡ n.source =
          ap (λ x. x.source) (sym (only_edge i m e).1 ∙ (only_edge j n f).1) in
        omega
          (arith, once_each t u n.source (subst (λ x. Discovered (l ∷ []) l.source t x) same d) k);
    ends_discovered = λ t m k d. elim (all m k) [
      | inl e ↦ inl e
      | inr e ↦ inr (0, 0, l, refl, e, refl, omega arith)
    ];
  }

abbrev graph_type : BoostGraph BitFun
graph_type = boost_of BitFun

abbrev process : ℕ → Vertex BitFun
process i = record new_element {
  m_adapters = record base_adapter { mpi_rank = ok (some i) } ∷ [];
  m_type = mpi_process;
}

abbrev empty_graph : Graph graph_type
empty_graph = new_graph graph_type

abbrev one_vertex : Graph graph_type
one_vertex = (add_vertex (codes "mpi_rank:0") empty_graph).0

abbrev two_vertices : Graph graph_type
two_vertices = (add_vertex (codes "mpi_rank:1") one_vertex).0

abbrev first_process : Graph graph_type
first_process = set_vertex two_vertices 0 (process 0)

abbrev both_processes : Graph graph_type
both_processes = set_vertex first_process 1 (process 1)

abbrev tied_processes : Graph graph_type
tied_processes = add_child 0 1 both_processes

abbrev down : Link (Edge BitFun)
down = link 0 1 child

abbrev up : Link (Edge BitFun)
up = link 1 0 parent

-- The only edge that leaves the vertex.
abbrev edge_search : Graph graph_type → ℕ → List (Link (Edge BitFun))
edge_search g s = if s == 0 then down ∷ [] else up ∷ []

vertex_count : num_vertices both_processes ≡ 2
unfolding add_vertex set_vertex find_key text_eq
vertex_count = refl

making : Changes empty_graph tied_processes
unfolding add_vertex set_vertex find_key text_eq
making =
    changed
      (changed
        (changed
          (changed (changed unchanged (named empty_graph (codes "mpi_rank:0")))
            (named one_vertex (codes "mpi_rank:1")))
          (written two_vertices 0 (process 0) (omega arith)))
        (written first_process 1 (process 1) (omega arith)))
      (tied both_processes 0 1 (omega arith) (omega arith))

two_edges : edges tied_processes ≡ down ∷ up ∷ []
unfolding add_vertex set_vertex find_key text_eq add_child
two_edges = refl

tied_count : num_vertices tied_processes ≡ 2
unfolding add_vertex set_vertex find_key text_eq add_child
tied_count = refl

is_down : Memᴰ down (edges tied_processes)
is_down = subst (Memᴰ down) (sym two_edges) (Memᴰ.head refl)

is_up : Memᴰ up (edges tied_processes)
is_up = subst (Memᴰ up) (sym two_edges) (Memᴰ.tail (Memᴰ.head refl))

-- An edge leads to the one or the other process.
led_to : (m : Link (Edge BitFun)) → Memᴰ m (edges tied_processes) → (m.target ≡ 0) ⊎ (m.target ≡ 1)
led_to m k = listed (subst (Memᴰ m) two_edges k)
  where
    listed : {m : Link (Edge BitFun)} → Memᴰ m (down ∷ up ∷ []) → (m.target ≡ 0) ⊎ (m.target ≡ 1)
    listed (Memᴰ.head e) = inr (ap (λ x. x.target) e)
    listed (Memᴰ.tail (Memᴰ.head e)) = inl (ap (λ x. x.target) e)
    listed (Memᴰ.tail (Memᴰ.tail n)) = elim n [ ]

from_first : IsBreadthFirst tied_processes 0 (edge_search tied_processes 0)
from_first =
    one_edge-IsBreadthFirst tied_processes down is_down (λ e. absurd (omega (arith, e)))
      (λ m k. elim (led_to m k) [ inl e ↦ inl (sym e) | inr e ↦ inr (sym e) ])

from_second : IsBreadthFirst tied_processes 1 (edge_search tied_processes 1)
from_second =
    one_edge-IsBreadthFirst tied_processes up is_up (λ e. absurd (omega (arith, e)))
      (λ m k. elim (led_to m k) [ inl e ↦ inr (sym e) | inr e ↦ inl (sym e) ])

there : Walk tied_processes 0 1 1
there = step down start is_down

back : Walk tied_processes 1 1 0
back = step up start is_up

bfs_hops-symmetric_example :
    (bfs_hops edge_search tied_processes 0 1 ≡ bfs_hops edge_search tied_processes 1 0)
    × IsShortest tied_processes 0 1 (bfs_hops edge_search tied_processes 0 1)
bfs_hops-symmetric_example =
    bfs_hops-symmetric edge_search tied_processes 0 1 making from_first from_second there

zero_or_one : (v : ℕ) → v < 2 → (v ≡ 0) ⊎ (v ≡ 1)
zero_or_one zero l = inl refl
zero_or_one (suc zero) l = inr refl
zero_or_one (suc (suc v)) l = absurd (omega arith)

number_of : (v : ℕ) → Is tied_processes mpi_process v → (v ≡ 0) ⊎ (v ≡ 1)
number_of v h = zero_or_one v (omega (arith, h.in_range, tied_count))

from_each :
    (v : ℕ)
    → Is tied_processes mpi_process v
    → IsBreadthFirst tied_processes v (edge_search tied_processes v)
from_each v h = elim (number_of v h) [
  | inl e ↦
      subst (λ x. IsBreadthFirst tied_processes x (edge_search tied_processes x)) (sym e) from_first
  | inr e ↦
      subst (λ x. IsBreadthFirst tied_processes x (edge_search tied_processes x)) (sym e)
        from_second
]

between :
    (v w : ℕ)
    → Is tied_processes mpi_process v
    → Is tied_processes mpi_process w
    → (k : ℕ) × Walk tied_processes v k w
between v w h k = elim (number_of v h) [
  | inl e ↦ elim (number_of w k) [
    | inl f ↦ walk_of (sym e) (sym f) start
    | inr f ↦ walk_of (sym e) (sym f) there
  ]
  | inr e ↦ elim (number_of w k) [
    | inl f ↦ walk_of (sym e) (sym f) back
    | inr f ↦ walk_of (sym e) (sym f) start
  ]
]
  where
    walk_of :
        {k u x v w : ℕ}
        → u ≡ v
        → x ≡ w
        → Walk tied_processes u k x
        → (k : ℕ) × Walk tied_processes v k w
    walk_of {k} {u} {x} {v} e f t =
        (k, subst (λ y. Walk tied_processes v k y) f (subst (λ y. Walk tied_processes y k x) e t))

mpi_distances-outcome_example :
    ((rank : ℕ) → mpi_distances list_filtered edge_search (suc rank) tied_processes ≡ ok [])
    × ((((v : ℕ) × Is tied_processes mpi_process v × (rank_at tied_processes v ≡ fault))
          × (mpi_distances list_filtered edge_search 0 tied_processes ≡ fault))
        ⊎ ((blocks : List (ℕ × List (ℕ × ℕ))) × (mpi_distances list_filtered edge_search 0
                tied_processes
              ≡ ok blocks)
            × IsDistanceTable tied_processes blocks))
mpi_distances-outcome_example =
    mpi_distances-outcome tied_processes list_filtered edge_search making from_each between
