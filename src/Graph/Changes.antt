-- ===== src/Graph/Changes.antt =====
-- The changes that modules make to the topology graph (src/include/yloc/graph.h), as a step relation.
use mathlib.Core.List.{append_assoc}
use yloc.Prelude.{ℕ, ◌<◌, ◌≡◌, ap, ◌∙◌, Text, arith, All-append, [], ◌∷◌, ◌++◌}
use yloc.External.AdjacencyList.{Link}
use yloc.GraphElement.{Edge, Vertex, EdgeType, new_edge, parent, child}
use yloc.Graph.{
  BoostGraph, Graph, num_vertices, edges, set_vertex, add_vertex, add_unnamed_vertex,
  set_root_vertex, add_edge, add_child, add_gpu_link,
}
use yloc.Graph.WellFormed.{IsWellFormed}

abbrev pub link : {Mask : Type 0} → ℕ → ℕ → EdgeType → Link (Edge Mask)
link u v t = record { source = u; target = v; property = new_edge t }

module _ {Mask : Type 0} {boost : BoostGraph Mask} where
  -- A module change: a new vertex, with or without an identifier; new contents of a vertex; another
  -- root vertex; or two edges at once between vertices of the graph, as child and parent or as a GPU
  -- interconnect. Modules use nothing else of src/include/yloc/graph.h: operator[](id), which enters
  -- an identifier that is missing, and a single edge are no module changes.
  pub data Change : Graph boost → Graph boost → Type 0 where
    unnamed : (g : Graph boost) → Change g (add_unnamed_vertex g).0
    named : (g : Graph boost) (id : Text) → Change g (add_vertex id g).0
    written :
        (g : Graph boost) (v : ℕ) (x : Vertex Mask)
        → v < num_vertices g
        → Change g (set_vertex g v x)
    rooted : (g : Graph boost) (v : ℕ) → v < num_vertices g → Change g (set_root_vertex g v)
    tied :
        (g : Graph boost) (u v : ℕ)
        → u < num_vertices g
        → v < num_vertices g
        → Change g (add_child u v g)
    interconnected :
        (g : Graph boost) (u v : ℕ)
        → u < num_vertices g
        → v < num_vertices g
        → Change g (add_gpu_link u v g)

  -- Any number of changes, one after the other.
  pub data Changes (g : Graph boost) : Graph boost → Type 0 where
    unchanged : Changes g g
    changed : {h k : Graph boost} → Changes g h → Change h k → Changes g k

  pub Changes-trans : {g h k : Graph boost} → Changes g h → Changes h k → Changes g k
  Changes-trans c unchanged = c
  Changes-trans c (changed d s) = changed (Changes-trans c d) s

  pub one_change : {g h : Graph boost} → Change g h → Changes g h
  one_change s = changed unchanged s

  num-add_edge :
      (g : Graph boost) (u v : ℕ) (t : EdgeType)
      → u < num_vertices g
      → v < num_vertices g
      → num_vertices (add_edge u v t g) ≡ num_vertices g
  unfolding add_edge
  num-add_edge g u v t hu hv = boost.num-add_edge u v (new_edge t) g.repr hu hv

  edges-add_edge :
      (g : Graph boost) (u v : ℕ) (t : EdgeType)
      → u < num_vertices g
      → v < num_vertices g
      → edges (add_edge u v t g) ≡ edges g ++ link u v t ∷ []
  unfolding add_edge
  edges-add_edge g u v t hu hv = boost.edges-add_edge u v (new_edge t) g.repr hu hv

  -- Two edges, there and back.
  module _ (g : Graph boost) (u v : ℕ) (s t : EdgeType) (hu : u < num_vertices g)
      (hv : v < num_vertices g) where
    abbrev pub pair : Graph boost
    pair = add_edge v u t (add_edge u v s g)

    pub num-pair : num_vertices pair ≡ num_vertices g
    num-pair =
        let n = num-add_edge g u v s hu hv in
        num-add_edge (add_edge u v s g) v u t (omega arith) (omega arith) ∙ n

    pub edges-pair : edges pair ≡ edges g ++ link u v s ∷ link v u t ∷ []
    edges-pair =
        let n = num-add_edge g u v s hu hv in
        edges-add_edge (add_edge u v s g) v u t (omega arith) (omega arith)
        ∙ ap (λ es. es ++ link v u t ∷ []) (edges-add_edge g u v s hu hv)
        ∙ append_assoc (edges g) (link u v s ∷ []) (link v u t ∷ [])

    pub pair-IsWellFormed : IsWellFormed g → IsWellFormed pair
    unfolding add_edge
    pair-IsWellFormed w = record {
      ids_in_range = λ id x e. rw num-pair (w.ids_in_range id x e);
      ids_distinct = w.ids_distinct;
      ends_in_range =
          rw (edges-pair, num-pair)
            (All-append _ (edges g) _ w.ends_in_range ((hu, hv), ((hv, hu), tt)));
      root_in_range = rw num-pair w.root_in_range;
    }

  pub edges-add_child :
      (g : Graph boost) (u v : ℕ)
      → u < num_vertices g
      → v < num_vertices g
      → edges (add_child u v g) ≡ edges g ++ link u v child ∷ link v u parent ∷ []
  unfolding add_child
  edges-add_child g u v hu hv = unfold add_edge in edges-pair g u v child parent hu hv
