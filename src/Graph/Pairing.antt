-- ===== src/Graph/Pairing.antt =====
-- Module changes keep the edges of the topology graph in pairs (src/include/yloc/graph.h).
use yloc.Prelude.{
  ℕ, ◌≡◌, refl, ◌∙◌, Option, none, some, Text, find_key, arith, List, [], ◌∷◌, ◌++◌, count,
  count-append, false,
}
use yloc.External.AdjacencyList.{Link}
use yloc.GraphElement.{Edge, EdgeType, new_element, parent, child, gpu_interconnect}
use yloc.Graph.{
  BoostGraph, Graph, new_graph, edges, set_vertex, add_vertex_by, add_vertex, add_unnamed_vertex,
  set_root_vertex, add_child, add_gpu_link, is_link, edge_type_eq,
}
use yloc.Graph.Changes.{
  Change, unnamed, named, written, rooted, tied, interconnected, Changes, unchanged, changed, link,
  edges-pair,
}

module _ {Mask : Type 0} where
  pair-IsPaired :
      (es : List (Link (Edge Mask))) (u v x y : ℕ)
      → count (is_link child x y) es ≡ count (is_link parent y x) es
      → count (is_link child x y) (es ++ link u v child ∷ link v u parent ∷ [])
        ≡ count (is_link parent y x) (es ++ link u v child ∷ link v u parent ∷ [])
  pair-IsPaired es u v x y h =
      let added : List (Link (Edge Mask)) = link u v child ∷ link v u parent ∷ [] in
      ground (
        arith,
        count-append (is_link child x y) es added,
        count-append (is_link parent y x) es added,
      )

  interconnect-IsPaired :
      (es : List (Link (Edge Mask))) (u v x y : ℕ)
      → count (is_link gpu_interconnect x y) es ≡ count (is_link gpu_interconnect y x) es
      → count
          (is_link gpu_interconnect x y)
          (es ++ link u v gpu_interconnect ∷ link v u gpu_interconnect ∷ [])
        ≡ count
            (is_link gpu_interconnect y x)
            (es ++ link u v gpu_interconnect ∷ link v u gpu_interconnect ∷ [])
  interconnect-IsPaired es u v x y h =
      let added : List (Link (Edge Mask)) =
        link u v gpu_interconnect ∷ link v u gpu_interconnect ∷ [] in
      ground (
        arith,
        count-append (is_link gpu_interconnect x y) es added,
        count-append (is_link gpu_interconnect y x) es added,
      )

  -- Edges of other kinds do not change the count.
  other_kind :
      (t s : EdgeType) (es : List (Link (Edge Mask))) (u v x y : ℕ) (s' : EdgeType)
      → edge_type_eq s t ≡ false
      → edge_type_eq s' t ≡ false
      → count (is_link t x y) (es ++ link u v s ∷ link v u s' ∷ []) ≡ count (is_link t x y) es
  other_kind t s es u v x y s' h h' =
      count-append (is_link t x y) es (link u v s ∷ link v u s' ∷ []) ∙ rw (h, h') (omega arith)

module _ {Mask : Type 0} {boost : BoostGraph Mask} where
  -- Between two vertices there are as many edges of a kind down as edges of the other kind back.
  pub record IsPaired (g : Graph boost) : Type 0 where
    pub children :
        (u v : ℕ) → count (is_link child u v) (edges g) ≡ count (is_link parent v u) (edges g)
    pub interconnects :
        (u v : ℕ)
        → count (is_link gpu_interconnect u v) (edges g)
          ≡ count (is_link gpu_interconnect v u) (edges g)

  IsPaired-of_edges : (g h : Graph boost) → edges h ≡ edges g → IsPaired g → IsPaired h
  IsPaired-of_edges g h e p = record {
    children = λ u v. rw e (p.children u v);
    interconnects = λ u v. rw e (p.interconnects u v);
  }

  edges-add_vertex_by :
      (g : Graph boost) (id : Text) (o : Option ℕ) → edges (add_vertex_by o id g).0 ≡ edges g
  unfolding add_vertex_by
  edges-add_vertex_by g id (some v) = refl
  edges-add_vertex_by g id none = boost.edges-add_vertex new_element g.repr

  pub edges-add_vertex : (g : Graph boost) (id : Text) → edges (add_vertex id g).0 ≡ edges g
  unfolding add_vertex
  edges-add_vertex g id = edges-add_vertex_by g id (find_key id g.m_identifier_map)

  Change-IsPaired : {g h : Graph boost} → Change g h → IsPaired g → IsPaired h
  unfolding set_vertex set_root_vertex add_child add_gpu_link add_unnamed_vertex
  Change-IsPaired (unnamed g) p =
      IsPaired-of_edges g (add_unnamed_vertex g).0 (boost.edges-add_vertex new_element g.repr) p
  Change-IsPaired (named g id) p = IsPaired-of_edges g (add_vertex id g).0 (edges-add_vertex g id) p
  Change-IsPaired (written g v x h) p =
      IsPaired-of_edges g (set_vertex g v x) (boost.edges-set_vertex g.repr v x) p
  Change-IsPaired (rooted g v h) p = IsPaired-of_edges g (set_root_vertex g v) refl p
  Change-IsPaired (tied g u v hu hv) p = record {
    children = λ x y.
        rw (edges-pair g u v child parent hu hv) (pair-IsPaired (edges g) u v x y (p.children x y));
    interconnects = λ x y.
        rw
          (
            edges-pair g u v child parent hu hv,
            other_kind gpu_interconnect child (edges g) u v x y parent refl refl,
            other_kind gpu_interconnect child (edges g) u v y x parent refl refl,
          )
          (p.interconnects x y);
  }
  Change-IsPaired (interconnected g u v hu hv) p = record {
    children = λ x y.
        rw
          (
            edges-pair g u v gpu_interconnect gpu_interconnect hu hv,
            other_kind child gpu_interconnect (edges g) u v x y gpu_interconnect refl refl,
            other_kind parent gpu_interconnect (edges g) u v y x gpu_interconnect refl refl,
          )
          (p.children x y);
    interconnects = λ x y.
        rw (edges-pair g u v gpu_interconnect gpu_interconnect hu hv)
          (interconnect-IsPaired (edges g) u v x y (p.interconnects x y));
  }

  pub new_graph-IsPaired : IsPaired (new_graph boost)
  new_graph-IsPaired = record {
    children = λ u v. rw boost.edges-empty;
    interconnects = λ u v. rw boost.edges-empty;
  }

  -- Every sequence of module changes, which add edges two at once and no single ones, keeps the edges in
  -- pairs: as many child edges from a vertex to another
  -- as parent edges back, and as many GPU interconnects one way as the other.
  pub Changes-IsPaired : {g h : Graph boost} → Changes g h → IsPaired g → IsPaired h
  Changes-IsPaired unchanged p = p
  Changes-IsPaired (changed c s) p = Change-IsPaired s (Changes-IsPaired c p)
