-- ===== src/Query/Symmetric.antt =====
-- The hops of bfs_distance_vector (src/include/yloc/query.h) between two vertices do not depend on which
-- of them the search starts from.
use mathlib.Core.List.Memᴰ as MemD
use yloc.Prelude.{ℕ, ◌≡◌, refl, sym, ap, subst, inl, inr, List, [], ◌∷◌, ◌++◌, Memᴰ}
use yloc.External.AdjacencyList.{Link}
use yloc.GraphElement.{Edge, EdgeType, parent, child, gpu_interconnect, new_element}
use yloc.Graph.{
  BoostGraph, Graph, new_graph, edges, set_vertex, set_root_vertex, add_child, add_gpu_link,
  add_unnamed_vertex,
}
use yloc.Graph.Changes.{
  Change, unnamed, named, written, rooted, tied, interconnected, Changes, unchanged, changed, link,
  edges-pair,
}
use yloc.Graph.Pairing.{edges-add_vertex}
use yloc.Query.{bfs_hops}
use yloc.Query.Shortest.{Walk, IsBreadthFirst}
use yloc.Query.Distance.{
  IsTwoWay, Walk-back, IsShortest, IsShortest-back, IsShortest-unique, bfs_hops-IsShortest,
}

-- Every edge of a list has one that leads back.
abbrev HasBacks : {E : Type 0} → List (Link E) → Type 0
HasBacks {E} es =
    (l : Link E)
    → Memᴰ l es
    → (m : Link E) × Memᴰ m es × (m.source ≡ l.target) × (m.target ≡ l.source)

module _ {Mask : Type 0} where
  pair-HasBacks :
      (u v : ℕ) (s t : EdgeType) (es : List (Link (Edge Mask)))
      → HasBacks es
      → HasBacks (es ++ link u v s ∷ link v u t ∷ [])
  pair-HasBacks u v s t es h l m =
      let added = link u v s ∷ link v u t ∷ [] in
      elim (MemD.append_cases es m) [
        | inl old ↦ let (n, k, from, to) = h l old in (n, MemD.append_left added k, from, to)
        | inr new ↦ elim (MemD.cases_cons new) [
          | inl e ↦ (
            link v u t,
            MemD.append_right es (Memᴰ.tail (Memᴰ.head refl)),
            ap (λ x. x.target) (sym e),
            ap (λ x. x.source) (sym e),
          )
          | inr other ↦
              let e = MemD.eq_of_singleton other in
              (
                link u v s,
                MemD.append_right es (Memᴰ.head refl),
                ap (λ x. x.target) (sym e),
                ap (λ x. x.source) (sym e),
              )
        ]
      ]

module _ {Mask : Type 0} {boost : BoostGraph Mask} where
  Change-HasBacks : {g h : Graph boost} → Change g h → HasBacks (edges g) → HasBacks (edges h)
  unfolding set_vertex set_root_vertex add_child add_gpu_link add_unnamed_vertex
  Change-HasBacks (unnamed g) b = rw (boost.edges-add_vertex new_element g.repr) b
  Change-HasBacks (named g id) b = rw (edges-add_vertex g id) b
  Change-HasBacks (written g v x h) b = rw (boost.edges-set_vertex g.repr v x) b
  Change-HasBacks (rooted g v h) b = b
  Change-HasBacks (tied g u v hu hv) b =
      rw (edges-pair g u v child parent hu hv) (pair-HasBacks u v child parent (edges g) b)
  Change-HasBacks (interconnected g u v hu hv) b =
      rw (edges-pair g u v gpu_interconnect gpu_interconnect hu hv)
        (pair-HasBacks u v gpu_interconnect gpu_interconnect (edges g) b)

  Changes-HasBacks : {g : Graph boost} → Changes (new_graph boost) g → HasBacks (edges g)
  Changes-HasBacks unchanged = λ l m. elim (subst (Memᴰ l) boost.edges-empty m) [ ]
  Changes-HasBacks (changed c s) = Change-HasBacks s (Changes-HasBacks c)

  -- Modules tie vertices both ways, whatever the order of their changes.
  pub Changes-IsTwoWay : {g : Graph boost} → Changes (new_graph boost) g → IsTwoWay g
  Changes-IsTwoWay c = record { back = Changes-HasBacks c }

  module _ (breadth_first_search : Graph boost → ℕ → List (Link (Edge Mask))) where
    -- In a graph that was made by module changes from the empty one, two vertices with a walk between
    -- them are as many hops apart for a search from the one as for a search from the other, if boost's
    -- searches are breadth first: as many as a shortest walk has edges.
    pub bfs_hops-symmetric :
        (g : Graph boost) (u v : ℕ) {k : ℕ}
        → Changes (new_graph boost) g
        → IsBreadthFirst g u (breadth_first_search g u)
        → IsBreadthFirst g v (breadth_first_search g v)
        → Walk g u k v
        → (bfs_hops breadth_first_search g u v ≡ bfs_hops breadth_first_search g v u)
          × IsShortest g u v (bfs_hops breadth_first_search g u v)
    bfs_hops-symmetric g u v c b b' w =
        let two_way = Changes-IsTwoWay c in
        let there = bfs_hops-IsShortest breadth_first_search g u v b w in
        let back = bfs_hops-IsShortest breadth_first_search g v u b' (Walk-back g two_way w) in
        (IsShortest-unique there (IsShortest-back g two_way back), there)
