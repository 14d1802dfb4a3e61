-- ===== src/Query/Distance.antt =====
-- Shortest walks, and the hops of bfs_distance_vector (src/include/yloc/query.h) as their lengths.
use yloc.Prelude.{ℕ, suc, ◌≤◌, ◌≡◌, inl, inr, sym, subst, arith, List, Memᴰ}
use yloc.External.AdjacencyList.{Link}
use yloc.GraphElement.{Edge}
use yloc.Graph.{BoostGraph, Graph, edges}
use yloc.Query.{bfs_hops}
use yloc.Query.Shortest.{Walk, start, step, IsBreadthFirst, bfs_hops-shortest}

module _ {Mask : Type 0} {boost : BoostGraph Mask} where
  -- A walk of `k` edges leads from `s` to `v`, and none of fewer.
  pub record IsShortest (g : Graph boost) (s v k : ℕ) : Type 0 where
    pub walk : Walk g s k v
    pub at_most : (j : ℕ) → Walk g s j v → k ≤ j

  pub IsShortest-unique :
      {g : Graph boost} {s v j k : ℕ} → IsShortest g s v j → IsShortest g s v k → j ≡ k
  IsShortest-unique {j} {k} a b =
      let one_way = a.at_most k b.walk in let other_way = b.at_most j a.walk in omega arith

  -- A vertex that can be reached has the length of a shortest walk as its hops.
  pub bfs_hops-IsShortest :
      (breadth_first_search : Graph boost → ℕ → List (Link (Edge Mask))) (g : Graph boost) (s v : ℕ)
      {k : ℕ}
      → IsBreadthFirst g s (breadth_first_search g s)
      → Walk g s k v
      → IsShortest g s v (bfs_hops breadth_first_search g s v)
  bfs_hops-IsShortest search g s v {k} b w = elim (bfs_hops-shortest search g s v b) [
    | inl (walk, at_most) ↦ record { walk = walk; at_most = at_most }
    | inr (none_at_all, _) ↦ absurd (none_at_all (k, w))
  ]

  -- Every edge has an edge that leads back.
  pub record IsTwoWay (g : Graph boost) : Type 0 where
    pub back :
        (l : Link (Edge Mask))
        → Memᴰ l (edges g)
        → (m : Link (Edge Mask)) × Memᴰ m (edges g) × (m.source ≡ l.target) × (m.target ≡ l.source)

  module _ (g : Graph boost) (two_way : IsTwoWay g) where
    -- A walk after an edge.
    step_first :
        (l : Link (Edge Mask))
        → Memᴰ l (edges g)
        → {k v : ℕ} → Walk g l.target k v
        → Walk g l.source (suc k) v
    step_first l m start = step l start m
    step_first l m (step n w h) = step n (step_first l m w) h

    pub Walk-back : {s k v : ℕ} → Walk g s k v → Walk g v k s
    Walk-back start = start
    Walk-back {s} (step {k} l w m) =
        let (n, h, from, to) = two_way.back l m in
        let reversed : Walk g n.target k s = subst (λ x. Walk g x k s) (sym to) (Walk-back w) in
        subst (λ x. Walk g x (suc k) s) from (step_first n h reversed)

    pub IsShortest-back : {u v k : ℕ} → IsShortest g u v k → IsShortest g v u k
    IsShortest-back h = record {
      walk = Walk-back h.walk;
      at_most = λ j w. h.at_most j (Walk-back w);
    }
