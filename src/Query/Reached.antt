-- ===== src/Query/Reached.antt =====
-- Graphs in which every vertex can be reached from one vertex, so that the searches of
-- src/include/yloc/query.h from there discover all.
use mathlib.Core.List.Memᴰ as MemD
use yloc.Prelude.{
  ℕ, suc, ◌<◌, ◌≤◌, ◌≡◌, refl, subst, [], ◌∷◌, ◌++◌, Memᴰ, Bool-cases, inl, inr, arith, ltb,
}
use yloc.External.AdjacencyList.{Link}
use yloc.GraphElement.{Edge, parent, child}
use yloc.Graph.{BoostGraph, Graph, num_vertices, edges}
use yloc.Graph.Changes.{link}
use yloc.Query.Shortest.{Walk, start, step}
use yloc.Query.Distance.{IsTwoWay, Walk-back}

module _ {Mask : Type 0} {boost : BoostGraph Mask} where
  abbrev pub AllReached : Graph boost → ℕ → Type 0
  AllReached g s = (v : ℕ) → v < num_vertices g → (k : ℕ) × Walk g s k v

  Walk-more :
      {g h : Graph boost} {s k v : ℕ}
      → ((l : Link (Edge Mask)) → Memᴰ l (edges g) → Memᴰ l (edges h))
      → Walk g s k v
      → Walk h s k v
  Walk-more more start = start
  Walk-more more (step l w m) = step l (Walk-more more w) (more l m)

  Walk-join :
      {g : Graph boost} {u v w i j : ℕ} → Walk g u i v → Walk g v j w → (k : ℕ) × Walk g u k w
  Walk-join {i = i} a start = (i, a)
  Walk-join a (step l b m) = let (k, c) = Walk-join a b in (suc k, step l c m)

  -- A new vertex that is tied to one of the graph is reached as well.
  pub tied-AllReached :
      (g h : Graph boost) (s u c : ℕ)
      → u < num_vertices g
      → c ≡ num_vertices g
      → num_vertices h ≤ suc (num_vertices g)
      → edges h ≡ edges g ++ link u c child ∷ link c u parent ∷ []
      → AllReached g s
      → AllReached h s
  tied-AllReached g h s u c hu at_end size e all v l =
      let pair = link u c child ∷ link c u parent ∷ [] in
      let old : (x : ℕ) → x < num_vertices g → (k : ℕ) × Walk h s k x =
        (λ x m. let (k, w) = all x m in (k, Walk-more (λ a i. rw e (MemD.append_left pair i)) w)) in
      elim (Bool-cases (ltb v (num_vertices g))) [
        | inl near ↦ old v (ground arith)
        | inr far ↦
            let same : c ≡ v = ground arith in
            let (k, w) = old u hu in
            (
              suc k,
              subst (Walk h s (suc k)) same
                  (step (link u c child) w (rw e (MemD.append_right (edges g) (Memᴰ.head refl)))),
            )
      ]

  -- Where edges lead both ways, any two vertices are connected.
  pub AllReached-connected :
      (g : Graph boost) (s u v : ℕ)
      → IsTwoWay g
      → AllReached g s
      → u < num_vertices g
      → v < num_vertices g
      → (k : ℕ) × Walk g u k v
  AllReached-connected g s u v two_way all hu hv =
      let (i, there) = all u hu in
      let (j, on) = all v hv in Walk-join (Walk-back g two_way there) on
