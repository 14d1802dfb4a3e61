-- ===== src/Query/Tree.antt =====
-- The values that bfs_tree_edge_visitor (src/include/yloc/query.h) leaves for the edges of a search tree.
use yloc.Prelude.{
  ℕ, zero, suc, ◌<◌, ◌≤◌, ◌≡◌, ◌≢◌, refl, sym, ap, ◌∙◌, List, [], ◌∷◌, some, of_some, get_elem?,
  Bool-cases, inl, inr, ◌==◌, ==_iff, arith,
}
use yloc.External.AdjacencyList.{Link}
use yloc.Query.{put, tree_edge, visit}

module _ {T : Type 0} (d : ℕ → T) (v : ℕ) (x : T) where
  put_self : put d v x v ≡ x
  put_self = rw ((==_iff v v).1 refl) refl

  put_other : (w : ℕ) → v ≢ w → put d v x w ≡ d w
  put_other w h = elim (Bool-cases (v == w)) [
    | inl e ↦ absurd (h ((==_iff v w).0 e))
    | inr e ↦ rw e refl
  ]

module _ {E T : Type 0} (on_tree_edge : Link E → T → T) where
  -- A vertex that no edge of the search leads to keeps its value.
  pub visit_kept :
      (es : List (Link E)) (d : ℕ → T) (v : ℕ)
      → ((i : ℕ) (l : Link E) → get_elem? es i ≡ some l → l.target ≢ v)
      → visit on_tree_edge d es v ≡ d v
  unfolding visit tree_edge
  visit_kept [] d v h = refl
  visit_kept (e ∷ es) d v h =
      visit_kept es (tree_edge on_tree_edge d e) v (λ i l k. h (suc i) l k)
      ∙ put_other d e.target (on_tree_edge e (d e.source)) v (h 0 e refl)

  -- The value of the end of a tree edge is computed from the value of its start, where no later edge
  -- leads to either.
  pub visit_tree :
      (es : List (Link E)) (d : ℕ → T) (i : ℕ) (l : Link E)
      → get_elem? es i ≡ some l
      → ((j : ℕ) (m : Link E) → get_elem? es j ≡ some m → i < j → m.target ≢ l.target)
      → ((j : ℕ) (m : Link E) → get_elem? es j ≡ some m → i ≤ j → m.target ≢ l.source)
      → visit on_tree_edge d es l.target ≡ on_tree_edge l (visit on_tree_edge d es l.source)
  unfolding visit tree_edge
  visit_tree [] d i l e h k = cc e
  visit_tree (m ∷ es) d zero l e h k =
      let same : m ≡ l = of_some e in
      let next = tree_edge on_tree_edge d m in
      visit_kept es next l.target (λ i n f. h (suc i) n f (omega arith))
      ∙ ap (λ x. tree_edge on_tree_edge d x l.target) same
      ∙ put_self d l.target (on_tree_edge l (d l.source))
      ∙ ap (on_tree_edge l) (
          sym (
            visit_kept es next l.source (λ i n f. k (suc i) n f (omega arith))
            ∙ put_other d m.target (on_tree_edge m (d m.source)) l.source
                (k 0 m refl (omega arith))))
  visit_tree (m ∷ es) d (suc i) l e h k =
      visit_tree es (tree_edge on_tree_edge d m) i l e
        (λ j n f less. h (suc j) n f (omega (arith, less)))
        (λ j n f less. k (suc j) n f (omega (arith, less)))
