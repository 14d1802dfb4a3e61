-- ===== src/Search/Lowest.antt =====
-- What lowest_containing_vertex of src/util.cc finds, and when it ends.
use yloc.Prelude.{
  of_ok, ℕ, zero, suc, ◌<◌, ◌≤◌, ◌≡◌, refl, sym, ap, ◌∙◌, ◌↔◌, ◌==◌, ==_iff, List, [], ◌∷◌, Bool,
  true, false, ◌&&◌, not, Option, some, ok, keep, any, any-Memᴰ, any-true_of_Memᴰ, keep_iff,
  map_iff, Memᴰ, Option-cases, inl, inr, arith, subst,
}
use yloc.Prelude.Sorting.{Sorting, first_least, sort-some}
use yloc.ComponentTypes.{mpi_process}
use yloc.GraphElement
use yloc.GraphElement.{Vertex, child, Edge}
use yloc.Graph.{BoostGraph, Graph, vertex_at, edges, is_link, edge_type_eq}
use yloc.External.Bitset.{Bitset}
use yloc.External.AdjacencyList.{Link}
use yloc.Affinity.{is_containing}
use yloc.Search.{mask_at, child_targets, qualifies_by, qualifies, candidates, count_at, lowest}

pub both : (a b : Bool) → (a && b) ≡ true → (a ≡ true) × (b ≡ true)
both true b e = (refl, e)
both false b e = cc e

not-true : (b : Bool) → not b ≡ true → b ≡ false
not-true true e = cc e
not-true false e = refl

module _ (bits : Bitset) (boost : BoostGraph bits.Bits) (mask : bits.Bits) (g : Graph boost) where
  -- A child edge leads from `v` to `t`.
  abbrev IsChild : ℕ → ℕ → Type 0
  IsChild v t = any (is_link child v t) (edges g) ≡ true

  child_targets_iff : (v t : ℕ) → Memᴰ t (child_targets bits boost g v) ↔ IsChild v t
  unfolding child_targets
  child_targets_iff v t =
      let tail_is = λ (l : Link (Edge bits.Bits)). l.source == v in
      let is_down = λ (l : Link (Edge bits.Bits)). edge_type_eq l.property.m_edgetype child in
      let out : boost.out_edges g.repr v ≡ keep tail_is (edges g) = boost.out_edges_lem g.repr v in
      (
        λ m.
            let (l, k, e) =
              (map_iff (λ l. l.target) t (keep is_down (boost.out_edges g.repr v))).0 m in
            let (k1, d) = (keep_iff is_down l (boost.out_edges g.repr v)).0 k in
            let (k2, s) = (keep_iff tail_is l (edges g)).0 (subst (Memᴰ l) out k1) in
            any-true_of_Memᴰ (is_link child v t) k2 (rw (d, s) ((==_iff l.target t).1 e)),
        λ h.
            let (l, k, e) = any-Memᴰ (is_link child v t) (edges g) h in
            let (d, e') = both (is_down l) (l.source == v && l.target == t) e in
            let (s, f) = both (l.source == v) (l.target == t) e' in
            (map_iff (λ l. l.target) t (keep is_down (boost.out_edges g.repr v))).1 (
              l,
              (keep_iff is_down l (boost.out_edges g.repr v)).1
                  (subst (Memᴰ l) (sym out) ((keep_iff tail_is l (edges g)).1 (k, s)), d),
              (==_iff l.target t).0 f,
            ),
      )

  -- A component below `v` that contains the mask and is not a process.
  pub record IsBelow (v t : ℕ) : Type 0 where
    pub child_edge : any (is_link child v t) (edges g) ≡ true
    pub covers :
        (m : bits.Bits) × (mask_at bits boost g t ≡ ok (some m))
        × (is_containing bits m mask ≡ true)
    pub no_process : GraphElement.is_a (vertex_at g t) mpi_process ≡ false

  -- The way down from a vertex to the lowest one: each step takes a qualifying child with the fewest
  -- processors, and the last vertex has none.
  pub data Lowest : ℕ → ℕ → Type 0 where
    settled : (v : ℕ) → ((t : ℕ) → ¬ IsBelow v t) → Lowest v v
    down :
        {v t r : ℕ}
        → IsBelow v t
        → ((x : ℕ) → IsBelow v x → count_at bits boost g t ≤ count_at bits boost g x)
        → Lowest t r
        → Lowest v r

  module _ (reading : ℕ → Option bits.Bits)
      (readable : (v t : ℕ) → IsChild v t → mask_at bits boost g t ≡ ok (reading t)) where
    passes : ℕ → Bool
    passes t = qualifies_by bits boost mask (vertex_at g t) (reading t)

    candidates-keep :
        (ts : List ℕ)
        → ((t : ℕ) → Memᴰ t ts → mask_at bits boost g t ≡ ok (reading t))
        → candidates bits boost mask g ts ≡ ok (keep passes ts)
    unfolding candidates qualifies passes
    candidates-keep [] h = refl
    candidates-keep (t ∷ ts) h =
        rw (candidates, h t (Memᴰ.head refl), candidates-keep ts (λ u m. h u (Memᴰ.tail m))) refl

    child_reading :
        (v t : ℕ) → Memᴰ t (child_targets bits boost g v) → mask_at bits boost g t ≡ ok (reading t)
    child_reading v t m = readable v t ((child_targets_iff v t).0 m)

    passes_iff :
        (t : ℕ)
        → mask_at bits boost g t ≡ ok (reading t)
        → (passes t ≡ true) ↔ (
            ((m : bits.Bits) × (mask_at bits boost g t ≡ ok (some m))
              × (is_containing bits m mask ≡ true))
            × (GraphElement.is_a (vertex_at g t) mpi_process ≡ false))
    unfolding passes qualifies_by
    passes_iff t there =
        let proc = GraphElement.is_a (vertex_at g t) mpi_process in
        (
          λ p. elim (Option-cases (reading t)) [
            | inl e ↦ cc (sym (ap (qualifies_by bits boost mask (vertex_at g t)) e) ∙ p)
            | inr (m, e) ↦
                let (c, n) =
                  both (is_containing bits m mask) (not proc)
                    (sym (ap (qualifies_by bits boost mask (vertex_at g t)) e) ∙ p) in
                ((m, there ∙ ap (λ o. ok o) e, c), not-true proc n)
          ],
          λ ((m, e, c), n).
              ap (qualifies_by bits boost mask (vertex_at g t)) (of_ok (sym there ∙ e))
              ∙ rw (c, n) refl,
        )

    found_iff : (v t : ℕ) → Memᴰ t (keep passes (child_targets bits boost g v)) ↔ IsBelow v t
    found_iff v t = (
      λ m.
          let (k, p) = (keep_iff passes t (child_targets bits boost g v)).0 m in
          let (c, n) = (passes_iff t (child_reading v t k)).0 p in
          record { child_edge = (child_targets_iff v t).0 k; covers = c; no_process = n },
      λ b. (keep_iff passes t (child_targets bits boost g v)).1 (
        (child_targets_iff v t).1 b.child_edge,
        (passes_iff t (readable v t b.child_edge)).1 (b.covers, b.no_process),
      ),
    )

    -- Where every vertex below another can be asked for its mask without a fault, and a number goes
    -- down along each child edge, the search ends: on more fuel than the number of the vertex it
    -- returns a vertex that is reached by steps to a qualifying child with the fewest processors, and
    -- that has no qualifying child itself.
    pub lowest-Lowest :
        (sorting : Sorting ℕ) (depth : ℕ → ℕ)
        → ((v t : ℕ) → IsChild v t → depth t < depth v)
        → (n v : ℕ) → depth v < n
        → (r : ℕ) × (lowest bits boost sorting mask g n v ≡ some (ok r)) × Lowest v r
    unfolding lowest
    lowest-Lowest sorting depth lower zero v l = absurd (omega (arith, l))
    lowest-Lowest sorting depth lower (suc n) v l =
        by_candidates (keep passes (child_targets bits boost g v))
          (λ best k. lowest-Lowest sorting depth lower n best k) refl
      where
        by_candidates :
            (ts : List ℕ)
            → ((best : ℕ)
                → depth best < n
                → (r : ℕ) × (lowest bits boost sorting mask g n best ≡ some (ok r)) × Lowest best r)
            → keep passes (child_targets bits boost g v) ≡ ts
            → (r : ℕ) × (lowest bits boost sorting mask g (suc n) v ≡ some (ok r)) × Lowest v r
        by_candidates [] go e = (
          v,
          rw (lowest, candidates-keep (child_targets bits boost g v) (child_reading v), e) refl,
          settled v (λ t b. elim (subst (Memᴰ t) e ((found_iff v t).1 b)) [ ]),
        )
        by_candidates (t ∷ ts) go e =
            let (best, rest, s) = sort-some sorting (count_at bits boost g) t ts in
            let (m, least) = first_least sorting (count_at bits boost g) (t ∷ ts) best rest s in
            let below = (found_iff v best).0 (subst (Memᴰ best) (sym e) m) in
            let (r, f, found) = go best (omega (arith, l, lower v best below.child_edge)) in
            (
              r,
              rw (lowest, candidates-keep (child_targets bits boost g v) (child_reading v), e, s) f,
              down below (λ x b. least x (subst (Memᴰ x) e ((found_iff v x).1 b))) found,
            )
