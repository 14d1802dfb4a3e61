-- ===== src/View/Counting.antt =====
-- The vertices of a view (src/include/yloc/util.h) and their number.
use yloc.Prelude.{
  ℕ, zero, suc, ◌+◌, ◌<◌, ◌≤◌, ◌≡◌, refl, ap, ◌∙◌, sym, ◌↔◌, Bool, true, List, [], ◌∷◌, Memᴰ, keep,
  keep_iff, length, subst, arith, Bool-cases, inl, inr,
}
use yloc.GraphElement.{Vertex, Edge}
use yloc.Graph.{BoostGraph, Graph, num_vertices}
use yloc.External.FilteredGraph.{View, FilteredGraph}
use yloc.View.{numbers_from, vertices, whole, count_on, num_vertices_view}

in_numbers :
    (first left v : ℕ) → Memᴰ v (numbers_from first left) → (first ≤ v) × (v < first + left)
unfolding numbers_from
in_numbers first zero v m = elim m [ ]
in_numbers first (suc left) v (Memᴰ.head e) = omega (arith, e)
in_numbers first (suc left) v (Memᴰ.tail m) =
    let h = in_numbers (suc first) left v m in omega (arith, h)

numbers_reach : (left first gap : ℕ) → gap < left → Memᴰ (first + gap) (numbers_from first left)
unfolding numbers_from
numbers_reach zero first gap l = absurd (omega arith)
numbers_reach (suc left) first zero l = Memᴰ.head (omega arith)
numbers_reach (suc left) first (suc gap) l =
    let shifted : suc first + gap ≡ first + suc gap = omega arith in
    Memᴰ.tail (
      subst (λ x. Memᴰ x (numbers_from (suc first) left)) shifted
        (numbers_reach left (suc first) gap (omega arith)))

pub in_vertices_iff : (n v : ℕ) → Memᴰ v (vertices n) ↔ (v < n)
unfolding vertices
in_vertices_iff n v = (
  λ m. let h = in_numbers 0 n v m in omega (arith, h),
  λ l.
      let same : 0 + v ≡ v = omega arith in
      subst (λ x. Memᴰ x (numbers_from 0 n)) same (numbers_reach n 0 v l),
)

-- The first number that is kept is the least of those that are.
first-le :
    (p : ℕ → Bool) (left first a : ℕ) (rest : List ℕ)
    → keep p (numbers_from first left) ≡ a ∷ rest
    → (b : ℕ) → Memᴰ b (keep p (numbers_from first left))
    → a ≤ b
unfolding numbers_from
first-le p zero first a rest e b m = elim m [ ]
first-le p (suc left) first a rest e b m = elim (Bool-cases (p first)) [
  | inl t ↦
      let same : first ≡ a = cc (t, e) in
      let (n, _) = (keep_iff p b (numbers_from first (suc left))).0 m in
      omega (arith, same, in_numbers first (suc left) b n)
  | inr t ↦ first-le p left (suc first) a rest (rw t at e) b (rw t at m)
]

pub first_kept-le :
    (p : ℕ → Bool) (n a : ℕ) (rest : List ℕ)
    → keep p (vertices n) ≡ a ∷ rest
    → (b : ℕ) → Memᴰ b (keep p (vertices n))
    → a ≤ b
unfolding vertices
first_kept-le p n a rest e b m = first-le p n 0 a rest e b m

length-numbers_from : (first left : ℕ) → length (numbers_from first left) ≡ left
unfolding numbers_from
length-numbers_from first zero = refl
length-numbers_from first (suc left) = omega (arith, length-numbers_from (suc first) left)

count_on-length : (n : ℕ) (vs : List ℕ) → count_on n vs ≡ n + length vs
unfolding count_on
count_on-length n [] = omega arith
count_on-length n (v ∷ vs) = omega (arith, count_on-length (n + 1) vs)

-- Keeping all is keeping as many.
keep-length :
    (p : ℕ → Bool) (vs : List ℕ)
    → (length (keep p vs) ≤ length vs)
      × ((length (keep p vs) ≡ length vs) ↔ ((v : ℕ) → Memᴰ v vs → p v ≡ true))
keep-length p [] = (omega arith, (λ e v m. elim m [ ], λ h. refl))
keep-length p (x ∷ xs) =
    let (short, same) = keep-length p xs in
    elim (Bool-cases (p x)) [
      | inl e ↦ rw e (
        omega arith,
        (
          λ f. all_pass e (same.0 (omega (arith, f))),
          λ h. omega (arith, same.1 (λ v m. h v (Memᴰ.tail m))),
        ),
      )
      | inr e ↦ rw e (
        omega arith,
        (λ f. absurd (omega (arith, f, short)), λ h. absurd (cc (e, h x (Memᴰ.head refl)))),
      )
    ]
  where
    all_pass :
        {p : ℕ → Bool} {x : ℕ} {xs : List ℕ}
        → p x ≡ true
        → ((v : ℕ) → Memᴰ v xs → p v ≡ true)
        → (v : ℕ) → Memᴰ v (x ∷ xs)
        → p v ≡ true
    all_pass {p} e h v (Memᴰ.head f) = ap p f ∙ e
    all_pass e h v (Memᴰ.tail m) = h v m

pub num_vertices_view-length :
    {Mask : Type 0} (gv : View (Vertex Mask) (Edge Mask))
    → num_vertices_view gv ≡ length gv.vertices
unfolding num_vertices_view
num_vertices_view-length gv = count_on-length 0 gv.vertices ∙ omega arith

module _ {Mask : Type 0} {boost : BoostGraph Mask}
    (filtered : FilteredGraph (Vertex Mask) (Edge Mask)) where
  -- num_vertices_view gives the number of vertices of the whole graph; a filtered graph has at most as
  -- many, and as many exactly when all vertices pass the predicate.
  pub num_vertices_view_filtered :
      (g : Graph boost) (p : ℕ → Bool)
      → (num_vertices_view (whole g) ≡ num_vertices g)
        × (num_vertices_view (filtered.make_filtered_graph (whole g) p) ≤ num_vertices g)
        × ((num_vertices_view (filtered.make_filtered_graph (whole g) p) ≡ num_vertices g)
            ↔ ((v : ℕ) → v < num_vertices g → p v ≡ true))
  unfolding whole vertices
  num_vertices_view_filtered g p =
      let n = num_vertices g in
      let all = length-numbers_from 0 n in
      let kept : num_vertices_view (filtered.make_filtered_graph (whole g) p)
          ≡ length (keep p (vertices n)) =
        num_vertices_view-length (filtered.make_filtered_graph (whole g) p)
        ∙ ap length (filtered.vertices-make_filtered_graph (whole g) p) in
      let (short, same) = keep-length p (vertices n) in
      (
        num_vertices_view-length (whole g) ∙ all,
        omega (arith, kept, short, all),
        (
          λ e v l. same.0 (sym kept ∙ e ∙ sym all) v ((in_vertices_iff n v).1 l),
          λ h. kept ∙ same.1 (λ v m. h v ((in_vertices_iff n v).0 m)) ∙ all,
        ),
      )
