-- ===== src/Examples/Minimum.antt =====
-- The loop for the minimum in find_distances (example/example.cc).
use yloc.Prelude.{
  ℕ, ◌≤◌, ◌≡◌, refl, ap, ◌∙◌, ◌⊎◌, inl, inr, List, [], ◌∷◌, Memᴰ, ltb, tests, if◌then◌else◌, arith,
  Bool-cases,
}
use yloc.Examples.{least}

-- One round keeps the smaller of two values.
smaller : ℕ → ℕ → ℕ
smaller m n = if ltb n m then n else m

smaller_cases :
    (m n : ℕ) → (smaller m n ≤ m) × (smaller m n ≤ n) × ((smaller m n ≡ m) ⊎ (smaller m n ≡ n))
unfolding smaller
smaller_cases m n = elim (Bool-cases (ltb n m)) [
  | inl e ↦ rw e (omega (tests, e), omega arith, inr refl)
  | inr e ↦ rw e (omega arith, ground arith, inl refl)
]

pub least_bounds :
    (d : ℕ → ℕ) (m : ℕ) (vs : List ℕ)
    → (least d m vs ≤ m) × ((v : ℕ) → Memᴰ v vs → least d m vs ≤ d v)
unfolding least smaller
least_bounds d m [] = (omega arith, λ v n. elim n [ ])
least_bounds d m (x ∷ xs) =
    let (le_first, le_rest) = least_bounds d (smaller m (d x)) xs in
    let (a, b, _) = smaller_cases m (d x) in (omega arith, bounds d x xs (omega arith) le_rest)
  where
    bounds :
        (d : ℕ → ℕ) (x : ℕ) (xs : List ℕ) {l : ℕ}
        → l ≤ d x
        → ((v : ℕ) → Memᴰ v xs → l ≤ d v)
        → (v : ℕ) → Memᴰ v (x ∷ xs)
        → l ≤ d v
    bounds d x xs h k v (Memᴰ.head e) = omega (arith, h, ap d e)
    bounds d x xs h k v (Memᴰ.tail n) = k v n

pub least_reached :
    (d : ℕ → ℕ) (m : ℕ) (vs : List ℕ)
    → (least d m vs ≡ m) ⊎ ((v : ℕ) × Memᴰ v vs × (least d m vs ≡ d v))
unfolding least smaller
least_reached d m [] = inl refl
least_reached d m (x ∷ xs) = elim (least_reached d (smaller m (d x)) xs) [
  | inl e ↦ elim (smaller_cases m (d x)).2 [
    | inl f ↦ inl (e ∙ f)
    | inr f ↦ inr (x, Memᴰ.head refl, e ∙ f)
  ]
  | inr (v, n, e) ↦ inr (v, Memᴰ.tail n, e)
]
