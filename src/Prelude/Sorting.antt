-- ===== src/Prelude/Sorting.antt =====
-- std::sort by a strict comparison, as the standard promises it: the result is a permutation, and no
-- element compares less than one in front of it. The order of elements that compare equal is not
-- promised, so the result is not determined.
use Prim.Native.Nat.{ℕ, ◌≤◌}
use mathlib.Core.Path.{◌≡◌, refl, sym, ◌∙◌, subst}
use mathlib.Core.Logic.{◌↔◌}
use mathlib.Core.Bool.{Bool, true, false}
use mathlib.Core.List.{List, [], ◌∷◌, Memᴰ, Permᴰ}
use mathlib.Core.List.Permᴰ as PermD
use native.Mathlib.Omega.{arith}
use yloc.Prelude.Tests.{ltb}
use yloc.Prelude.Lists.{count, All}
use yloc.Prelude.Member.{All-Memᴰ}

module _ {A : Type 0} where
  -- No element compares less than an earlier one.
  abbrev pub IsSortedBy : (A → A → Bool) → List A → Type 0
  IsSortedBy less [] = Unit
  IsSortedBy less (x ∷ xs) = All (λ y. less y x ≡ false) xs × IsSortedBy less xs

pub record Sorter (A : Type 0) (less : A → A → Bool) : Type 0 where
  pub sort : List A → List A
  pub sort-Permᴰ : (xs : List A) → Permᴰ (sort xs) xs
  pub sort-IsSortedBy : (xs : List A) → IsSortedBy less (sort xs)

-- A sort by a key, as std::sort is called here.
abbrev pub Sorting : Type 0 → Type 0
Sorting A = (key : A → ℕ) → Sorter A (λ a b. ltb (key a) (key b))

irreflexive : (n : ℕ) → ¬ (ltb n n ≡ true)
irreflexive n h = ground arith

true_or_false : {b : Bool} → b ≡ true → ¬ (b ≡ false)
true_or_false h k = cc (h, k)

module _ {A : Type 0} where
  -- A permutation passes a test as often.
  pub count-Permᴰ : (p : A → Bool) {xs ys : List A} → Permᴰ xs ys → count p xs ≡ count p ys
  count-Permᴰ p Permᴰ.nil = refl
  count-Permᴰ p (Permᴰ.cons e r) = rw e (ground (arith, count-Permᴰ p r))
  count-Permᴰ p (Permᴰ.swap e f) = rw (e, f) (ground arith)
  count-Permᴰ p (Permᴰ.trans r s) = count-Permᴰ p r ∙ count-Permᴰ p s

  -- A permutation has the same elements.
  pub Memᴰ-Permᴰ : {x : A} {xs ys : List A} → Permᴰ xs ys → Memᴰ x xs → Memᴰ x ys
  Memᴰ-Permᴰ Permᴰ.nil m = m
  Memᴰ-Permᴰ (Permᴰ.cons e r) (Memᴰ.head f) = Memᴰ.head (f ∙ e)
  Memᴰ-Permᴰ (Permᴰ.cons e r) (Memᴰ.tail m) = Memᴰ.tail (Memᴰ-Permᴰ r m)
  Memᴰ-Permᴰ (Permᴰ.swap e f) (Memᴰ.head h) = Memᴰ.tail (Memᴰ.head (h ∙ e))
  Memᴰ-Permᴰ (Permᴰ.swap e f) (Memᴰ.tail (Memᴰ.head h)) = Memᴰ.head (h ∙ f)
  Memᴰ-Permᴰ (Permᴰ.swap e f) (Memᴰ.tail (Memᴰ.tail m)) = Memᴰ.tail (Memᴰ.tail m)
  Memᴰ-Permᴰ (Permᴰ.trans r s) m = Memᴰ-Permᴰ s (Memᴰ-Permᴰ r m)

  pub All-Permᴰ {κ} : (P : A → Type κ) {xs ys : List A} → Permᴰ xs ys → All P xs → All P ys
  All-Permᴰ P Permᴰ.nil a = a
  All-Permᴰ P (Permᴰ.cons e r) (x, a) = (subst P e x, All-Permᴰ P r a)
  All-Permᴰ P (Permᴰ.swap e f) (x, (y, a)) = (subst P f y, (subst P e x, a))
  All-Permᴰ P (Permᴰ.trans r s) a = All-Permᴰ P s (All-Permᴰ P r a)

  keys_apart : (key : A → ℕ) (a b : A) → ltb (key a) (key b) ≡ true → ¬ (a ≡ b)
  keys_apart key a b l e = irreflexive (key b) (subst (λ x. ltb (key x) (key b) ≡ true) e l)

  -- A sorted list of two elements with two that have different keys.
  two_in_order :
      (key : A → ℕ) (a b : A) (ys : List A)
      → ltb (key a) (key b) ≡ true
      → IsSortedBy (λ x y. ltb (key x) (key y)) ys
      → Memᴰ a ys
      → Memᴰ b ys
      → count (λ _. true) ys ≡ 2
      → ys ≡ a ∷ b ∷ []
  two_in_order key a b [] l s ma mb n = elim ma [ ]
  two_in_order key a b (x ∷ []) l s ma mb n = absurd (omega (arith, n))
  two_in_order key a b (x ∷ y ∷ z ∷ zs) l s ma mb n = absurd (omega (arith, n))
  two_in_order key a b (x ∷ y ∷ []) l s (Memᴰ.head e) (Memᴰ.head f) n =
      absurd (keys_apart key a b l (e ∙ sym f))
  two_in_order key a b (x ∷ y ∷ []) l s (Memᴰ.head e) (Memᴰ.tail (Memᴰ.head f)) n = rw (e, f) refl
  two_in_order key a b (x ∷ y ∷ []) l s (Memᴰ.tail (Memᴰ.head e)) (Memᴰ.head f) n =
      let turned : ltb (key a) (key b) ≡ false = rw (e, f) s.0.0 in absurd (true_or_false l turned)
  two_in_order key a b (x ∷ y ∷ []) l s (Memᴰ.tail (Memᴰ.head e)) (Memᴰ.tail (Memᴰ.head f)) n =
      absurd (keys_apart key a b l (e ∙ sym f))
  two_in_order key a b (x ∷ y ∷ []) l s (Memᴰ.tail (Memᴰ.tail m)) mb n = elim m [ ]
  two_in_order key a b (x ∷ y ∷ []) l s (Memᴰ.head e) (Memᴰ.tail (Memᴰ.tail m)) n = elim m [ ]
  two_in_order key a b (x ∷ y ∷ []) l s (Memᴰ.tail (Memᴰ.head e)) (Memᴰ.tail (Memᴰ.tail m)) n =
      elim m [ ]

  -- Two elements of different keys stand in one order only.
  pub sort_two :
      (sorting : Sorting A) (key : A → ℕ) (a b : A) (xs : List A)
      → ltb (key a) (key b) ≡ true
      → Permᴰ xs (a ∷ b ∷ [])
      → (sorting key).sort xs ≡ a ∷ b ∷ []
  sort_two sorting key a b xs l r =
      let sorted = (sorting key).sort xs in
      let r' = Permᴰ.trans ((sorting key).sort-Permᴰ xs) r in
      two_in_order key a b sorted l ((sorting key).sort-IsSortedBy xs)
        (Memᴰ-Permᴰ (PermD.symm r') (Memᴰ.head refl))
        (Memᴰ-Permᴰ (PermD.symm r') (Memᴰ.tail (Memᴰ.head refl))) (count-Permᴰ (λ _. true) r')

not_less : (a b : ℕ) → ltb a b ≡ false → b ≤ a
not_less a b h = ground arith

module _ (sorting : Sorting ℕ) (key : ℕ → ℕ) where
  -- Sorting keeps the elements.
  pub Memᴰ-sort : (x : ℕ) (xs : List ℕ) → Memᴰ x ((sorting key).sort xs) ↔ Memᴰ x xs
  Memᴰ-sort x xs = let r = (sorting key).sort-Permᴰ xs in (Memᴰ-Permᴰ r, Memᴰ-Permᴰ (PermD.symm r))

  -- The first of the sorted elements is one of least key.
  pub first_least :
      (xs : List ℕ) (b : ℕ) (rest : List ℕ)
      → (sorting key).sort xs ≡ b ∷ rest
      → Memᴰ b xs × ((x : ℕ) → Memᴰ x xs → key b ≤ key x)
  first_least xs b rest e = (
    (Memᴰ-sort b xs).0 (rw e (Memᴰ.head refl)),
    λ x m.
        let sorted : IsSortedBy (λ a c. ltb (key a) (key c)) (b ∷ rest) =
          subst (IsSortedBy (λ a c. ltb (key a) (key c))) e ((sorting key).sort-IsSortedBy xs) in
        elim (subst (Memᴰ x) e ((Memᴰ-sort x xs).1 m)) [
          | Memᴰ.head f ↦ rw f (omega arith)
          | Memᴰ.tail n ↦
              not_less (key x) (key b) (All-Memᴰ (λ y. ltb (key y) (key b) ≡ false) n sorted.0)
        ],
  )

  -- What is sorted has elements if there were some.
  pub sort-some :
      (x : ℕ) (xs : List ℕ) → (b : ℕ) × (rest : List ℕ) × ((sorting key).sort (x ∷ xs) ≡ b ∷ rest)
  sort-some x xs = shape ((sorting key).sort (x ∷ xs)) ((Memᴰ-sort x (x ∷ xs)).1 (Memᴰ.head refl))
    where
      shape : (ys : List ℕ) → Memᴰ x ys → (b : ℕ) × (rest : List ℕ) × (ys ≡ b ∷ rest)
      shape [] m = elim m [ ]
      shape (b ∷ rest) m = (b, rest, refl)
