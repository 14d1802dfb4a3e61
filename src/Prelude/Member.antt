-- ===== src/Prelude/Member.antt =====
-- The library's membership type `Memᴰ`, `any` and `All`.
use mathlib.Core.Path.{◌≡◌, refl, sym, ap, ◌∙◌, subst}
use mathlib.Core.Logic.{◌↔◌, inl, inr}
use mathlib.Core.Bool.{Bool, true}
use mathlib.Core.List.{List, [], ◌∷◌, Memᴰ, map}
use native.Mathlib.Omega.{arith}
use yloc.Prelude.Tests.{Bool-cases, if◌then◌else◌}
use yloc.Prelude.Lists.{any, All, keep}

pub any-Memᴰ :
    {A : Type 0} (p : A → Bool) (xs : List A) → any p xs ≡ true → (x : A) × Memᴰ x xs × (p x ≡ true)
any-Memᴰ p [] h = absurd (ground arith)
any-Memᴰ p (x ∷ xs) h = elim (Bool-cases (p x)) [
  | inl e ↦ (x, Memᴰ.head refl, e)
  | inr e ↦ let (y, m, q) = any-Memᴰ p xs (ground arith) in (y, Memᴰ.tail m, q)
]

pub any-true_of_Memᴰ :
    {A : Type 0} (p : A → Bool) {x : A} {xs : List A} → Memᴰ x xs → p x ≡ true → any p xs ≡ true
any-true_of_Memᴰ p (Memᴰ.head e) h = rw (← e) (rw h)
any-true_of_Memᴰ p (Memᴰ.tail {x = y} m) h = ground (arith, any-true_of_Memᴰ p m h)

pub All-Memᴰ {κ} : {A : Type 0} (P : A → Type κ) {x : A} {xs : List A} → Memᴰ x xs → All P xs → P x
All-Memᴰ P (Memᴰ.head e) h = subst P (sym e) h.0
All-Memᴰ P (Memᴰ.tail m) h = All-Memᴰ P m h.1

pub keep_iff :
    {A : Type 0} (p : A → Bool) (x : A) (xs : List A)
    → Memᴰ x (keep p xs) ↔ (Memᴰ x xs × (p x ≡ true))
keep_iff p x xs = (kept_passes p x xs, λ (m, h). passes_kept p x xs m h)
  where
    kept_passes :
        {A : Type 0} (p : A → Bool) (x : A) (xs : List A)
        → Memᴰ x (keep p xs)
        → Memᴰ x xs × (p x ≡ true)
    kept_passes p x [] m = elim m [ ]
    kept_passes p x (y ∷ ys) m = elim (Bool-cases (p y)) [
      | inl e ↦ elim (subst (Memᴰ x) (ap (λ b. if b then y ∷ keep p ys else keep p ys) e) m) [
        | Memᴰ.head f ↦ (Memᴰ.head f, ap p f ∙ e)
        | Memᴰ.tail n ↦ let (k, h) = kept_passes p x ys n in (Memᴰ.tail k, h)
      ]
      | inr e ↦
          let (k, h) =
            kept_passes p x ys
              (subst (Memᴰ x) (ap (λ b. if b then y ∷ keep p ys else keep p ys) e) m) in
          (Memᴰ.tail k, h)
    ]

    passes_kept :
        {A : Type 0} (p : A → Bool) (x : A) (xs : List A)
        → Memᴰ x xs
        → p x ≡ true
        → Memᴰ x (keep p xs)
    passes_kept p x [] m h = elim m [ ]
    passes_kept p x (y ∷ ys) (Memᴰ.head e) h = rw (← ap p e, h) (Memᴰ.head e)
    passes_kept p x (y ∷ ys) (Memᴰ.tail m) h = elim (Bool-cases (p y)) [
      | inl e ↦ rw e (Memᴰ.tail (passes_kept p x ys m h))
      | inr e ↦ rw e (passes_kept p x ys m h)
    ]

pub map_iff :
    {A B : Type 0} (f : A → B) (y : B) (xs : List A)
    → Memᴰ y (map f xs) ↔ ((x : A) × Memᴰ x xs × (f x ≡ y))
map_iff f y xs = (comes_from f y xs, λ (x, m, e). goes_to f y x xs m e)
  where
    comes_from :
        {A B : Type 0} (f : A → B) (y : B) (xs : List A)
        → Memᴰ y (map f xs)
        → (x : A) × Memᴰ x xs × (f x ≡ y)
    comes_from f y [] m = elim m [ ]
    comes_from f y (x ∷ xs) (Memᴰ.head e) = (x, Memᴰ.head refl, sym e)
    comes_from f y (x ∷ xs) (Memᴰ.tail m) =
        let (z, k, e) = comes_from f y xs m in (z, Memᴰ.tail k, e)

    goes_to :
        {A B : Type 0} (f : A → B) (y : B) (x : A) (xs : List A)
        → Memᴰ x xs
        → f x ≡ y
        → Memᴰ y (map f xs)
    goes_to f y x [] m e = elim m [ ]
    goes_to f y x (z ∷ xs) (Memᴰ.head h) e = Memᴰ.head (sym e ∙ ap f h)
    goes_to f y x (z ∷ xs) (Memᴰ.tail m) e = Memᴰ.tail (goes_to f y x xs m e)
