-- ===== src/Tests/Sorts.antt =====
-- A sort by insertion, in place of std::sort.
use mathlib.Core.List.Permᴰ as PermD
use yloc.Prelude.{
  Permᴰ, ℕ, ◌≡◌, refl, true, false, List, [], ◌∷◌, All, ltb, if◌then◌else◌, Bool-cases, inl, inr,
  arith,
}
use yloc.Prelude.Sorting.{Sorting, IsSortedBy}

abbrev insert_by : {A : Type 0} → (A → ℕ) → A → List A → List A
insert_by key x [] = x ∷ []
insert_by key x (y ∷ ys) =
    let rest = insert_by key x ys in if ltb (key y) (key x) then y ∷ rest else x ∷ y ∷ ys

abbrev sort_by : {A : Type 0} → (A → ℕ) → List A → List A
sort_by key [] = []
sort_by key (x ∷ xs) = insert_by key x (sort_by key xs)

insert_by-Permᴰ :
    {A : Type 0} (key : A → ℕ) (x : A) (ys : List A) → Permᴰ (insert_by key x ys) (x ∷ ys)
insert_by-Permᴰ key x [] = PermD.refl (x ∷ [])
insert_by-Permᴰ key x (y ∷ ys) = elim (Bool-cases (ltb (key y) (key x))) [
  | inl e ↦ rw e (Permᴰ.trans (Permᴰ.cons refl (insert_by-Permᴰ key x ys)) (Permᴰ.swap refl refl))
  | inr e ↦ rw e (PermD.refl (x ∷ y ∷ ys))
]

pub sort_by-Permᴰ : {A : Type 0} (key : A → ℕ) (xs : List A) → Permᴰ (sort_by key xs) xs
sort_by-Permᴰ key [] = Permᴰ.nil
sort_by-Permᴰ key (x ∷ xs) =
    Permᴰ.trans (insert_by-Permᴰ key x (sort_by key xs)) (Permᴰ.cons refl (sort_by-Permᴰ key xs))

-- No key in a list is below `n`.
abbrev AtLeast : {A : Type 0} → (A → ℕ) → ℕ → List A → Type 0
AtLeast key n ys = All (λ y. ltb (key y) n ≡ false) ys

AtLeast-insert_by :
    {A : Type 0} (key : A → ℕ) (n : ℕ) (x : A) (ys : List A)
    → ltb (key x) n ≡ false
    → AtLeast key n ys
    → AtLeast key n (insert_by key x ys)
AtLeast-insert_by key n x [] h a = (h, tt)
AtLeast-insert_by key n x (y ∷ ys) h a = elim (Bool-cases (ltb (key y) (key x))) [
  | inl e ↦ rw e (a.0, AtLeast-insert_by key n x ys h a.1)
  | inr e ↦ rw e (h, a)
]

ltb_turn : (a b : ℕ) → ltb a b ≡ true → ltb b a ≡ false
ltb_turn a b h = ground arith

ltb_over : (a b c : ℕ) → ltb a b ≡ false → ltb c a ≡ false → ltb c b ≡ false
ltb_over a b c h k = ground arith

AtLeast-lower :
    {A : Type 0} (key : A → ℕ) (n m : ℕ) (ys : List A)
    → ltb m n ≡ false
    → AtLeast key m ys
    → AtLeast key n ys
AtLeast-lower key n m [] h a = tt
AtLeast-lower key n m (y ∷ ys) h a = (ltb_over m n (key y) h a.0, AtLeast-lower key n m ys h a.1)

insert_by-IsSortedBy :
    {A : Type 0} (key : A → ℕ) (x : A) (ys : List A)
    → IsSortedBy (λ a b. ltb (key a) (key b)) ys
    → IsSortedBy (λ a b. ltb (key a) (key b)) (insert_by key x ys)
insert_by-IsSortedBy key x [] s = (tt, tt)
insert_by-IsSortedBy key x (y ∷ ys) s = elim (Bool-cases (ltb (key y) (key x))) [
  | inl e ↦ rw e (
    AtLeast-insert_by key (key y) x ys (ltb_turn (key y) (key x) e) s.0,
    insert_by-IsSortedBy key x ys s.1,
  )
  | inr e ↦ rw e ((e, AtLeast-lower key (key x) (key y) ys e s.0), s)
]

pub sort_by-IsSortedBy :
    {A : Type 0} (key : A → ℕ) (xs : List A)
    → IsSortedBy (λ a b. ltb (key a) (key b)) (sort_by key xs)
sort_by-IsSortedBy key [] = tt
sort_by-IsSortedBy key (x ∷ xs) =
    insert_by-IsSortedBy key x (sort_by key xs) (sort_by-IsSortedBy key xs)

abbrev pub insertion : (A : Type 0) → Sorting A
insertion A key = record {
  sort = sort_by key;
  sort-Permᴰ = λ xs. sort_by-Permᴰ key xs;
  sort-IsSortedBy = λ xs. sort_by-IsSortedBy key xs;
}
