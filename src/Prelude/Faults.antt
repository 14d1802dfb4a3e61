-- ===== src/Prelude/Faults.antt =====
-- The outcome of code that may hit a failing assert, an exception that nothing catches or a null
-- pointer: `fault` stands for all of these.
use mathlib.Core.Path.{◌≡◌, refl}
use mathlib.Core.Logic.{◌⊎◌, inl, inr}

pub data Result {ℓ} (A : Type ℓ) : Type ℓ where
  ok : A → Result A
  fault : Result A

infixl 5 ◌>>=◌
abbrev pub ◌>>=◌ {ℓ κ} : {A : Type ℓ} {B : Type κ} → Result A → (A → Result B) → Result B
ok a >>= f = f a
fault >>= f = fault

-- A chain ends well only if its first call does and the rest does on that call's value.
pub >>=-eq-ok {ℓ} :
    {S T : Type ℓ} (first : Result S) (rest : S → Result T) {last : T}
    → first >>= rest ≡ ok last
    → (s : S) × (first ≡ ok s) × (rest s ≡ ok last)
>>=-eq-ok fault rest h = cc
>>=-eq-ok (ok s) rest h = (s, refl, h)

pub Result-cases {ℓ} : {A : Type ℓ} (r : Result A) → (r ≡ fault) ⊎ ((a : A) × (r ≡ ok a))
Result-cases (ok a) = inr (a, refl)
Result-cases fault = inl refl

pub of_ok {ℓ} : {A : Type ℓ} {a b : A} → ok a ≡ ok b → a ≡ b
of_ok h = cc
