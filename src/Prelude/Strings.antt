-- ===== src/Prelude/Strings.antt =====
-- std::string as the list of its bytes: equality of texts, and std::to_string of a number that is
-- not negative.
use Prim.Native.Nat.{ℕ, zero, suc, ◌+◌, ◌*◌, ◌/◌, ◌%◌, ◌<◌}
use Prim.Native.Char.{code}
use Prim.Native.String.{String}
use mathlib.Core.Path.{◌≡◌, refl, ap, sym, ◌∙◌}
use mathlib.Core.Logic.{◌↔◌, inl, inr}
use mathlib.Core.Bool.{Bool, true, false, ◌&&◌}
use mathlib.Core.List.{List, [], ◌∷◌, ◌++◌}
use native.Mathlib.Omega.{arith}
use yloc.Prelude.Tests.{◌==◌, if◌then◌else◌, Bool-cases}

abbrev pub Text : Type 0
Text = List ℕ

-- The bytes of an ASCII literal.
abbrev pub codes : String → Text
codes String.[] = []
codes (String.◌∷◌ c s) = code c ∷ codes s

unfoldable pub text_eq : Text → Text → Bool
text_eq [] [] = true
text_eq (x ∷ xs) (y ∷ ys) = x == y && text_eq xs ys
text_eq _ _ = false

pub text_eq_refl : (s : Text) → text_eq s s ≡ true
unfolding text_eq
text_eq_refl [] = refl
text_eq_refl (x ∷ xs) = ground (arith, text_eq_refl xs)

pub eq_of_text_eq : (s t : Text) → text_eq s t ≡ true → s ≡ t
unfolding text_eq
eq_of_text_eq [] [] h = refl
eq_of_text_eq (x ∷ xs) (y ∷ ys) h = ground (arith, eq_of_text_eq xs ys)
eq_of_text_eq [] (y ∷ ys) h = cc
eq_of_text_eq (x ∷ xs) [] h = cc

pub text_eq_iff : (s t : Text) → (text_eq s t ≡ true) ↔ (s ≡ t)
text_eq_iff s t = (eq_of_text_eq s t, λ e. rw e (text_eq_refl t))

-- The digits of `n`, in front of `out`; a number has at most as many digits as its value plus one.
digits_fuel : ℕ → ℕ → Text → Text
digits_fuel zero n out = out
digits_fuel (suc f) n out =
    let out' = (b'0' + n % 10) ∷ out in
    let rest = digits_fuel f (n / 10) out' in if n / 10 == 0 then out' else rest

-- std::to_string
unfoldable pub to_string : ℕ → Text
unfolding digits_fuel
to_string n = digits_fuel (suc n) n []

read_digits : ℕ → Text → ℕ
read_digits acc [] = acc
read_digits acc (c ∷ s) = read_digits (acc * 10 + (c % 48)) s

read_digits-fuel :
    (f n : ℕ) (out : Text) → n < f → read_digits 0 (digits_fuel f n out) ≡ read_digits n out
unfolding digits_fuel read_digits
read_digits-fuel zero n out h = elim h [ ]
read_digits-fuel (suc f) n out h = elim (Bool-cases (n / 10 == 0)) [
  | inl done ↦
      let e : 0 * 10 + ((b'0' + n % 10) % 48) ≡ n = ground arith in
      rw done (ap (λ k. read_digits k out) e)
  | inr more ↦
      let e : n / 10 * 10 + ((b'0' + n % 10) % 48) ≡ n = ground arith in
      rw more (
        read_digits-fuel f (n / 10) ((b'0' + n % 10) ∷ out) (ground arith)
        ∙ ap (λ k. read_digits k out) e)
]

-- Two numbers with the same decimal text are equal.
pub to_string-injective : (m n : ℕ) → to_string m ≡ to_string n → m ≡ n
unfolding to_string read_digits
to_string-injective m n e =
    sym (read_digits-fuel (suc m) m [] (omega arith))
    ∙ ap (read_digits 0) e
    ∙ read_digits-fuel (suc n) n [] (omega arith)

pub append_cancel_left : (s t u : Text) → s ++ t ≡ s ++ u → t ≡ u
append_cancel_left [] t u e = e
append_cancel_left (x ∷ s) t u e = append_cancel_left s t u (cc e)
