-- ===== src/Prelude/Disjoint.antt =====
-- The disjunction of two words that share no bit is their sum.
use Prim.Native.Nat.{
  ℕ, zero, suc, ◌+◌, ◌*◌, ◌/◌, ◌%◌, ◌^◌, ◌≤◌, ◌<◌, max, bit_or, digits, bit_or-bitwise,
}
use mathlib.Core.Path.{◌≡◌, refl, ap}
use native.Mathlib.Nat.{pow-suc}
use native.Mathlib.Omega.{arith}

abbrev or_within : ℕ → ℕ → ℕ → ℕ
or_within n a b = digits (λ x. x) max n a b

-- Two counts of digits that are both large enough give the same.
enough_digits : (b a n m : ℕ) → a ≤ n → a ≤ m → or_within n a b ≡ or_within m a b
enough_digits b a zero zero p q = refl
enough_digits b zero (suc n) zero p q = refl
enough_digits b zero zero (suc m) p q = refl
enough_digits b zero (suc n) (suc m) p q = refl
enough_digits b (suc a) (suc n) zero p q = absurd (omega arith)
enough_digits b (suc a) zero (suc m) p q = absurd (omega arith)
enough_digits b (suc a) (suc n) (suc m) p q =
    let shorter = enough_digits (b / 2) (suc a / 2) n m (omega arith) (omega arith) in omega arith

-- The lowest digit of a disjunction, and the digits above it.
bit_or-halves : (a b : ℕ) → bit_or a b ≡ bit_or (a / 2) (b / 2) * 2 + max (a % 2) (b % 2)
bit_or-halves zero b = omega (arith, bit_or-bitwise 0 b, bit_or-bitwise 0 (b / 2))
bit_or-halves (suc a) b = omega (
  arith,
  bit_or-bitwise (suc a) b,
  bit_or-bitwise (suc a / 2) (b / 2),
  enough_digits (b / 2) (suc a / 2) a (suc a / 2) (omega arith) (omega arith),
)

bit_or-zero_within : (n a : ℕ) → a ≤ n → bit_or a 0 ≡ a
bit_or-zero_within n zero h = refl
bit_or-zero_within zero (suc a) h = absurd (omega arith)
bit_or-zero_within (suc n) (suc a) h =
    omega (arith, bit_or-halves (suc a) 0, bit_or-zero_within n (suc a / 2) (omega arith))

-- The upper word is shifted by `k` bits and the lower one has at most `k` bits.
pub bit_or_disjoint : (k hi lo : ℕ) → lo < 2 ^ k → bit_or (hi * 2 ^ k) lo ≡ hi * 2 ^ k + lo
bit_or_disjoint zero hi lo h =
    let none : lo ≡ 0 = omega arith in rw none (omega (arith, bit_or-zero_within (hi * 1) (hi * 1)))
bit_or_disjoint (suc k) hi lo h =
    let double : hi * 2 ^ suc k ≡ 2 * (hi * 2 ^ k) =
      omega (arith, ap (λ (t : ℕ). hi * t) (pow-suc 2 k)) in
    let fits : lo / 2 < 2 ^ k = omega (arith, pow-suc 2 k) in
    rw double
      (ground (arith, bit_or-halves (2 * (hi * 2 ^ k)) lo, bit_or_disjoint k hi (lo / 2) fits))
