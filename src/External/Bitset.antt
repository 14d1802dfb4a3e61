-- ===== src/External/Bitset.antt =====
-- boost::dynamic_bitset<>, the base class of AffinityMask.
use yloc.Prelude.{
  ℕ, zero, suc, ◌+◌, ◌<◌, ◌≡◌, ◌↔◌, Bool, true, false, ◌&&◌, Text, ◌==◌, if◌then◌else◌,
}

-- How many numbers below `n` pass a test.
abbrev pub count_below : (ℕ → Bool) → ℕ → ℕ
count_below p zero = 0
count_below p (suc n) = (if p n then 1 else 0) + count_below p n

pub record Bitset : Type 1 where
  pub Bits : Type 0
  -- `dynamic_bitset(n)`, `size()`, `b[i]`, `b[i] = v`, `a & b`, `a == b`, `any()`, `count()`, `<<`
  pub zeros : ℕ → Bits
  pub size : Bits → ℕ
  pub test : Bits → ℕ → Bool
  pub assign : Bits → ℕ → Bool → Bits
  pub and : Bits → Bits → Bits
  pub eq : Bits → Bits → Bool
  pub any : Bits → Bool
  pub count : Bits → ℕ
  pub show : Bits → Text
  pub size-zeros : (n : ℕ) → size (zeros n) ≡ n
  pub test-zeros : (n i : ℕ) → i < n → test (zeros n) i ≡ false
  pub size-assign : (b : Bits) (i : ℕ) (v : Bool) → i < size b → size (assign b i v) ≡ size b
  pub test-assign :
      (b : Bits) (i : ℕ) (v : Bool) (j : ℕ)
      → i < size b
      → j < size b
      → test (assign b i v) j ≡ (if i == j then v else test b j)
  pub size-and : (a b : Bits) → size a ≡ size b → size (and a b) ≡ size a
  pub test-and :
      (a b : Bits) (i : ℕ)
      → size a ≡ size b
      → i < size a
      → test (and a b) i ≡ (test a i && test b i)
  pub eq_iff :
      (a b : Bits)
      → (eq a b ≡ true) ↔ ((size a ≡ size b) × ((i : ℕ) → i < size a → test a i ≡ test b i))
  pub any_true : (b : Bits) (i : ℕ) → i < size b → test b i ≡ true → any b ≡ true
  pub any_false : (b : Bits) → any b ≡ true → (i : ℕ) × (i < size b) × (test b i ≡ true)
  pub count_lem : (b : Bits) → count b ≡ count_below (test b) (size b)
