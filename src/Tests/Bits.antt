-- ===== src/Tests/Bits.antt =====
-- A boost::dynamic_bitset as a size and a test of the bits below it.
use yloc.Prelude.{
  subst, ◌++◌, ℕ, zero, suc, ◌<◌, ◌≡◌, refl, sym, ap, ◌↔◌, Bool, true, false, ◌&&◌, Text, codes,
  ◌==◌, ==_iff, if◌then◌else◌, Bool-cases, inl, inr, arith,
}
use yloc.External.Bitset.{Bitset, count_below}

pub record BitFun : Type 0 where
  pub length : ℕ
  pub at : ℕ → Bool

abbrev bool_eq : Bool → Bool → Bool
bool_eq true b = b
bool_eq false true = false
bool_eq false false = true

bool_eq_iff : (a b : Bool) → (bool_eq a b ≡ true) ↔ (a ≡ b)
bool_eq_iff true b = (λ e. sym e, λ e. sym e)
bool_eq_iff false true = (λ e. cc e, λ e. cc e)
bool_eq_iff false false = (λ _. refl, λ _. refl)

abbrev all_below : (ℕ → Bool) → ℕ → Bool
all_below p zero = true
all_below p (suc n) = p n && all_below p n

abbrev any_below : (ℕ → Bool) → ℕ → Bool
any_below p zero = false
any_below p (suc n) = if p n then true else any_below p n

and_true : (a b : Bool) → (a && b) ≡ true → (a ≡ true) × (b ≡ true)
and_true true b e = (refl, e)
and_true false b e = cc e

no_less_zero : (i : ℕ) → ¬ (i < 0)
no_less_zero i l = omega (arith, l)

all_below_iff : (p : ℕ → Bool) (n : ℕ) → (all_below p n ≡ true) ↔ ((i : ℕ) → i < n → p i ≡ true)
all_below_iff p zero = (λ _ i l. elim (no_less_zero i l) [ ], λ _. refl)
all_below_iff p (suc n) = (
  λ e i l.
      let (here, below) = and_true (p n) (all_below p n) e in
      elim (Bool-cases (i == n)) [
        | inl f ↦ subst (λ k. p k ≡ true) (sym ((==_iff i n).0 f)) here
        | inr f ↦ (all_below_iff p n).0 below i (ground arith)
      ],
  λ h. rw (h n (omega arith)) ((all_below_iff p n).1 (λ i l. h i (omega (arith, l)))),
)

pub any_below_found :
    (p : ℕ → Bool) (n : ℕ) → any_below p n ≡ true → (i : ℕ) × (i < n) × (p i ≡ true)
any_below_found p zero e = cc e
any_below_found p (suc n) e = elim (Bool-cases (p n)) [
  | inl f ↦ (n, omega arith, f)
  | inr f ↦ let (i, l, h) = any_below_found p n (rw f at e) in (i, omega (arith, l), h)
]

pub any_below-true : (p : ℕ → Bool) (n i : ℕ) → i < n → p i ≡ true → any_below p n ≡ true
any_below-true p zero i l e = elim (no_less_zero i l) [ ]
any_below-true p (suc n) i l e = elim (Bool-cases (p n)) [
  | inl f ↦ rw f refl
  | inr f ↦ elim (Bool-cases (i == n)) [
    | inl g ↦ cc (f, e, ap p ((==_iff i n).0 g))
    | inr g ↦ rw f (any_below-true p n i (ground arith) e)
  ]
]

abbrev show_below : (ℕ → Bool) → ℕ → Text
show_below p zero = codes ""
show_below p (suc n) = (if p n then codes "1" else codes "0") ++ show_below p n

abbrev show_bits : BitFun → Text
show_bits b = show_below b.at b.length

abbrev same_size : BitFun → BitFun → Bool
same_size a b = a.length == b.length

pub eq_bits_iff :
    (a b : BitFun)
    → ((same_size a b && all_below (λ i. bool_eq (a.at i) (b.at i)) a.length) ≡ true)
      ↔ ((a.length ≡ b.length) × ((i : ℕ) → i < a.length → a.at i ≡ b.at i))
eq_bits_iff a b =
    let same = λ (i : ℕ). bool_eq (a.at i) (b.at i) in
    (
      λ e.
          let (l, m) = and_true (same_size a b) (all_below same a.length) e in
          (
            (==_iff a.length b.length).0 l,
            λ i k. (bool_eq_iff (a.at i) (b.at i)).0 ((all_below_iff same a.length).0 m i k),
          ),
      λ h.
          rw ((==_iff a.length b.length).1 h.0)
            ((all_below_iff same a.length).1 (λ i k. (bool_eq_iff (a.at i) (b.at i)).1 (h.1 i k))),
    )

abbrev pub function_bits : Bitset
function_bits = record {
  Bits = BitFun;
  zeros = λ n. record { length = n; at = λ _. false };
  size = λ b. b.length;
  test = λ b i. b.at i;
  assign = λ b i v. record b { at = λ j. if i == j then v else b.at j };
  and = λ a b. record { length = a.length; at = λ i. a.at i && b.at i };
  eq = λ a b. same_size a b && all_below (λ i. bool_eq (a.at i) (b.at i)) a.length;
  any = λ b. any_below b.at b.length;
  count = λ b. count_below b.at b.length;
  show = show_bits;
  size-zeros = λ n. refl;
  test-zeros = λ n i l. refl;
  size-assign = λ b i v l. refl;
  test-assign = λ b i v j li lj. refl;
  size-and = λ a b e. refl;
  test-and = λ a b i e l. refl;
  eq_iff = eq_bits_iff;
  any_true = λ b i l e. any_below-true b.at b.length i l e;
  any_false = λ b e. any_below_found b.at b.length e;
  count_lem = λ b. refl;
}
