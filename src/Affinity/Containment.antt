-- ===== src/Affinity/Containment.antt =====
-- Containment of masks (src/include/yloc/affinity.h).
use yloc.Prelude.{ℕ, zero, suc, ◌≤◌, ◌<◌, ◌≡◌, refl, sym, ◌∙◌, ◌↔◌, Bool, true, arith}
use native.Mathlib.Decide.{dec_lt}
use yloc.External.Bitset.{Bitset, count_below}
use yloc.Affinity.{is_contained_in, is_containing}

count_below-le :
    (p q : ℕ → Bool) (n : ℕ)
    → ((i : ℕ) → i < n → p i ≡ true → q i ≡ true)
    → count_below p n ≤ count_below q n
count_below-le p q zero h = omega arith
count_below-le p q (suc n) h =
    ground (arith, count_below-le p q n (λ i l. h i (omega arith)), h n (omega arith))

count_below-same :
    (p q : ℕ → Bool) (n : ℕ) → ((i : ℕ) → i < n → p i ≡ q i) → count_below p n ≡ count_below q n
count_below-same p q zero h = refl
count_below-same p q (suc n) h =
    rw (h n (omega arith), count_below-same p q n (λ i l. h i (omega arith)))

count_below-eq :
    (p q : ℕ → Bool) (n : ℕ)
    → ((i : ℕ) → i < n → p i ≡ true → q i ≡ true)
    → count_below p n ≡ count_below q n
    → (i : ℕ) → i < n
    → p i ≡ q i
count_below-eq p q zero h e i l = elim l [ ]
count_below-eq p q (suc n) h e i l =
    let below = λ (j : ℕ) (k : j < n). h j (omega arith) in
    let le = count_below-le p q n below in
    let here : p n ≡ q n = ground (arith, h n (omega arith)) in
    elim (dec_lt i n) [
      | yes k ↦ count_below-eq p q n below (ground arith) i k
      | no k ↦ let same : i ≡ n = omega arith in rw same here
    ]

module _ (bits : Bitset) (nprocs : ℕ) where
  open bits use {Bits, size, test, count, test-and, size-and, eq_iff, count_lem}

  -- Over masks of the same size, one is contained in the other exactly when each of its bits is set
  -- in the other too.
  is_contained_in_iff :
      (a b : Bits)
      → size a ≡ nprocs
      → size b ≡ nprocs
      → (is_contained_in bits a b ≡ true)
        ↔ ((i : ℕ) → i < nprocs → test a i ≡ true → test b i ≡ true)
  unfolding is_contained_in
  is_contained_in_iff a b ha hb = (
    λ h i l on.
        let (_, same) = (eq_iff (bits.and b a) a).0 h in
        ground (
          arith,
          same i (omega (arith, size-and b a (omega arith))),
          test-and b a i (omega arith) (omega arith),
        ),
    λ h. (eq_iff (bits.and b a) a).1 (
      size-and b a (omega arith) ∙ hb ∙ sym ha,
      λ i l.
          let l' : i < nprocs = omega (arith, size-and b a (omega arith)) in
          ground (arith, test-and b a i (omega arith) (omega arith), h i l'),
    ),
  )

  -- Over masks of the same size, a mask is contained in another exactly when each of its bits is set in the
  -- other too, and a mask contains another exactly when each bit of the other is set in it too.
  pub is_containing_iff :
      (a b : Bits)
      → size a ≡ nprocs
      → size b ≡ nprocs
      → ((is_contained_in bits a b ≡ true)
          ↔ ((i : ℕ) → i < nprocs → test a i ≡ true → test b i ≡ true))
        × ((is_containing bits a b ≡ true)
            ↔ ((i : ℕ) → i < nprocs → test b i ≡ true → test a i ≡ true))
  unfolding is_containing
  is_containing_iff a b ha hb = (is_contained_in_iff a b ha hb, is_contained_in_iff b a hb ha)

  -- A mask has at most as many bits set as one that contains it, and as many exactly when they are equal.
  pub is_containing-count :
      (a b : Bits)
      → size a ≡ nprocs
      → size b ≡ nprocs
      → is_containing bits a b ≡ true
      → (count b ≤ count a) × ((count b ≡ count a) ↔ (bits.eq b a ≡ true))
  unfolding is_containing
  is_containing-count a b ha hb h =
      let sub = (is_contained_in_iff b a hb ha).0 h in
      let na : count a ≡ count_below (test a) nprocs = rw (← ha) (count_lem a) in
      let nb : count b ≡ count_below (test b) nprocs = rw (← hb) (count_lem b) in
      (
        rw (na, nb) (count_below-le (test b) (test a) nprocs sub),
        (
          λ e. (eq_iff b a).1 (
            hb ∙ sym ha,
            λ i l. count_below-eq (test b) (test a) nprocs sub (sym nb ∙ e ∙ na) i (omega arith),
          ),
          λ e.
              nb
              ∙ count_below-same (test b) (test a) nprocs
                  (λ i l. ((eq_iff b a).0 e).1 i (omega arith))
              ∙ sym na,
        ),
      )
