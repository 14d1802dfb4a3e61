-- ===== src/Interconnect/Counted.antt =====
-- How many pairs of GPUs the loops of modules/nvml/nvml_impl.cc and modules/rocm/rocm_impl.cc connect.
use yloc.Prelude.{
  ℕ, zero, suc, ◌+◌, ◌≡◌, refl, ◌∙◌, Bool, Bool-cases, inl, inr, if◌then◌else◌, arith,
}
use yloc.External.Bitset.{count_below}
use yloc.Graph.{BoostGraph, Graph}
use yloc.Interconnect.{link_pair, link_from, link_all}

-- The number of connected pairs of devices below `n`: each device with those of smaller numbers.
unfoldable pub num_pairs : (ℕ → ℕ → Bool) → ℕ → ℕ
num_pairs connected zero = 0
num_pairs connected (suc n) = num_pairs connected n + count_below (λ i. connected i n) n

-- The number of hits among `left` numbers from `start` on.
abbrev count_from : (ℕ → Bool) → ℕ → ℕ → ℕ
count_from p zero start = 0
count_from p (suc left) start = (if p start then 1 else 0) + count_from p left (suc start)

count_from-last :
    (p : ℕ → Bool) (left start end : ℕ)
    → start + left ≡ end
    → count_from p (suc left) start ≡ count_from p left start + (if p end then 1 else 0)
count_from-last p zero start end e = let same : end ≡ start = omega arith in rw same (omega arith)
count_from-last p (suc left) start end e =
    omega (arith, count_from-last p left (suc start) end (omega (arith, e)))

count_from-below : (p : ℕ → Bool) (n : ℕ) → count_from p n 0 ≡ count_below p n
count_from-below p zero = refl
count_from-below p (suc n) =
    omega (arith, count_from-last p n 0 n (omega arith), count_from-below p n)

module _ (connected : ℕ → ℕ → Bool) where
  -- The pairs in the order of the loops: each of `left` devices from `src` on with those behind it.
  abbrev rows : ℕ → ℕ → ℕ
  rows zero src = 0
  rows (suc left) src = count_from (connected src) left (suc src) + rows left (suc src)

  rows-last :
      (left src end : ℕ)
      → src + left ≡ end
      → rows (suc left) src ≡ rows left src + count_from (λ i. connected i end) left src
  rows-last zero src end e = refl
  rows-last (suc left) src end e =
      let last = count_from-last (connected src) left (suc src) end (omega (arith, e)) in
      let others = rows-last left (suc src) end (omega (arith, e)) in omega (arith, last, others)

  rows-num_pairs : (n : ℕ) → rows n 0 ≡ num_pairs connected n
  unfolding num_pairs
  rows-num_pairs zero = refl
  rows-num_pairs (suc n) = omega (
    arith,
    rows-last n 0 n (omega arith),
    rows-num_pairs n,
    count_from-below (λ i. connected i n) n,
  )

  module _ {Mask : Type 0} {boost : BoostGraph Mask} (vertices : ℕ → ℕ) where
    link_pair-counts :
        (src dst : ℕ) (s : Graph boost × ℕ)
        → (link_pair connected vertices src dst s).1 ≡ s.1 + (if connected src dst then 1 else 0)
    unfolding link_pair
    link_pair-counts src dst (g, n) = elim (Bool-cases (connected src dst)) [
      | inl e ↦ rw (link_pair, e) (omega arith)
      | inr e ↦ rw (link_pair, e) (omega arith)
    ]

    link_from-counts :
        (src left dst : ℕ) (s : Graph boost × ℕ)
        → (link_from connected vertices src left dst s).1
          ≡ s.1 + count_from (connected src) left dst
    unfolding link_from
    link_from-counts src zero dst s = omega arith
    link_from-counts src (suc left) dst s =
        link_from-counts src left (suc dst) (link_pair connected vertices src dst s)
        ∙ omega (arith, link_pair-counts src dst s)

    link_all-counts :
        (left src : ℕ) (s : Graph boost × ℕ)
        → (link_all connected vertices left src s).1 ≡ s.1 + rows left src
    unfolding link_all
    link_all-counts zero src s = omega arith
    link_all-counts (suc left) src s =
        link_all-counts left (suc src) (link_from connected vertices src left (suc src) s)
        ∙ omega (arith, link_from-counts src left (suc src) s)

    -- The loops count each connected pair once.
    pub link_all-num_pairs :
        (n : ℕ) (g : Graph boost)
        → (link_all connected vertices n 0 (g, 0)).1 ≡ num_pairs connected n
    link_all-num_pairs n g = omega (arith, link_all-counts n 0 (g, 0), rows-num_pairs n)
