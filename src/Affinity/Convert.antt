-- ===== src/Affinity/Convert.antt =====
-- Conversions of src/include/yloc/affinity.h.
use yloc.Prelude.{ℕ, zero, suc, ◌≤◌, ◌<◌, ◌≡◌, sym, ◌∙◌, true, false, ltb, if◌then◌else◌, arith}
use yloc.External.Bitset.{Bitset}
use yloc.External.CpuSets.{CpuSet}
use yloc.Affinity.{for_cpu, of_cpu_set, to_cpu_set}

module _ (bits : Bitset) (nprocs : ℕ) where
  open bits use {Bits, zeros, size, test, assign, size-zeros, test-zeros, size-assign, test-assign}

  module _ (c : CpuSet) (mask : c.Carrier) where
    abbrev copy_bits : ℕ → Bits
    copy_bits n = for_cpu n (λ cpu m. assign m cpu (c.is_set mask cpu)) (zeros nprocs)

    size-copy_bits : (n : ℕ) → n ≤ nprocs → size (copy_bits n) ≡ nprocs
    unfolding for_cpu
    size-copy_bits zero h = size-zeros nprocs
    size-copy_bits (suc n) h =
        let s = size-copy_bits n (omega arith) in
        size-assign (copy_bits n) n (c.is_set mask n) (omega arith) ∙ s

    test-copy_bits :
        (n i : ℕ)
        → n ≤ nprocs
        → i < nprocs
        → test (copy_bits n) i ≡ (if ltb i n then c.is_set mask i else false)
    unfolding for_cpu
    test-copy_bits zero i h l = test-zeros nprocs i l ∙ ground arith
    test-copy_bits (suc n) i h l =
        let s = size-copy_bits n (omega arith) in
        ground (
          arith,
          test-assign (copy_bits n) n (c.is_set mask n) i (omega arith) (omega arith),
          test-copy_bits n i (omega arith) l,
        )

    -- A mask that is built from a CPU set has one bit for each online processor, and each is set
    -- exactly where the CPU is in the set.
    pub of_cpu_set_lem :
        (size (of_cpu_set bits nprocs c mask) ≡ nprocs)
        × ((i : ℕ) → i < nprocs → test (of_cpu_set bits nprocs c mask) i ≡ c.is_set mask i)
    unfolding of_cpu_set
    of_cpu_set_lem = (
      size-copy_bits nprocs (omega arith),
      λ i l. ground (arith, test-copy_bits nprocs i (omega arith) l),
    )

  module _ (c : CpuSet) (m : Bits) (room : (i : ℕ) → i < nprocs → c.fits i ≡ true) where
    abbrev collect : ℕ → c.Carrier
    collect n = for_cpu n (λ cpu s. if test m cpu then c.set_bit s cpu else s) c.cpu_zero

    is_set-collect :
        (n i : ℕ)
        → n ≤ nprocs
        → c.fits i ≡ true
        → c.is_set (collect n) i ≡ (if ltb i n then test m i else false)
    unfolding for_cpu
    is_set-collect zero i h f = c.is_set-zero i f ∙ ground arith
    is_set-collect (suc n) i h f = ground (
      arith,
      c.is_set-set_bit (collect n) n i (room n (omega arith)) f,
      is_set-collect n i (omega arith) f,
    )

    -- The CPU set that a mask is turned into holds exactly the CPUs of the mask's bits, if it has
    -- room for all online processors.
    pub to_cpu_set_lem :
        (i : ℕ)
        → c.fits i ≡ true
        → c.is_set (to_cpu_set bits nprocs c m) i ≡ (if ltb i nprocs then test m i else false)
    unfolding to_cpu_set
    to_cpu_set_lem i f = is_set-collect nprocs i (omega arith) f

    -- A mask that is turned into a CPU set and back is the same mask, if the CPU set has room for
    -- all online processors.
    pub of_cpu_set-to_cpu_set :
        size m ≡ nprocs → bits.eq (of_cpu_set bits nprocs c (to_cpu_set bits nprocs c m)) m ≡ true
    of_cpu_set-to_cpu_set h =
        let (s, t) = of_cpu_set_lem c (to_cpu_set bits nprocs c m) in
        (bits.eq_iff _ m).1 (
          s ∙ sym h,
          λ i l. t i (omega arith) ∙ to_cpu_set_lem i (room i (omega arith)) ∙ ground arith,
        )
