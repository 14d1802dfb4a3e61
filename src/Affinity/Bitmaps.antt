-- ===== src/Affinity/Bitmaps.antt =====
-- The conversions between AffinityMask and hwloc_bitmap_t of src/include/yloc/affinity.h.
use yloc.Prelude.{
  ℕ, ◌≤◌, ◌<◌, ◌≡◌, refl, sym, ◌∙◌, inl, inr, true, List, [], ◌∷◌, some, ok, fault, ◌==◌, ==_iff,
  if◌then◌else◌, Memᴰ, arith, Bool-cases, any, any-true_of_Memᴰ,
}
use yloc.External.Bitset.{Bitset}
use yloc.External.CpuSets.{CpuSet, Bitmap}
use yloc.Affinity.{to_cpu_set, assign_indices, of_bitmap, to_bitmap_from, to_bitmap}
use yloc.Affinity.Convert.{to_cpu_set_lem}

module _ (bits : Bitset) (nprocs : ℕ) where
  open bits use {Bits, zeros, size, test, assign, size-zeros, test-zeros, size-assign, test-assign}

  module _ (c : CpuSet) (mask : c.Carrier) where
    assigned :
        (ids : List ℕ) (m : Bits)
        → size m ≡ nprocs
        → ((i : ℕ) → Memᴰ i ids → i < nprocs)
        → (m' : Bits) × (assign_indices bits nprocs c mask ids m ≡ ok m')
          × (size m' ≡ nprocs)
          × ((j : ℕ)
              → j < nprocs
              → test m' j ≡ (if any (λ i. i == j) ids then c.is_set mask j else test m j))
    unfolding assign_indices
    assigned [] m s h = (m, refl, s, λ j l. refl)
    assigned (id ∷ ids) m s h =
        let in_range = h id (Memᴰ.head refl) in
        let next = assign m id (c.is_set mask id) in
        let (m', e, s', t) =
          assigned ids next (size-assign m id (c.is_set mask id) (omega arith) ∙ s)
            (λ i q. h i (Memᴰ.tail q)) in
        (
          m',
          ground arith,
          s',
          λ j l.
              ground
                (arith, t j l, test-assign m id (c.is_set mask id) j (omega arith) (omega arith)),
        )

    refused :
        (ids : List ℕ) (m : Bits) {i : ℕ}
        → Memᴰ i ids
        → nprocs ≤ i
        → assign_indices bits nprocs c mask ids m ≡ fault
    unfolding assign_indices
    refused [] m q h = elim q [ ]
    refused (id ∷ ids) m (Memᴰ.head e) h = ground arith
    refused (id ∷ ids) m (Memᴰ.tail q) h =
        ground (arith, refused ids (assign m id (c.is_set mask id)) q h)

  module _ (b : Bitmap) (mask : b.Carrier) where
    -- A bitmap that holds only online processors is turned into the mask with the same bits.
    pub of_bitmap_online :
        ((i : ℕ) → b.is_set mask i ≡ true → i < nprocs)
        → (m : Bits) × (of_bitmap bits nprocs b (some mask) ≡ ok m)
          × (size m ≡ nprocs)
          × ((j : ℕ) → j < nprocs → test m j ≡ b.is_set mask j)
    unfolding of_bitmap
    of_bitmap_online h =
        let (m, e, s, t) =
          assigned b.cpus mask (b.indices mask) (zeros nprocs) (size-zeros nprocs)
            (λ i q. h i ((b.mem-indices_iff mask i).0 q)) in
        (m, e, s, λ j l. t j l ∙ from_indices j l)
      where
        from_indices :
            (j : ℕ)
            → j < nprocs
            → (if any (λ i. i == j) (b.indices mask)
                then b.is_set mask j
                else test (zeros nprocs) j)
              ≡ b.is_set mask j
        from_indices j l = elim (Bool-cases (any (λ i. i == j) (b.indices mask))) [
          | inl e ↦ rw e
          | inr e ↦ elim (Bool-cases (b.is_set mask j)) [
            | inl on ↦ absurd (
                cc (
                  e,
                  any-true_of_Memᴰ (λ i. i == j) ((b.mem-indices_iff mask j).1 on)
                      ((==_iff j j).1 refl),
                ))
            | inr off ↦ rw (e, off) (test-zeros nprocs j l)
          ]
        ]

    -- A bitmap with a CPU that is not online stops the conversion.
    pub of_bitmap_offline :
        (i : ℕ) → b.is_set mask i ≡ true → nprocs ≤ i → of_bitmap bits nprocs b (some mask) ≡ fault
    unfolding of_bitmap
    of_bitmap_offline i h l =
        refused b.cpus mask (b.indices mask) (zeros nprocs) ((b.mem-indices_iff mask i).1 h) l

  -- A mask that is turned into a bitmap and back is the same mask, if the bitmap could be allocated
  -- and bitmaps have room for every index.
  pub of_bitmap-to_bitmap :
      (b : Bitmap) (m : Bits) {fresh : b.Carrier}
      → b.alloc ≡ some fresh
      → ((i : ℕ) → b.fits i ≡ true)
      → size m ≡ nprocs
      → (mask : b.Carrier) × (m' : Bits) × (to_bitmap bits nprocs b m ≡ ok mask)
        × (of_bitmap bits nprocs b (some mask) ≡ ok m')
        × (bits.eq m' m ≡ true)
  unfolding to_bitmap
  of_bitmap-to_bitmap b m a room h =
      let mask = to_cpu_set bits nprocs b.cpus m in
      let holds = λ (i : ℕ). to_cpu_set_lem bits nprocs b.cpus m (λ j _. room j) i (room i) in
      let (m', e, s, t) = of_bitmap_online b mask (λ i on. ground (arith, holds i)) in
      (
        mask,
        m',
        rw (a, to_bitmap_from),
        e,
        (bits.eq_iff m' m).1 (s ∙ sym h, λ i l. ground (arith, t i (omega arith), holds i)),
      )
