-- ===== src/Affinity.antt =====
-- AffinityMask of src/include/yloc/affinity.h: a bit set with one bit for each online processor.
pub mod Convert
pub mod Bitmaps
pub mod Containment
use yloc.Prelude.{
  ℕ, zero, suc, ◌<◌, Bool, List, [], ◌∷◌, Option, none, some, Result, ok, fault, ltb, if◌then◌else◌,
}
use yloc.External.Bitset.{Bitset}
use yloc.External.CpuSets.{CpuSet, Bitmap}

-- for (cpu = 0; cpu < n; ++cpu) s = body cpu s
unfoldable pub for_cpu : {S : Type 0} → ℕ → (ℕ → S → S) → S → S
for_cpu zero body s = s
for_cpu (suc n) body s = body n (for_cpu n body s)

module _ (bits : Bitset) where
  open bits use {Bits, and, eq}

  -- `other.is_contained_in` has the other mask on the left of `&`.
  unfoldable pub is_contained_in : Bits → Bits → Bool
  is_contained_in self other = eq (and other self) self

  unfoldable pub is_containing : Bits → Bits → Bool
  unfolding is_contained_in
  is_containing self other = is_contained_in other self

-- `m_nprocs_online` is `nprocs`.
module _ (bits : Bitset) (nprocs : ℕ) where
  open bits use {Bits, zeros, test, assign}

  -- `AffinityMask()`
  abbrev pub no_cpus : Bits
  no_cpus = zeros nprocs

  -- `AffinityMask(cpu_set_t)`
  unfoldable pub of_cpu_set : (c : CpuSet) → c.Carrier → Bits
  unfolding for_cpu
  of_cpu_set c mask = for_cpu nprocs (λ cpu m. assign m cpu (c.is_set mask cpu)) no_cpus

  -- `operator cpu_set_t()`, and the loop of `operator hwloc_bitmap_t()`
  unfoldable pub to_cpu_set : (c : CpuSet) → Bits → c.Carrier
  unfolding for_cpu
  to_cpu_set c self =
      for_cpu nprocs (λ cpu s. if test self cpu then c.set_bit s cpu else s) c.cpu_zero

  -- The loop over the indices of a bitmap; the assert refuses an index that is no online processor.
  unfoldable pub assign_indices : (c : CpuSet) → c.Carrier → List ℕ → Bits → Result Bits
  assign_indices c mask [] m = ok m
  assign_indices c mask (id ∷ ids) m =
      let rest = assign_indices c mask ids (assign m id (c.is_set mask id)) in
      if ltb id nprocs then rest else fault

  -- `AffinityMask(hwloc_bitmap_t)`; a null pointer is not caught, and the loop reads through it.
  unfoldable pub of_bitmap : (b : Bitmap) → Option b.Carrier → Result Bits
  unfolding assign_indices
  of_bitmap b none = fault
  of_bitmap b (some mask) = assign_indices b.cpus mask (b.indices mask) no_cpus

  -- `operator hwloc_bitmap_t()`; a failed allocation is not caught, and hwloc_bitmap_zero writes
  -- through the null pointer.
  to_bitmap_from : (b : Bitmap) → Option b.Carrier → Bits → Result b.Carrier
  unfolding to_cpu_set
  to_bitmap_from b none self = fault
  to_bitmap_from b (some mask) self = ok (to_cpu_set b.cpus self)

  unfoldable pub to_bitmap : (b : Bitmap) → Bits → Result b.Carrier
  unfolding to_bitmap_from
  to_bitmap b self = to_bitmap_from b b.alloc self
