-- ===== src/External/CpuSets.antt =====
-- The two representations of a set of CPUs that an AffinityMask is built from and turned into:
-- cpu_set_t of sched.h, with CPU_ZERO, CPU_ISSET and CPU_SET, which hold for the CPUs below
-- CPU_SETSIZE, and hwloc_bitmap_t with the hwloc_bitmap_ functions.
use yloc.Prelude.{ℕ, ◌≡◌, ◌↔◌, Bool, true, false, List, Option, ◌==◌, if◌then◌else◌, Memᴰ}

pub record CpuSet : Type 1 where
  pub Carrier : Type 0
  pub cpu_zero : Carrier
  pub is_set : Carrier → ℕ → Bool
  pub set_bit : Carrier → ℕ → Carrier
  -- Whether the representation has room for a CPU.
  pub fits : ℕ → Bool
  pub is_set-zero : (i : ℕ) → fits i ≡ true → is_set cpu_zero i ≡ false
  pub is_set-set_bit :
      (s : Carrier) (i j : ℕ)
      → fits i ≡ true
      → fits j ≡ true
      → is_set (set_bit s i) j ≡ (if i == j then true else is_set s j)

pub record Bitmap : Type 1 where
  pub cpus : CpuSet
  pub open cpus use *
  -- The indices that hwloc_bitmap_foreach_begin goes through.
  pub indices : Carrier → List ℕ
  pub mem-indices_iff : (s : Carrier) (i : ℕ) → Memᴰ i (indices s) ↔ (is_set s i ≡ true)
  -- What hwloc_bitmap_alloc returns; null where the memory is exhausted.
  pub alloc : Option Carrier
