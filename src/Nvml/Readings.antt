-- ===== src/Nvml/Readings.antt =====
-- The numbers that NvmlAdapter (modules/nvml/nvml_adapter.h) returns.
use yloc.Prelude.{
  ℕ, zero, suc, ◌*◌, ◌/◌, ◌%◌, ◌^◌, ◌<◌, ◌≡◌, refl, ap, ◌∙◌, Option, none, some, ok, arith,
}
use native.Mathlib.Nat.{pow-suc, pow-le-pow_right}
use mathlib.Core.Option
use yloc.Adapter.{checked}
use yloc.External.Nvml.{Nvml, clock_mem, clock_graphics}
use yloc.Nvml.Adapter.{hertz, microwatts, ffs_within, ffs, nvml_adapter}

hertz-lt : (n : ℕ) → n < 2 ^ 32 → hertz n ≡ n * 1000000
unfolding hertz
hertz-lt n h = omega (arith, h)

microwatts-lt : (n : ℕ) → n < 2 ^ 32 → microwatts n ≡ n * 1000
unfolding microwatts
microwatts-lt n h = omega (arith, h)

ffs_within-pow : (n k : ℕ) → k < n → ffs_within n (2 ^ k) ≡ suc k
unfolding ffs_within
ffs_within-pow zero k h = absurd (omega (arith, h))
ffs_within-pow (suc n) zero h = refl
ffs_within-pow (suc n) (suc k) h =
    let above = ffs_within-pow n k (omega (arith, h)) in
    let double = pow-suc 2 k in
    let half : 2 ^ suc k / 2 ≡ 2 ^ k = omega (arith, double) in
    let even : 2 ^ suc k % 2 ≡ 0 = omega (arith, double) in
    rw (ffs_within, even, half, above) (ground arith)

checked-exact :
    {A : Type 0} (f g : A → ℕ) (o : Option A)
    → ((a : A) → o ≡ some a → f a ≡ g a)
    → checked f o ≡ ok (Option.map g o)
checked-exact f g none h = refl
checked-exact f g (some a) h = rw (h a refl) refl

ffs-pow : (k : ℕ) → k < 32 → ffs (2 ^ k) ≡ suc k
unfolding ffs
ffs-pow k h =
    let fits : 2 ^ k < 2 ^ 32 = omega (
      arith,
      pow-suc 2 k,
      pow-le-pow_right {n = 2} (omega arith) {i = suc k} {j = 32} (omega (arith, h)),
      pow-le-pow_right {n = 2} (omega arith) {i = 0} {j = k} (omega arith),
    ) in
    let kept : 2 ^ k % 2 ^ 32 ≡ 2 ^ k = omega (arith, fits) in rw kept (ffs_within-pow 32 k h)

module _ (nvml : Nvml) (Mask : Type 0) where
  -- The readings of an adapter in the units that the abstract machine model asks for, without a wrap.
  pub record IsInUnits (d : nvml.Device) : Type 0 where
    pub memory_hertz :
        (nvml_adapter nvml {Mask = Mask} d).memory_frequency
        ≡ ok (Option.map (λ mhz. mhz * 1000000) (nvml.device_clock d clock_mem))
    pub graphics_hertz :
        (nvml_adapter nvml {Mask = Mask} d).frequency
        ≡ ok (Option.map (λ mhz. mhz * 1000000) (nvml.device_clock d clock_graphics))
    pub power_microwatts :
        (nvml_adapter nvml {Mask = Mask} d).power
        ≡ ok (Option.map (λ mw. mw * 1000) (nvml.device_power_usage d))

  -- The frequencies and the power of an NVML device are returned in hertz and microwatts, and no
  -- product wraps around in 64 bits; they are empty exactly where NVML has no reading. But where the
  -- set of NUMA nodes of the device is one node below 32, its affinity is one more than the number of
  -- that node.
  pub nvml_adapter-IsInUnits :
      (d : nvml.Device)
      → IsInUnits d
        × ((k : ℕ)
            → k < 32
            → nvml.device_memory_affinity d ≡ some (2 ^ k)
            → (nvml_adapter nvml {Mask = Mask} d).numa_affinity ≡ ok (some (suc k)))
  unfolding nvml_adapter
  nvml_adapter-IsInUnits d = (
    record {
      memory_hertz =
          checked-exact hertz (λ mhz. mhz * 1000000) (nvml.device_clock d clock_mem)
            (λ n f. hertz-lt n (nvml.clock_fits d clock_mem f));
      graphics_hertz =
          checked-exact hertz (λ mhz. mhz * 1000000) (nvml.device_clock d clock_graphics)
            (λ n f. hertz-lt n (nvml.clock_fits d clock_graphics f));
      power_microwatts =
          checked-exact microwatts (λ mw. mw * 1000) (nvml.device_power_usage d)
            (λ n f. microwatts-lt n (nvml.power_fits d f));
    },
    λ k h e. ap (checked ffs) e ∙ ap (λ x. ok (some x)) (ffs-pow k h),
  )
