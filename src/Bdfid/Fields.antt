-- ===== src/Bdfid/Fields.antt =====
-- The fields of an identifier are the fields of the address that it was made from.
use yloc.Prelude.{ℕ, ◌+◌, ◌*◌, ◌%◌, ◌^◌, ◌<◌, ◌≡◌, ◌∙◌, bit_or, bit_or_disjoint, arith, ◌↔◌}
use yloc.Bdfid.{PciAddress, hwloc_bdfid, nvml_bdfid, bdfid_fields}

-- The disjunctions of an identifier are sums, since the fields share no bit.
upper_sum :
    (d b v : ℕ)
    → bit_or (bit_or (d % 2 ^ 32 * 2 ^ 32) (b % 2 ^ 8 * 2 ^ 8)) (v % 2 ^ 5 * 2 ^ 3)
      ≡ ((d % 2 ^ 32 * 2 ^ 24 + b % 2 ^ 8) * 2 ^ 5 + v % 2 ^ 5) * 2 ^ 3
upper_sum d b v =
    let bus : bit_or (d % 2 ^ 32 * 2 ^ 32) (b % 2 ^ 8 * 2 ^ 8)
        ≡ (d % 2 ^ 32 * 2 ^ 24 + b % 2 ^ 8) * 2 ^ 8 =
      bit_or_disjoint 32 (d % 2 ^ 32) (b % 2 ^ 8 * 2 ^ 8) (omega arith) ∙ omega arith in
    rw bus (
      bit_or_disjoint 8 (d % 2 ^ 32 * 2 ^ 24 + b % 2 ^ 8) (v % 2 ^ 5 * 2 ^ 3) (omega arith)
      ∙ omega arith)

hwloc_sum :
    (a : PciAddress)
    → hwloc_bdfid a
      ≡ ((a.domain % 2 ^ 32 * 2 ^ 24 + a.bus % 2 ^ 8) * 2 ^ 5 + a.device % 2 ^ 5) * 2 ^ 3
        + a.function % 2 ^ 3
unfolding hwloc_bdfid
hwloc_sum a = rw (upper_sum a.domain a.bus a.device) (
    bit_or_disjoint 3 ((a.domain % 2 ^ 32 * 2 ^ 24 + a.bus % 2 ^ 8) * 2 ^ 5 + a.device % 2 ^ 5)
      (a.function % 2 ^ 3) (omega arith))

-- The fields of a PCI address fit the widths that an identifier has for them.
pub record IsInRange (a : PciAddress) : Type 0 where
  pub domain_fits : a.domain < 2 ^ 32
  pub bus_fits : a.bus < 2 ^ 8
  pub device_fits : a.device < 2 ^ 5
  pub function_fits : a.function < 2 ^ 3

-- The identifier that hwloc's adapter packs fits 64 bits, and the fields that are taken out of it are
-- those of the address, if they are in range. So two devices at different addresses have different
-- identifiers.
pub hwloc_bdfid_round_trip :
    (a : PciAddress) → IsInRange a → (hwloc_bdfid a < 2 ^ 64) × (bdfid_fields (hwloc_bdfid a) ≡ a)
unfolding bdfid_fields
hwloc_bdfid_round_trip a h = rw (hwloc_sum a) (omega arith, ground arith)

-- The identifiers of the NVML module and of hwloc's adapter agree, so that both modules find the same
-- vertex for a device, exactly when the device's function is zero modulo 8.
pub nvml_bdfid_iff : (a : PciAddress) → (nvml_bdfid a ≡ hwloc_bdfid a) ↔ (a.function % 2 ^ 3 ≡ 0)
unfolding nvml_bdfid
nvml_bdfid_iff a =
    rw (hwloc_sum a, upper_sum a.domain a.bus a.device) (λ e. omega arith, λ e. omega arith)
