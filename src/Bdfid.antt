-- ===== src/Bdfid.antt =====
-- Bus device function identifiers, BDFID = ((DOMAIN & 0xffffffff) << 32) | ((BUS & 0xff) << 8) |
-- ((DEVICE & 0x1f) << 3) | (FUNCTION & 0x7): HwlocAdapter::bdfid of modules/hwloc/hwloc_adapter.h,
-- bdfid_get of modules/nvml/nvml_util.h and print_bdfid of modules/rocm/rocm_util.h. `x & (2^k - 1)`
-- is written `x % 2^k`, `x << k` is `x * 2^k` and `x >> k` is `x / 2^k`; no shift leaves 64 bits.
pub mod Fields
use yloc.Prelude.{ℕ, ◌*◌, ◌/◌, ◌%◌, ◌^◌, bit_or}

pub record PciAddress : Type 0 where
  pub domain : ℕ
  pub bus : ℕ
  pub device : ℕ
  pub function : ℕ

-- HwlocAdapter::bdfid, of the members of hwloc's pcidev attribute.
unfoldable pub hwloc_bdfid : PciAddress → ℕ
hwloc_bdfid a =
    bit_or
      (bit_or (bit_or (a.domain % 2 ^ 32 * 2 ^ 32) (a.bus % 2 ^ 8 * 2 ^ 8))
        (a.device % 2 ^ 5 * 2 ^ 3))
      (a.function % 2 ^ 3)

-- bdfid_get of the NVML module, which takes the function for zero.
unfoldable pub nvml_bdfid : PciAddress → ℕ
nvml_bdfid a =
    bit_or (bit_or (a.domain % 2 ^ 32 * 2 ^ 32) (a.bus % 2 ^ 8 * 2 ^ 8)) (a.device % 2 ^ 5 * 2 ^ 3)

-- The fields that print_bdfid takes out of an identifier.
unfoldable pub bdfid_fields : ℕ → PciAddress
bdfid_fields n = record {
  domain = n / 2 ^ 32 % 2 ^ 32;
  bus = n / 2 ^ 8 % 2 ^ 8;
  device = n / 2 ^ 3 % 2 ^ 5;
  function = n % 2 ^ 3;
}
