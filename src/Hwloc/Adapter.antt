-- ===== src/Hwloc/Adapter.antt =====
-- HwlocAdapter of modules/hwloc/hwloc_adapter.h.
use yloc.Prelude.{
  ℕ, Bool, true, false, Option, none, some, Result, ok, fault, ◌>>=◌, ℤ, pos, negsuc, zero, suc,
  if◌then◌else◌,
}
use yloc.External.Bitset.{Bitset}
use yloc.External.CpuSets.{Bitmap}
use yloc.External.Hwloc.{Hwloc, HwlocInfo, HwlocAttr, pci_device}
use yloc.Adapter.{Adapter, base_adapter}
use yloc.Affinity.{of_bitmap}
use yloc.Bdfid.{PciAddress, hwloc_bdfid}

-- `!n`
abbrev pub is_zero : ℤ → Bool
is_zero (pos zero) = true
is_zero (pos (suc n)) = false
is_zero (negsuc n) = false

-- A member of `m_obj->attr`, which is not checked for null.
abbrev pub attr_member : Option HwlocAttr → (HwlocAttr → ℕ) → Result (Option ℕ)
attr_member (some a) f = ok (some (f a))
attr_member none f = fault

abbrev pub pci_address : HwlocAttr → PciAddress
pci_address a = record {
  domain = a.pci_domain;
  bus = a.pci_bus;
  device = a.pci_dev;
  function = a.pci_func;
}

module _ (hw : Hwloc) {Cpus : Type 0} where
  -- memory()
  unfoldable pub memory : HwlocInfo Cpus → Result (Option ℕ)
  memory obj =
      if hw.type_is_cache obj.type
      then attr_member obj.attr (λ a. a.cache_size)
      else if hw.type_is_memory obj.type
      then attr_member obj.attr (λ a. a.local_memory)
      else ok none

  -- bdfid()
  unfoldable pub bdfid : HwlocInfo Cpus → Result (Option ℕ)
  unfolding hwloc_bdfid
  bdfid obj =
      if is_zero (hw.compare_types obj.type pci_device)
      then attr_member obj.attr (λ a. hwloc_bdfid (pci_address a))
      else ok none

module _ (bits : Bitset) (nprocs : ℕ) (b : Bitmap) where
  -- cpu_affinity_mask()
  cpu_affinity_mask_of : Option b.Carrier → Result (Option bits.Bits)
  cpu_affinity_mask_of none = ok none
  cpu_affinity_mask_of (some s) = do mask ← of_bitmap bits nprocs b (some s); ok (some mask)

  unfoldable pub cpu_affinity_mask : HwlocInfo b.Carrier → Result (Option bits.Bits)
  unfolding cpu_affinity_mask_of
  cpu_affinity_mask obj = cpu_affinity_mask_of obj.cpuset

  -- `HwlocAdapter(obj)`
  unfoldable pub hwloc_adapter : Hwloc → HwlocInfo b.Carrier → Adapter bits.Bits
  hwloc_adapter hw obj = record base_adapter {
    name = hw.type_string obj.type;
    memory = memory hw obj;
    bdfid = bdfid hw obj;
    cpu_affinity_mask = cpu_affinity_mask obj;
  }
