-- ===== src/Tests/Objects.antt =====
-- An hwloc whose types are compared by their places, and a topology with a processor and a PCI device.
use yloc.Prelude.{
  ℕ, ◌≡◌, refl, ◌↔◌, Option, none, some, List, [], ◌∷◌, codes, ℤ, pos, if◌then◌else◌, Bool-cases,
  inl, inr,
}
use yloc.External.Hwloc.{
  Hwloc, HwlocObjType, HwlocInfo, HwlocAttr, HwlocObj, node, nil, cons, documented_icache,
  documented_dcache, documented_memory, machine, core, pci_device, os_device, osdev_gpu,
}
use yloc.Hwloc.Table.{obj_type_eq, obj_type_eq_iff}

abbrev compare_places : HwlocObjType → HwlocObjType → ℤ
compare_places s t = if obj_type_eq s t then pos 0 else pos 1

pub compare_places_iff : (s t : HwlocObjType) → (compare_places s t ≡ pos 0) ↔ (s ≡ t)
compare_places_iff s t = (
  λ e. elim (Bool-cases (obj_type_eq s t)) [
    | inl f ↦ (obj_type_eq_iff s t).0 f
    | inr f ↦ cc (rw f at e)
  ],
  λ e. rw ((obj_type_eq_iff s t).1 e) refl,
)

abbrev pub listed_hwloc : Hwloc
listed_hwloc = record {
  type_is_icache = documented_icache;
  type_is_dcache = documented_dcache;
  type_is_cache = documented_dcache;
  type_is_memory = documented_memory;
  type_is_io = λ t. obj_type_eq t os_device;
  compare_types = compare_places;
  type_string = λ t. if obj_type_eq t core then codes "Core" else codes "Other";
  api_version = 131840;
  header_version = 131328;
  icache_lem = λ t. refl;
  dcache_lem = λ t. refl;
  memory_lem = λ t. refl;
  compare_iff = compare_places_iff;
}

abbrev pub attributes : HwlocAttr
attributes = record {
  cache_size = 0;
  local_memory = 0;
  pci_domain = 0;
  pci_bus = 3;
  pci_dev = 1;
  pci_func = 0;
  osdev_type = osdev_gpu;
}

abbrev pub object : HwlocObjType → Option HwlocAttr → HwlocInfo (List ℕ)
object t a = record { type = t; attr = a; cpuset = some (0 ∷ []) }

abbrev pub gpu_object : HwlocInfo (List ℕ)
gpu_object = object os_device (some attributes)

-- A core, and a PCI device with an OS device below it, below the machine.
abbrev pub machine_tree : HwlocObj (List ℕ)
machine_tree = node (object machine none) (
    cons (node (object core none) nil)
      (cons (node (object pci_device (some attributes)) (cons (node gpu_object nil) nil)) nil))
