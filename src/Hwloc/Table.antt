-- ===== src/Hwloc/Table.antt =====
-- hwloc_2_yloc_type of modules/hwloc/init_graph.cc as a table.
use mathlib.Core.Path.{fun_ext}
use yloc.Prelude.{
  ℕ, ◌≡◌, refl, sym, ap, ◌∙◌, ◌↔◌, Bool, true, Option, none, some, of_some, Result, ok, fault, ℤ,
  pos, negsuc, zero, suc, ◌==◌, ==_iff, List, [], ◌∷◌, get_elem?, Bool-cases, inl, inr,
}
use yloc.ComponentTypes.{ComponentType}
use yloc.External.Hwloc.{
  Hwloc, HwlocObjType, HwlocInfo, HwlocAttr, documented_icache, documented_dcache,
  documented_memory, machine, obj_package, core, pu, l1_cache, l2_cache, l3_cache, l4_cache,
  l5_cache, l1_icache, l2_icache, l3_icache, group, numa_node, bridge, pci_device, os_device, misc,
  memcache, die,
}
use yloc.Hwloc.Adapter.{is_zero}
use yloc.Hwloc.Types.{osdev_component, type_by_tests, same_type, hwloc_2_yloc_type}

-- The table that the chain of tests stands for.
abbrev pub component_table : HwlocObjType → Option HwlocAttr → Result ComponentType
component_table machine attr = ok ComponentType.node
component_table core attr = ok ComponentType.physical_core
component_table pu attr = ok ComponentType.logical_core
component_table l1_cache attr = ok ComponentType.l1_data_cache
component_table l2_cache attr = ok ComponentType.l2_data_cache
component_table l3_cache attr = ok ComponentType.l3_data_cache
component_table l4_cache attr = ok ComponentType.l4_data_cache
component_table l5_cache attr = ok ComponentType.data_cache
component_table l1_icache attr = ok ComponentType.l1_instruction_cache
component_table l2_icache attr = ok ComponentType.l2_instruction_cache
component_table l3_icache attr = ok ComponentType.l3_instruction_cache
component_table numa_node attr = ok ComponentType.memory
component_table memcache attr = ok ComponentType.memory
component_table bridge attr = ok ComponentType.bridge
component_table pci_device attr = ok ComponentType.pci_device
component_table os_device (some a) = ok (osdev_component a.osdev_type)
component_table os_device none = fault
component_table obj_package attr = ok ComponentType.misc
component_table group attr = ok ComponentType.misc
component_table misc attr = ok ComponentType.misc
component_table die attr = ok ComponentType.misc

unfoldable pub place : HwlocObjType → ℕ
place machine = 0
place obj_package = 1
place core = 2
place pu = 3
place l1_cache = 4
place l2_cache = 5
place l3_cache = 6
place l4_cache = 7
place l5_cache = 8
place l1_icache = 9
place l2_icache = 10
place l3_icache = 11
place group = 12
place numa_node = 13
place bridge = 14
place pci_device = 15
place os_device = 16
place misc = 17
place memcache = 18
place die = 19

all_types : List HwlocObjType
all_types =
    machine ∷ obj_package ∷ core ∷ pu ∷ l1_cache ∷ l2_cache ∷ l3_cache ∷ l4_cache ∷ l5_cache
    ∷ l1_icache ∷ l2_icache ∷ l3_icache ∷ group ∷ numa_node ∷ bridge ∷ pci_device ∷ os_device ∷ misc
    ∷ memcache ∷ die ∷ []

type_at_place : (t : HwlocObjType) → get_elem? all_types (place t) ≡ some t
unfolding place all_types
type_at_place machine = refl
type_at_place _ = refl

pub obj_type_eq_iff : (s t : HwlocObjType) → ((place s == place t) ≡ true) ↔ (s ≡ t)
obj_type_eq_iff s t = (
  λ e. of_some (
      sym (type_at_place s)
      ∙ ap (get_elem? all_types) ((==_iff (place s) (place t)).0 e)
      ∙ type_at_place t),
  λ e. (==_iff (place s) (place t)).1 (ap place e),
)

-- `s == t`
abbrev pub obj_type_eq : HwlocObjType → HwlocObjType → Bool
obj_type_eq s t = place s == place t

is_zero_iff : (n : ℤ) → (is_zero n ≡ true) ↔ (n ≡ pos 0)
is_zero_iff (pos zero) = (λ _. refl, λ _. refl)
is_zero_iff (pos (suc n)) = (λ e. cc, λ e. cc)
is_zero_iff (negsuc n) = (λ e. cc, λ e. cc)

same_type-place : (hw : Hwloc) (s t : HwlocObjType) → same_type hw s t ≡ (place s == place t)
same_type-place hw s t = elim (Bool-cases (place s == place t)) [
  | inl e ↦
      rw e (
        (is_zero_iff (hw.compare_types s t)).1 ((hw.compare_iff s t).1 ((obj_type_eq_iff s t).0 e)))
  | inr e ↦ elim (Bool-cases (same_type hw s t)) [
    | inl f ↦ cc (
      e,
      (obj_type_eq_iff s t).1 ((hw.compare_iff s t).0 ((is_zero_iff (hw.compare_types s t)).0 f)),
    )
    | inr f ↦ f ∙ sym e
  ]
]

type_by_documented :
    (t : HwlocObjType) (attr : Option HwlocAttr)
    → type_by_tests documented_icache documented_dcache documented_memory
        (λ s u. place s == place u)
        t
        attr
      ≡ component_table t attr
unfolding type_by_tests place
type_by_documented os_device (some a) = refl
type_by_documented os_device none = refl
type_by_documented machine attr = refl
type_by_documented _ attr = refl

-- The type of every hwloc object is that of the table: an instruction cache, a data or unified cache,
-- a memory object or an OS device by its kind, whatever comes later in the chain of tests. The assert
-- at the end of the chain fails exactly for an OS device without attributes.
pub hwloc_2_yloc_type-table :
    (hw : Hwloc) {Cpus : Type 0} (obj : HwlocInfo Cpus)
    → hwloc_2_yloc_type hw obj ≡ component_table obj.type obj.attr
unfolding hwloc_2_yloc_type
hwloc_2_yloc_type-table hw obj =
    rw (fun_ext hw.icache_lem, fun_ext hw.dcache_lem, fun_ext hw.memory_lem)
      (ap
          (λ f.
            type_by_tests documented_icache documented_dcache documented_memory f obj.type obj.attr)
          (fun_ext λ s. fun_ext λ t. same_type-place hw s t)
        ∙ type_by_documented obj.type obj.attr)
