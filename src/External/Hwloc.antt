-- ===== src/External/Hwloc.antt =====
-- The hwloc library: the object types that modules/hwloc/init_graph.cc lists, the objects that its
-- topology consists of, and the functions that classify the types.
use yloc.Prelude.{ℕ, ◌≡◌, ◌↔◌, Bool, true, false, Option, Text, ℤ, pos}

-- hwloc_obj_type_t
pub data HwlocObjType : Type 0 where
  machine obj_package core pu l1_cache l2_cache l3_cache l4_cache l5_cache : HwlocObjType
  l1_icache l2_icache l3_icache group numa_node bridge pci_device : HwlocObjType
  os_device misc memcache die : HwlocObjType

-- hwloc_obj_osdev_type_t
pub data OsdevType : Type 0 where
  osdev_block osdev_gpu osdev_network osdev_openfabrics osdev_dma osdev_coproc : OsdevType

-- hwloc_obj_attr_u: what each member of the union reads as.
pub record HwlocAttr : Type 0 where
  pub cache_size : ℕ
  pub local_memory : ℕ
  pub pci_domain : ℕ
  pub pci_bus : ℕ
  pub pci_dev : ℕ
  pub pci_func : ℕ
  pub osdev_type : OsdevType

-- hwloc_obj, with null pointers as `none`. `Cpus` is the type of bitmaps.
pub record HwlocInfo (Cpus : Type 0) : Type 0 where
  pub type : HwlocObjType
  pub attr : Option HwlocAttr
  pub cpuset : Option Cpus

-- An object with the children that hwloc_get_next_child goes through, in its order.
mutual
  pub data HwlocObj (Cpus : Type 0) : Type 0 where
    node : HwlocInfo Cpus → HwlocObjs Cpus → HwlocObj Cpus

  pub data HwlocObjs (Cpus : Type 0) : Type 0 where
    nil : HwlocObjs Cpus
    cons : HwlocObj Cpus → HwlocObjs Cpus → HwlocObjs Cpus

-- CPU instruction caches; CPU data and unified caches; memory objects.
abbrev pub documented_icache : HwlocObjType → Bool
documented_icache l1_icache = true
documented_icache l2_icache = true
documented_icache l3_icache = true
documented_icache _ = false

abbrev pub documented_dcache : HwlocObjType → Bool
documented_dcache l1_cache = true
documented_dcache l2_cache = true
documented_dcache l3_cache = true
documented_dcache l4_cache = true
documented_dcache l5_cache = true
documented_dcache _ = false

abbrev pub documented_memory : HwlocObjType → Bool
documented_memory numa_node = true
documented_memory memcache = true
documented_memory _ = false

pub record Hwloc : Type 0 where
  pub type_is_icache : HwlocObjType → Bool
  pub type_is_dcache : HwlocObjType → Bool
  pub type_is_cache : HwlocObjType → Bool
  pub type_is_memory : HwlocObjType → Bool
  pub type_is_io : HwlocObjType → Bool
  pub compare_types : HwlocObjType → HwlocObjType → ℤ
  pub type_string : HwlocObjType → Text
  -- hwloc_get_api_version(), and HWLOC_API_VERSION of the header
  pub api_version : ℕ
  pub header_version : ℕ
  pub icache_lem : (t : HwlocObjType) → type_is_icache t ≡ documented_icache t
  pub dcache_lem : (t : HwlocObjType) → type_is_dcache t ≡ documented_dcache t
  pub memory_lem : (t : HwlocObjType) → type_is_memory t ≡ documented_memory t
  -- The result is zero for equal types and for no others.
  pub compare_iff : (s t : HwlocObjType) → (compare_types s t ≡ pos 0) ↔ (s ≡ t)
