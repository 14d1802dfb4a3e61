-- ===== src/Hwloc/Types.antt =====
-- hwloc_2_yloc_type of modules/hwloc/init_graph.cc: the component type of an hwloc object.
use yloc.Prelude.{Bool, true, false, ◌&&◌, Option, none, some, Result, ok, fault, if◌then◌else◌}
use yloc.ComponentTypes.{ComponentType}
use yloc.External.Hwloc.{
  Hwloc, HwlocObjType, HwlocInfo, HwlocAttr, OsdevType, machine, obj_package, core, pu, l1_cache,
  l2_cache, l3_cache, l4_cache, l1_icache, l2_icache, l3_icache, group, numa_node, bridge,
  pci_device, os_device, misc, memcache, die, osdev_block, osdev_gpu, osdev_network,
  osdev_openfabrics, osdev_dma, osdev_coproc,
}
use yloc.Hwloc.Adapter.{is_zero}

-- The switch over the kinds of OS devices; its default, which asserts, is for none of the kinds of hwloc 2.
unfoldable pub osdev_component : OsdevType → ComponentType
osdev_component osdev_gpu = ComponentType.logical_gpu
osdev_component osdev_coproc = ComponentType.logical_accelerator
osdev_component osdev_dma = ComponentType.misc
osdev_component osdev_network = ComponentType.misc
osdev_component osdev_openfabrics = ComponentType.misc
osdev_component osdev_block = ComponentType.misc

abbrev pub has_attr : Option HwlocAttr → Bool
has_attr (some a) = true
has_attr none = false

osdev_type_of : Option HwlocAttr → Result ComponentType
unfolding osdev_component
osdev_type_of (some a) = ok (osdev_component a.osdev_type)
osdev_type_of none = fault

-- The chain of tests, over the tests that hwloc provides; `same s t` is `!hwloc_compare_types(s, t)`.
module _ (is_icache is_dcache is_memory : HwlocObjType → Bool)
    (same : HwlocObjType → HwlocObjType → Bool) (type : HwlocObjType)
    (attr : Option HwlocAttr) where
  icache_type : ComponentType
  icache_type =
      if same type l1_icache
      then ComponentType.l1_instruction_cache
      else if same type l2_icache
      then ComponentType.l2_instruction_cache
      else if same type l3_icache
      then ComponentType.l3_instruction_cache
      else ComponentType.instruction_cache

  dcache_type : ComponentType
  dcache_type =
      if same type l1_cache
      then ComponentType.l1_data_cache
      else if same type l2_cache
      then ComponentType.l2_data_cache
      else if same type l3_cache
      then ComponentType.l3_data_cache
      else if same type l4_cache
      then ComponentType.l4_data_cache
      else ComponentType.data_cache

  other_type : Result ComponentType
  other_type =
      if same type core
      then ok ComponentType.physical_core
      else if same type pu
      then ok ComponentType.logical_core
      else if same type machine
      then ok ComponentType.node
      else if same type obj_package
      then ok ComponentType.misc
      else if same type numa_node
      then ok ComponentType.memory
      else if same type group
      then ok ComponentType.misc
      else if same type misc
      then ok ComponentType.misc
      else if same type memcache
      then ok ComponentType.misc
      else if same type bridge
      then ok ComponentType.bridge
      else if same type pci_device
      then ok ComponentType.pci_device
      else if same type die
      then ok ComponentType.misc
      else fault

  unfoldable pub type_by_tests : Result ComponentType
  unfolding icache_type dcache_type other_type osdev_type_of
  type_by_tests =
      if is_icache type
      then ok icache_type
      else if is_dcache type
      then ok dcache_type
      else if is_memory type
      then ok ComponentType.memory
      else if same type os_device && has_attr attr
      then osdev_type_of attr
      else other_type

module _ (hw : Hwloc) where
  abbrev pub same_type : HwlocObjType → HwlocObjType → Bool
  same_type s t = is_zero (hw.compare_types s t)

  unfoldable pub hwloc_2_yloc_type : {Cpus : Type 0} → HwlocInfo Cpus → Result ComponentType
  unfolding type_by_tests
  hwloc_2_yloc_type obj =
      type_by_tests hw.type_is_icache hw.type_is_dcache hw.type_is_memory same_type obj.type
        obj.attr
