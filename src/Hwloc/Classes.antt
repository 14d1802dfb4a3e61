-- ===== src/Hwloc/Classes.antt =====
-- The classes of the component types that modules/hwloc/init_graph.cc gives to vertices: none is an
-- accelerator, since the types of OS devices are logical ones.
use yloc.Prelude.{◌≡◌, refl, ap, sym, ◌∙◌, Bool, false, Option, none, some, Result, ok, fault}
use yloc.ComponentTypes
use yloc.ComponentTypes.{ComponentType, accelerator}
use yloc.GraphElement.{Vertex, new_element, is_a, add_adapter}
use yloc.Adapter.{Adapter}
use yloc.External.Hwloc.{
  Hwloc, HwlocObjType, HwlocInfo, HwlocAttr, OsdevType, os_device, osdev_gpu, osdev_coproc, machine,
}
use yloc.Hwloc.Types.{hwloc_2_yloc_type, osdev_component}
use yloc.Hwloc.Table.{component_table, hwloc_2_yloc_type-table}
use yloc.Hwloc.Build.{describe, set_type}

abbrev pub IsNoAccelerator : {Mask : Type 0} → Vertex Mask → Type 0
IsNoAccelerator x = is_a x accelerator ≡ false

abbrev is_accelerator : Result ComponentType → Bool
is_accelerator (ok t) = ComponentTypes.is_a t accelerator
is_accelerator fault = false

osdev_no_accelerator : (o : OsdevType) → is_accelerator (ok (osdev_component o)) ≡ false
unfolding osdev_component ComponentTypes.is_a
osdev_no_accelerator osdev_gpu = refl
osdev_no_accelerator osdev_coproc = refl
osdev_no_accelerator _ = refl

table_no_accelerator :
    (t : HwlocObjType) (attr : Option HwlocAttr) → is_accelerator (component_table t attr) ≡ false
unfolding ComponentTypes.is_a
table_no_accelerator os_device (some a) = osdev_no_accelerator a.osdev_type
table_no_accelerator os_device none = refl
table_no_accelerator machine attr = refl
table_no_accelerator _ attr = refl

pub described-IsNoAccelerator :
    (hw : Hwloc) {Cpus Mask : Type 0} (obj : HwlocInfo Cpus) (t : ComponentType) (a : Adapter Mask)
    → hwloc_2_yloc_type hw obj ≡ ok t
    → IsNoAccelerator (set_type t (describe a new_element))
unfolding is_a add_adapter ComponentTypes.index
described-IsNoAccelerator hw obj t a e =
    ap is_accelerator (sym e ∙ hwloc_2_yloc_type-table hw obj)
    ∙ table_no_accelerator obj.type obj.attr
