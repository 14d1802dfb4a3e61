-- ===== src/Hwloc/Total.antt =====
-- Which trees of objects init_graph of modules/hwloc/init_graph.cc builds a graph from without a
-- failing assert, a null pointer or an empty optional.
use yloc.Prelude.{
  Option-cases, Result-cases, ℕ, ◌≡◌, refl, ap, ◌∙◌, Bool, true, false, Option, none, some, Result,
  ok, fault, Bool-cases, inl, inr,
}
use yloc.ComponentTypes
use yloc.ComponentTypes.{ComponentType}
use yloc.Graph.{BoostGraph, Graph, modify, add_vertex, add_unnamed_vertex, add_child}
use yloc.External.Bitset.{Bitset}
use yloc.External.CpuSets.{Bitmap}
use yloc.External.Hwloc.{
  Hwloc, HwlocObjType, HwlocInfo, HwlocAttr, OsdevType, HwlocObj, HwlocObjs, node, nil, cons,
  pci_device, os_device, osdev_gpu, machine,
}
use yloc.Hwloc.Adapter.{hwloc_adapter, bdfid, pci_address}
use yloc.Bdfid.{hwloc_bdfid}
use yloc.Hwloc.Types.{hwloc_2_yloc_type, has_attr, osdev_component}
use yloc.Hwloc.Table.{component_table, hwloc_2_yloc_type-table}
use yloc.Hwloc.Build.{
  adapter_of, describe, set_type, make_hwloc_graph, make_children, attach_child, child_vertex,
  pci_vertex, bdfid_id,
}

-- OS devices and PCI devices are looked up in their attributes.
abbrev needs_attr : HwlocObjType → Bool
needs_attr os_device = true
needs_attr pci_device = true
needs_attr _ = false

-- What hwloc promises of the objects of a topology.
abbrev pub HasAttributes : {Cpus : Type 0} → HwlocInfo Cpus → Type 0
HasAttributes obj = needs_attr obj.type ≡ true → has_attr obj.attr ≡ true

unfoldable mutual
  pub IsSupported : {Cpus : Type 0} → HwlocObj Cpus → Type 0
  IsSupported (node obj children) = AreSupported children

  pub AreSupported : {Cpus : Type 0} → HwlocObjs Cpus → Type 0
  AreSupported nil = Unit
  AreSupported (cons (node obj children) rest) =
      HasAttributes obj × AreSupported children × AreSupported rest

-- Whether there is a type, and whether it is that of a PCI device.
abbrev is_known : Result ComponentType → Bool
is_known (ok t) = true
is_known fault = false

abbrev is_pci : Result ComponentType → Bool
is_pci (ok t) = ComponentTypes.is_a t ComponentType.pci_device
is_pci fault = false

table_known :
    (t : HwlocObjType) (attr : Option HwlocAttr)
    → (needs_attr t ≡ true → has_attr attr ≡ true)
    → is_known (component_table t attr) ≡ true
table_known os_device (some a) h = refl
table_known os_device none h = cc (h refl)
table_known machine attr h = refl
table_known _ attr h = refl

osdev_no_pci : (o : OsdevType) → is_pci (ok (osdev_component o)) ≡ false
unfolding osdev_component ComponentTypes.is_a ComponentTypes.derives_within ComponentTypes.bases
    ComponentTypes.index
osdev_no_pci osdev_gpu = refl
osdev_no_pci _ = refl

table_pci :
    (t : HwlocObjType) (attr : Option HwlocAttr)
    → is_pci (component_table t attr) ≡ true
    → t ≡ pci_device
unfolding ComponentTypes.is_a ComponentTypes.derives_within ComponentTypes.bases
    ComponentTypes.index
table_pci os_device (some a) e = cc (e, osdev_no_pci a.osdev_type)
table_pci os_device none e = cc e
table_pci pci_device attr e = refl
table_pci machine attr e = cc e
table_pci _ attr e = cc e

module _ (bits : Bitset) (nprocs : ℕ) (bitmap : Bitmap) (hw : Hwloc)
    (boost : BoostGraph bits.Bits) where
  pub type_known :
      (obj : HwlocInfo bitmap.Carrier)
      → HasAttributes obj
      → (t : ComponentType) × (hwloc_2_yloc_type hw obj ≡ ok t)
        × (ComponentTypes.is_a t ComponentType.pci_device ≡ true → obj.type ≡ pci_device)
  type_known obj has =
      let e = hwloc_2_yloc_type-table hw obj in
      elim (Result-cases (component_table obj.type obj.attr)) [
        | inl f ↦ cc (f, table_known obj.type obj.attr has)
        | inr (t, f) ↦ (t, e ∙ f, λ pci. table_pci obj.type obj.attr (ap is_pci f ∙ pci))
      ]

  -- A PCI device has a BDFID, that of its attributes.
  pub bdfid_known :
      (obj : HwlocInfo bitmap.Carrier)
      → HasAttributes obj
      → obj.type ≡ pci_device
      → (a : HwlocAttr) × (obj.attr ≡ some a)
        × ((adapter_of bits nprocs bitmap hw boost obj).bdfid
            ≡ ok (some (hwloc_bdfid (pci_address a))))
  unfolding hwloc_adapter bdfid
  bdfid_known obj has e =
      let same = (hw.compare_iff obj.type pci_device).1 e in
      elim (Option-cases obj.attr) [
        | inl f ↦ cc (ap has_attr f, has (ap needs_attr e))
        | inr (a, f) ↦ (a, f, rw (hwloc_adapter, bdfid, same, f))
      ]

  child_vertex_total :
      (t : ComponentType) (g : Graph boost) (obj : HwlocInfo bitmap.Carrier)
      → HasAttributes obj
      → (ComponentTypes.is_a t ComponentType.pci_device ≡ true → obj.type ≡ pci_device)
      → (r : Graph boost × ℕ) × (child_vertex bits nprocs bitmap hw boost t g obj ≡ ok r)
  unfolding child_vertex pci_vertex
  child_vertex_total t g obj has pci =
      elim (Bool-cases (ComponentTypes.is_a t ComponentType.pci_device)) [
        | inl e ↦
            let (a, _, f) = bdfid_known obj has (pci e) in
            (
              add_vertex (bdfid_id (hwloc_bdfid (pci_address a))) g,
              rw (child_vertex, pci_vertex, e, f),
            )
        | inr e ↦ (add_unnamed_vertex g, rw (child_vertex, e))
      ]

  attach_child_total :
      (g : Graph boost) (vd : ℕ) (obj : HwlocInfo bitmap.Carrier)
      → HasAttributes obj
      → (r : Graph boost × ℕ) × (attach_child bits nprocs bitmap hw boost g vd obj ≡ ok r)
  unfolding attach_child
  attach_child_total g vd obj has =
      let (t, e, pci) = type_known obj has in
      let ((g1, c), f) = child_vertex_total t g obj has pci in
      let a = adapter_of bits nprocs bitmap hw boost obj in
      (
        (add_child vd c (modify (modify g1 c (describe a)) c (set_type t)), c),
        rw (attach_child, e, f),
      )

  mutual
    unfolding make_hwloc_graph AreSupported

    pub graph_total :
        (g : Graph boost) (vd : ℕ) (obj : HwlocObj bitmap.Carrier)
        → IsSupported obj
        → (h : Graph boost) × (make_hwloc_graph bits nprocs bitmap hw boost g vd obj ≡ ok h)
    graph_total g vd (node obj children) s = children_total g vd children s

    children_total :
        (g : Graph boost) (vd : ℕ) (objs : HwlocObjs bitmap.Carrier)
        → AreSupported objs
        → (h : Graph boost) × (make_children bits nprocs bitmap hw boost g vd objs ≡ ok h)
    children_total g vd nil s = (g, refl)
    children_total g vd (cons (node obj children) rest) (has, below, behind) =
        let ((g1, c), e1) = attach_child_total g vd obj has in
        let (g2, e2) = children_total g1 c children below in
        let (g3, e3) = children_total g2 vd rest behind in (g3, rw (make_children, e1, e2) e3)
