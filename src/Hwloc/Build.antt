-- ===== src/Hwloc/Build.antt =====
-- How modules/hwloc/init_graph.cc builds the topology graph from hwloc's objects.
use yloc.Prelude.{
  ℕ, ◌/◌, ◌^◌, ◌++◌, [], Bool, Option, none, some, Text, codes, to_string, Result, ok, fault, ◌>>=◌,
  if◌then◌else◌, ◌==◌, ◌∷◌,
}
use yloc.Status.{Status, success, init_error}
use yloc.ComponentTypes
use yloc.ComponentTypes.{ComponentType, type_eq, unknown_component_type}
use yloc.Adapter.{Adapter}
use yloc.GraphElement.{Vertex, add_adapter}
use yloc.Graph.{
  BoostGraph, Graph, modify, add_unnamed_vertex, add_vertex, set_root_vertex, add_child,
}
use yloc.External.Bitset.{Bitset}
use yloc.External.CpuSets.{Bitmap}
use yloc.External.Hwloc.{Hwloc, HwlocInfo, HwlocObj, HwlocObjs, node, nil, cons, machine}
use yloc.Hwloc.Adapter.{hwloc_adapter}
use yloc.Hwloc.Types.{hwloc_2_yloc_type}
use yloc.Hwloc.Table.{obj_type_eq}

abbrev is_empty : Text → Bool
is_empty [] = Bool.true
is_empty (c ∷ s) = Bool.false

module _ {Mask : Type 0} where
  -- `if (m_description.empty()) m_description = adapter->to_string(); add_adapter(adapter);`
  abbrev pub describe : Adapter Mask → Vertex Mask → Vertex Mask
  describe a v =
      add_adapter (if is_empty v.m_description then record v { m_description = a.name } else v) a

  -- `if (m_type == UnknownComponentType::ptr()) m_type = t;`
  abbrev pub set_type : ComponentType → Vertex Mask → Vertex Mask
  set_type t v = if type_eq v.m_type unknown_component_type then record v { m_type = t } else v

abbrev pub bdfid_id : ℕ → Text
bdfid_id n = codes "bdfid:" ++ to_string n

abbrev pub machine_id : Text → Text
machine_id hostname = codes "machine:" ++ hostname

-- `value()` of an optional, which throws where it is empty.
abbrev pub value : {A : Type 0} → Option A → Result A
value (some a) = ok a
value none = fault

module _ (bits : Bitset) (nprocs : ℕ) (bitmap : Bitmap) (hw : Hwloc)
    (boost : BoostGraph bits.Bits) where
  abbrev pub Info : Type 0
  Info = HwlocInfo bitmap.Carrier

  abbrev pub adapter_of : Info → Adapter bits.Bits
  adapter_of obj = hwloc_adapter bits nprocs bitmap hw obj

  -- A PCI device is found by its BDFID, anything else is a vertex of its own.
  unfoldable pub pci_vertex : Graph boost → Info → Result (Graph boost × ℕ)
  pci_vertex g child = do
    found ← (adapter_of child).bdfid
    n ← value found
    ok (add_vertex (bdfid_id n) g)

  unfoldable pub child_vertex : ComponentType → Graph boost → Info → Result (Graph boost × ℕ)
  unfolding pci_vertex
  child_vertex t g child =
      if ComponentTypes.is_a t ComponentType.pci_device
      then pci_vertex g child
      else ok (add_unnamed_vertex g)

  -- One round of the loop over the children, up to the recursive call.
  unfoldable pub attach_child : Graph boost → ℕ → Info → Result (Graph boost × ℕ)
  unfolding child_vertex
  attach_child g vd child = do
    t ← hwloc_2_yloc_type hw child
    (g1, child_vd) ← child_vertex t g child
    let g2 = modify g1 child_vd (describe (adapter_of child))
    let g3 = modify g2 child_vd (set_type t)
    ok (add_child vd child_vd g3, child_vd)

  abbrev pub info_of : HwlocObj bitmap.Carrier → Info
  info_of (node obj children) = obj

  unfoldable mutual
    unfolding attach_child

    pub make_hwloc_graph : Graph boost → ℕ → HwlocObj bitmap.Carrier → Result (Graph boost)
    make_hwloc_graph g vd (node obj children) = make_children g vd children

    pub make_children : Graph boost → ℕ → HwlocObjs bitmap.Carrier → Result (Graph boost)
    make_children g vd nil = ok g
    make_children g vd (cons child rest) = do
      (g1, child_vd) ← attach_child g vd (info_of child)
      g2 ← make_hwloc_graph g1 child_vd child
      make_children g2 vd rest

  -- `version >> 16` of the running library and of the header
  unfoldable pub check_hwloc_api_version : Status
  check_hwloc_api_version =
      if hw.api_version / 2 ^ 16 == hw.header_version / 2 ^ 16 then success else init_error

  -- init_graph behind the check of the version: the root vertex, and the objects below it. The type of
  -- the root is needed only if the vertex has none yet.
  unfoldable pub build :
      Text → HwlocObj bitmap.Carrier → Graph boost → Result (Graph boost × Status)
  build hostname root g = do
    t ← hwloc_2_yloc_type hw (info_of root)
    let (g1, root_vd) = add_vertex (machine_id hostname) g
    let g2 = modify g1 root_vd (λ v. record v { m_description = hostname })
    let g3 = set_root_vertex g2 root_vd
    let g4 = modify g3 root_vd (λ v. add_adapter v (adapter_of (info_of root)))
    let g5 = modify g4 root_vd (set_type t)
    g6 ← make_hwloc_graph g5 root_vd root
    ok (g6, success)

  -- `ModuleHwloc::init_graph`; `hostname` is what gethostname writes, and `root` the loaded topology.
  unfoldable pub init_graph :
      Text → HwlocObj bitmap.Carrier → Graph boost → Result (Graph boost × Status)
  init_graph hostname root g = elim check_hwloc_api_version [
    | success ↦ if obj_type_eq (info_of root).type machine then build hostname root g else fault
    | failed ↦ ok (g, failed)
  ]
