-- ===== src/Hwloc/Described.antt =====
-- The vertex that modules/hwloc/init_graph.cc adds for an object: its contents, and that it can be
-- asked for its mask.
use yloc.Prelude.{
  ℕ, suc, ◌<◌, ◌≡◌, refl, sym, ap, ◌∙◌, subst, List, [], ◌∷◌, Memᴰ, true, false, none, some, Text,
  find_key, text_eq, ok, Bool-cases, Option-cases, inl, inr, ◌==◌, ==_iff, arith,
}
use yloc.ComponentTypes
use yloc.ComponentTypes.{ComponentType}
use yloc.Property.{value_as}
use yloc.Adapter.{shared_map}
use yloc.GraphElement.{Vertex, new_element, add_adapter, get, first_value}
use yloc.Graph.{
  BoostGraph, Graph, num_vertices, vertex_at, modify, add_vertex, add_unnamed_vertex,
  set_root_vertex,
}
use yloc.Graph.Vertices.{num-modify, AllHold, vertex_at-modify_other, vertex_at-modify_self}
use yloc.External.Bitset.{Bitset}
use yloc.External.CpuSets.{Bitmap}
use yloc.External.Hwloc.{Hwloc, HwlocInfo, pci_device}
use yloc.Affinity.Bitmaps.{of_bitmap_online}
use yloc.Bdfid.{hwloc_bdfid}
use yloc.Hwloc.Adapter.{pci_address, hwloc_adapter, cpu_affinity_mask}
use yloc.Hwloc.Build.{bdfid_id, adapter_of, child_vertex, pci_vertex, describe, set_type}
use yloc.Hwloc.Total.{HasAttributes, bdfid_known}
use yloc.Hwloc.Table.{obj_type_eq_iff}
use yloc.Hwloc.Devices.{device_id, Fresh, named-Fresh, unnamed-Fresh}
use yloc.Mpi.Readable.{Reads}

module _ (bits : Bitset) (nprocs : ℕ) (bitmap : Bitmap) (hw : Hwloc)
    (boost : BoostGraph bits.Bits) where
  -- The processors of an object are online.
  abbrev pub IsOnline : HwlocInfo bitmap.Carrier → Type 0
  IsOnline obj =
      (s : bitmap.Carrier) → obj.cpuset ≡ some s → (i : ℕ) → bitmap.is_set s i ≡ true → i < nprocs

  pub adapters-set_type :
      (t : ComponentType) (x : Vertex bits.Bits) → (set_type t x).m_adapters ≡ x.m_adapters
  adapters-set_type t x =
      elim (Bool-cases (ComponentTypes.type_eq x.m_type ComponentType.unknown_component_type)) [
        | inl e ↦ rw e refl
        | inr e ↦ rw e refl
      ]

  -- A vertex with the adapter of an object alone can be asked for its mask.
  pub adapter-Reads :
      (obj : HwlocInfo bitmap.Carrier) (x : Vertex bits.Bits)
      → x.m_adapters ≡ adapter_of bits nprocs bitmap hw boost obj ∷ []
      → IsOnline obj
      → Reads x
  unfolding get shared_map find_key text_eq first_value value_as hwloc_adapter cpu_affinity_mask
  adapter-Reads obj x only on = elim (Option-cases obj.cpuset) [
    | inl e ↦ (none, rw (only, e) refl)
    | inr (s, e) ↦
        let (m, f, _, _) = of_bitmap_online bits nprocs bitmap s (on s e) in
        (some m, rw (only, e, f) refl)
  ]

  pub described-Reads :
      (obj : HwlocInfo bitmap.Carrier) (t : ComponentType)
      → IsOnline obj
      → Reads (set_type t (describe (adapter_of bits nprocs bitmap hw boost obj) new_element))
  unfolding add_adapter
  described-Reads obj t =
      let v = describe (adapter_of bits nprocs bitmap hw boost obj) new_element in
      adapter-Reads obj (set_type t v) (adapters-set_type t v)

  -- A graph with one vertex more than another, and the contents of it.
  pub record Written (g : Graph boost) (c : ℕ) (k : Graph boost) (x : Vertex bits.Bits)
      : Type 0 where
    pub descriptor : c ≡ num_vertices g
    pub size : num_vertices k ≡ suc (num_vertices g)
    pub others : (v : ℕ) → v < num_vertices g → vertex_at k v ≡ vertex_at g v
    pub contents : vertex_at k c ≡ x

  pub Fresh-Written :
      {g : Graph boost} {ids : List Text} {r : Graph boost × ℕ}
      → Fresh g ids r
      → Written g r.1 r.0 new_element
  Fresh-Written f = record {
    descriptor = f.descriptor;
    size = f.size;
    others = f.others;
    contents = f.blank;
  }

  pub modify-Written :
      (g k : Graph boost) (c : ℕ) (x : Vertex bits.Bits) (f : Vertex bits.Bits → Vertex bits.Bits)
      → Written g c k x
      → Written g c (modify k c f) (f x)
  modify-Written g k c x f h =
      let inside : c < num_vertices k = omega (arith, h.descriptor, h.size) in
      record {
        descriptor = h.descriptor;
        size = num-modify k c f ∙ h.size;
        others = λ v l.
            let apart : (c == v) ≡ false = ground (arith, h.descriptor) in
            vertex_at-modify_other k c v f inside (omega (arith, l, h.size)) apart ∙ h.others v l;
        contents = vertex_at-modify_self k c f inside ∙ ap f h.contents;
      }

  pub rooted-Written :
      (g k : Graph boost) (c v : ℕ) (x : Vertex bits.Bits)
      → Written g c k x
      → Written g c (set_root_vertex k v) x
  unfolding set_root_vertex
  rooted-Written g k c v x h = record {
    descriptor = h.descriptor;
    size = h.size;
    others = h.others;
    contents = h.contents;
  }

  pub Written-AllHold :
      (P : Vertex bits.Bits → Type 0) (g k : Graph boost) (c : ℕ) (x : Vertex bits.Bits)
      → Written g c k x
      → P x
      → AllHold P g
      → AllHold P k
  Written-AllHold P g k c x h new r v l = elim (Bool-cases (v == c)) [
    | inl e ↦ subst (λ w. P (vertex_at k w)) (sym ((==_iff v c).0 e)) (subst P (sym h.contents) new)
    | inr e ↦
        let old : v < num_vertices g = ground (arith, l, h.size, h.descriptor) in
        subst P (sym (h.others v old)) (r v old)
  ]

  Fresh-more :
      {g : Graph boost} {r : Graph boost × ℕ} (ids : List Text) → Fresh g [] r → Fresh g ids r
  Fresh-more ids f = record {
    descriptor = f.descriptor;
    size = f.size;
    others = f.others;
    blank = f.blank;
    new_ids = λ id e n. f.new_ids id e (λ m. elim m [ ]);
  }

  -- An object whose identifier is not in the graph is given a new vertex.
  pub child_vertex-Fresh :
      (g : Graph boost) (obj : HwlocInfo bitmap.Carrier) (t : ComponentType)
      → HasAttributes obj
      → (ComponentTypes.is_a t ComponentType.pci_device ≡ true → obj.type ≡ pci_device)
      → ((id : Text) → Memᴰ id (device_id obj) → find_key id g.m_identifier_map ≡ none)
      → (r : Graph boost × ℕ) × (child_vertex bits nprocs bitmap hw boost t g obj ≡ ok r)
        × Fresh g (device_id obj) r
  unfolding child_vertex pci_vertex device_id
  child_vertex-Fresh g obj t has pci free =
      elim (Bool-cases (ComponentTypes.is_a t ComponentType.pci_device)) [
        | inl e ↦
            let (a, attr, f) = bdfid_known bits nprocs bitmap hw boost obj has (pci e) in
            let id = bdfid_id (hwloc_bdfid (pci_address a)) in
            let own : device_id obj ≡ id ∷ [] =
              rw ((obj_type_eq_iff obj.type pci_device).1 (pci e), attr) refl in
            let new = free id (subst (Memᴰ id) (sym own) (Memᴰ.head refl)) in
            (
              add_vertex id g,
              rw (child_vertex, pci_vertex, e, f),
              subst (λ ids. Fresh g ids (add_vertex id g)) (sym own) (named-Fresh g id new),
            )
        | inr e ↦ (
          add_unnamed_vertex g,
          rw (child_vertex, e),
          Fresh-more (device_id obj) (unnamed-Fresh g),
        )
      ]
