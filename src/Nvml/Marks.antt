-- ===== src/Nvml/Marks.antt =====
-- What init_graph of the NVML module (modules/nvml/nvml_impl.cc) does to the topology graph.
use yloc.Prelude.{
  ℕ, ◌<◌, ◌≡◌, refl, subst, sym, ap, ◌∙◌, inl, inr, true, false, Text, some, find_key, ok, fault,
  arith, Option-cases, Bool-cases, ◌==◌, ==_iff, if◌then◌else◌,
}
use yloc.Bdfid.{PciAddress, nvml_bdfid}
use yloc.ComponentTypes
use yloc.ComponentTypes.{ComponentType, pci_device, gpu}
use yloc.Adapter.{Adapter}
use yloc.GraphElement.{Vertex, new_element, add_adapter, is_a}
use yloc.Graph.{BoostGraph, Graph, num_vertices, vertex_at, modify, add_vertex}
use yloc.Graph.WellFormed.{IsWellFormed}
use yloc.Graph.Identifiers.{registered}
use yloc.Graph.Reaches.{Reaches, named-Reaches, here-Reaches, modify-Reaches}
use yloc.Graph.Vertices.{
  vertex_at-modify_self, vertex_at-modify_other, vertex_at-add_vertex_new, num-modify, map-modify,
  modify_keeps,
}
use yloc.External.Nvml.{Nvml}
use yloc.Hwloc.Build.{bdfid_id}
use yloc.Interconnect.Gpus.{HasGpu, add_adapter-Memᴰ, add_adapter_kept, set_index, Marked}
use yloc.Nvml.Adapter.{nvml_adapter}
use yloc.Nvml.Build.{set_gpu, add_device}
use yloc.Nvml.Pci.{IsPci, SamePci}

new_is_no_pci : (Mask : Type 0) → is_a (new_element {Mask = Mask}) pci_device ≡ false
unfolding is_a ComponentTypes.is_a
new_is_no_pci Mask = refl

module _ (nvml : Nvml) {Mask : Type 0} {boost : BoostGraph Mask} where
  -- The vertex of a device after a round of the loop.
  abbrev pub mark : Graph boost → ℕ → nvml.Device → Graph boost
  mark g vd d = modify (modify g vd (λ v. add_adapter v (nvml_adapter nvml d))) vd set_gpu

  pub mark-Reaches :
      (g : Graph boost) (vd : ℕ) (d : nvml.Device)
      → vd < num_vertices g
      → Reaches g (mark g vd d, vd)
  mark-Reaches g vd d l =
      let h = modify g vd (λ v. add_adapter v (nvml_adapter nvml d)) in
      modify-Reaches g h vd set_gpu
        (modify-Reaches g g vd (λ v. add_adapter v (nvml_adapter nvml d)) (here-Reaches g vd l))

  attached_is_a :
      (g : Graph boost) (vd v : ℕ) (d : nvml.Device) (c : ComponentType)
      → vd < num_vertices g
      → v < num_vertices g
      → is_a (vertex_at (modify g vd (λ v. add_adapter v (nvml_adapter nvml d))) v) c
        ≡ is_a (vertex_at g v) c
  unfolding is_a add_adapter
  attached_is_a g vd v d c l m =
      modify_keeps (λ x. is_a x c) g vd v (λ v. add_adapter v (nvml_adapter nvml d)) l m (λ x. refl)

  mark_self :
      (g : Graph boost) (vd : ℕ) (d : nvml.Device)
      → vd < num_vertices g
      → vertex_at (mark g vd d) vd ≡ set_gpu (add_adapter (vertex_at g vd) (nvml_adapter nvml d))
  mark_self g vd d l =
      let f = λ (v : Vertex Mask). add_adapter v (nvml_adapter nvml d) in
      vertex_at-modify_self (modify g vd f) vd set_gpu (omega (arith, l, num-modify g vd f))
      ∙ ap set_gpu (vertex_at-modify_self g vd f l)

  mark_other :
      (g : Graph boost) (vd v : ℕ) (d : nvml.Device)
      → vd < num_vertices g
      → v < num_vertices g
      → (vd == v) ≡ false
      → vertex_at (mark g vd d) v ≡ vertex_at g v
  mark_other g vd v d l m e =
      let f = λ (v : Vertex Mask). add_adapter v (nvml_adapter nvml d) in
      let n = num-modify g vd f in
      vertex_at-modify_other (modify g vd f) vd v set_gpu (omega (arith, l, n))
        (omega (arith, m, n)) e
      ∙ vertex_at-modify_other g vd v f l m e

  -- A GPU stays one, with its adapters.
  mark_kept :
      (g : Graph boost) (vd v : ℕ) (d : nvml.Device) (a : Adapter Mask)
      → vd < num_vertices g
      → v < num_vertices g
      → HasGpu a (vertex_at g v)
      → HasGpu a (vertex_at (mark g vd d) v)
  mark_kept g vd v d a l m e = elim (Bool-cases (vd == v)) [
    | inl same ↦
        let at : vd ≡ v = (==_iff vd v).0 same in
        subst (λ w. HasGpu a (vertex_at (mark g vd d) w)) at
          (subst (HasGpu a) (sym (mark_self g vd d l))
            (refl, add_adapter_kept (vertex_at g vd) (nvml_adapter nvml d) a (rw at e.1)))
    | inr other ↦ subst (HasGpu a) (sym (mark_other g vd v d l m other)) e
  ]

  pub mark-SamePci :
      (g : Graph boost) (vd : ℕ) (d : nvml.Device)
      → vd < num_vertices g
      → is_a (vertex_at g vd) pci_device ≡ true
      → SamePci g (mark g vd d)
  unfolding is_a ComponentTypes.is_a
  mark-SamePci g vd d l e = record {
    same_map =
        let f = λ (v : Vertex Mask). add_adapter v (nvml_adapter nvml d) in
        map-modify (modify g vd f) vd set_gpu ∙ map-modify g vd f;
    same_pci = λ v m. elim (Bool-cases (vd == v)) [
      | inl same ↦
          let at : vd ≡ v = (==_iff vd v).0 same in
          ap (λ w. is_a (vertex_at (mark g vd d) w) pci_device) (sym at)
          ∙ ap (λ x. is_a x pci_device) (mark_self g vd d l)
          ∙ sym e
          ∙ ap (λ x. is_a (vertex_at g x) pci_device) at
      | inr other ↦ ap (λ x. is_a x pci_device) (mark_other g vd v d l m other)
    ];
  }

-- The devices of NVML with their addresses.
module _ (nvml : Nvml) (device : ℕ → nvml.Device) (address : ℕ → PciAddress) where
  abbrev pub id : ℕ → Text
  id i = bdfid_id (nvml_bdfid (address i))

  -- The devices below `n` have handles and addresses.
  pub record IsListed (n : ℕ) : Type 0 where
    pub handles : (i : ℕ) → i < n → nvml.device_handle_by_index i ≡ some (device i)
    pub addresses : (i : ℕ) → i < n → nvml.device_pci_info (device i) ≡ some (address i)

  module _ {Mask : Type 0} {boost : BoostGraph Mask} (n : ℕ) (listed : IsListed n) where
    add_device_listed :
        (i : ℕ) (g : Graph boost) (vertices : ℕ → ℕ)
        → i < n
        → add_device nvml i (g, vertices) ≡ (
            let (g1, vd) = add_vertex (id i) g in
            let g2 = modify g1 vd (λ v. add_adapter v (nvml_adapter nvml (device i))) in
            if is_a (vertex_at g2 vd) pci_device
            then ok (modify g2 vd set_gpu, set_index vertices i vd)
            else fault)
    unfolding add_device nvml_adapter
    add_device_listed i g vertices l = rw (listed.handles i l, listed.addresses i l) refl

    -- A device whose identifier stands for a PCI device passes the round, and becomes a GPU.
    pub add_device-ok :
        (i : ℕ) (g : Graph boost) (vertices : ℕ → ℕ) (p : IsPci g (id i))
        → i < n
        → IsWellFormed g
        → add_device nvml i (g, vertices)
          ≡ ok (mark nvml g p.vertex (device i), set_index vertices i p.vertex)
    add_device-ok i g vertices p l w =
        let m = w.ids_in_range (id i) p.vertex p.found in
        add_device_listed i g vertices l
        ∙ rw (registered g (id i) p.found)
            (rw (attached_is_a nvml g p.vertex p.vertex (device i) pci_device m m, p.is_pci) refl)

    pub add_device-Marked :
        (i : ℕ) (g : Graph boost) (vertices : ℕ → ℕ) (p : IsPci g (id i))
        → IsWellFormed g
        → Marked id
            (λ j. nvml_adapter nvml (device j))
            i
            1
            g
            vertices
            (mark nvml g p.vertex (device i))
            (set_index vertices i p.vertex)
    add_device-Marked i g vertices p w =
        let vd = p.vertex in
        let m = w.ids_in_range (id i) vd p.found in
        let own : set_index vertices i vd i ≡ vd = rw ((==_iff i i).1 refl) refl in
        record {
          changes = (mark-Reaches nvml g vd (device i) m).changes;
          found = λ j l r.
              let same : j ≡ i = omega (arith, l, r) in
              rw (same, own, (mark-SamePci nvml g vd (device i) m p.is_pci).same_map) p.found;
          gpus = λ j l r.
              let same : j ≡ i = omega (arith, l, r) in
              rw (same, own)
                (subst (HasGpu (nvml_adapter nvml (device i)))
                  (sym (mark_self nvml g vd (device i) m))
                  (refl, add_adapter-Memᴰ (vertex_at g vd) (nvml_adapter nvml (device i))));
          marks_kept = λ j l. let other : (i == j) ≡ false = ground arith in rw other refl;
          gpus_kept = λ a v l e. mark_kept nvml g vd v (device i) a m l e;
        }

    -- Any other device fails the assertion.
    pub add_device-fault :
        (i : ℕ) (g : Graph boost) (vertices : ℕ → ℕ)
        → i < n
        → IsWellFormed g
        → ¬ IsPci g (id i)
        → add_device nvml i (g, vertices) ≡ fault
    add_device-fault i g vertices l w refuted =
        elim (Option-cases (find_key (id i) g.m_identifier_map)) [
          | inl e ↦
              let r = named-Reaches g (id i) w in
              add_device_listed i g vertices l
              ∙ rw
                  (
                    attached_is_a nvml (add_vertex (id i) g).0 (add_vertex (id i) g).1
                        (add_vertex (id i) g).1 (device i) pci_device r.in_range r.in_range,
                    vertex_at-add_vertex_new g (id i) e,
                  )
                  (rw (new_is_no_pci Mask) refl)
          | inr (v, e) ↦
              let m = w.ids_in_range (id i) v e in
              elim (Bool-cases (is_a (vertex_at g v) pci_device)) [
                | inl e1 ↦ absurd (refuted (record { vertex = v; found = e; is_pci = e1 }))
                | inr e1 ↦
                    add_device_listed i g vertices l
                    ∙ rw (registered g (id i) e)
                        (rw (attached_is_a nvml g v v (device i) pci_device m m, e1) refl)
              ]
        ]
