-- ===== src/Nvml/Pci.antt =====
-- The vertices that the assert of ModuleNvml (modules/nvml/nvml_impl.cc) asks for: those of PCI devices.
use yloc.Prelude.{
  ℕ, ◌<◌, ◌≡◌, sym, ap, ◌∙◌, ◌⊎◌, inl, inr, true, Text, some, of_some, find_key, Option-cases,
  Bool-cases,
}
use yloc.ComponentTypes.{pci_device}
use yloc.GraphElement.{is_a}
use yloc.Graph.{BoostGraph, Graph, num_vertices, vertex_at}
use yloc.Graph.WellFormed.{IsWellFormed}

module _ {Mask : Type 0} {boost : BoostGraph Mask} where
  -- The identifier stands for a vertex that is a PCI device.
  pub record IsPci (g : Graph boost) (id : Text) : Type 0 where
    pub vertex : ℕ
    pub found : find_key id g.m_identifier_map ≡ some vertex
    pub is_pci : is_a (vertex_at g vertex) pci_device ≡ true

  pub IsPci-cases : (g : Graph boost) (id : Text) → IsPci g id ⊎ ¬ IsPci g id
  IsPci-cases g id = elim (Option-cases (find_key id g.m_identifier_map)) [
    | inl e ↦ inr (λ p. cc (e, p.found))
    | inr (v, e) ↦ elim (Bool-cases (is_a (vertex_at g v) pci_device)) [
      | inl e1 ↦ inl (record { vertex = v; found = e; is_pci = e1 })
      | inr e1 ↦ inr (λ p.
          let same : v ≡ p.vertex = of_some (sym e ∙ p.found) in
          cc (p.is_pci, e1, ap (λ x. is_a (vertex_at g x) pci_device) same))
    ]
  ]

  -- No vertex was added, and the same ones are PCI devices.
  pub record SamePci (g h : Graph boost) : Type 0 where
    pub same_map : h.m_identifier_map ≡ g.m_identifier_map
    pub same_pci :
        (v : ℕ)
        → v < num_vertices g
        → is_a (vertex_at h v) pci_device ≡ is_a (vertex_at g v) pci_device

  pub SamePci-IsPci :
      (g h : Graph boost) (id : Text) → IsWellFormed g → SamePci g h → IsPci g id → IsPci h id
  SamePci-IsPci g h id w s p = record {
    vertex = p.vertex;
    found = rw s.same_map p.found;
    is_pci = s.same_pci p.vertex (w.ids_in_range id p.vertex p.found) ∙ p.is_pci;
  }

  pub SamePci-IsPci_back :
      (g h : Graph boost) (id : Text) → IsWellFormed g → SamePci g h → IsPci h id → IsPci g id
  SamePci-IsPci_back g h id w s p =
      let f : find_key id g.m_identifier_map ≡ some p.vertex = rw (← s.same_map) p.found in
      record {
        vertex = p.vertex;
        found = f;
        is_pci = sym (s.same_pci p.vertex (w.ids_in_range id p.vertex f)) ∙ p.is_pci;
      }
