-- ===== src/Nvml/Init.antt =====
-- What init_graph of the NVML module (modules/nvml/nvml_impl.cc) leaves, or that it stops.
use yloc.Prelude.{
  ℕ, zero, suc, Text, ap, ◌>>=◌, ◌+◌, ◌<◌, ◌≤◌, ◌≡◌, refl, sym, subst, ◌∙◌, ◌⊎◌, inl, inr, some, ok,
  fault, arith, Bool-cases, ◌==◌, ==_iff,
}
use yloc.Status.{success}
use yloc.Bdfid.{PciAddress}
use yloc.Graph.{BoostGraph, Graph}
use yloc.Graph.WellFormed.{IsWellFormed}
use yloc.Graph.Changes.{unchanged}
use yloc.Graph.Invariants.{Changes-IsWellFormed}
use yloc.External.Nvml.{Nvml}
use yloc.Hwloc.Build.{value}
use yloc.Interconnect.{yloc_nvml_gpu_interconnect}
use yloc.Interconnect.Gpus.{set_index, Marked, Marked-join, IsGpuGraph, link_all-IsGpuGraph}
use yloc.Adapter.{Adapter}
use yloc.Nvml.Adapter.{nvml_adapter}
use yloc.Nvml.Build.{nvlink, add_device, add_devices, init_graph}
use yloc.Nvml.Pci.{IsPci, IsPci-cases, SamePci, SamePci-IsPci, SamePci-IsPci_back}
use yloc.Nvml.Marks.{
  mark, mark-Reaches, mark-SamePci, id, IsListed, add_device-ok, add_device-Marked,
  add_device-fault,
}

module _ (nvml : Nvml) (device : ℕ → nvml.Device) (address : ℕ → PciAddress) where
  abbrev ident : ℕ → Text
  ident i = id nvml device address i

  abbrev adapter_of : {Mask : Type 0} → ℕ → Adapter Mask
  adapter_of j = nvml_adapter nvml (device j)

  module _ {Mask : Type 0} {boost : BoostGraph Mask} (n : ℕ)
      (listed : IsListed nvml device address n) where
    -- The loop over the devices ended, and marked each of them.
    record Ended (i left : ℕ) (g : Graph boost) (vertices : ℕ → ℕ) : Type 0 where
      all_pci : (j : ℕ) → i ≤ j → j < i + left → IsPci g (ident j)
      graph : Graph boost
      marks : ℕ → ℕ
      runs : add_devices nvml left i (g, vertices) ≡ ok (graph, marks)
      marked : Marked ident adapter_of i left g vertices graph marks

    -- The loop stopped at a device without a vertex that is a PCI device.
    record Stopped (i left : ℕ) (g : Graph boost) (vertices : ℕ → ℕ) : Type 0 where
      device_index : ℕ
      from : i ≤ device_index
      below : device_index < i + left
      refuted : ¬ IsPci g (ident device_index)
      runs : add_devices nvml left i (g, vertices) ≡ fault

    -- A round that passes, and the rounds after it.
    next_round :
        (left i : ℕ) (g : Graph boost) (vertices : ℕ → ℕ) (h : Graph boost) (next : ℕ → ℕ)
        → IsPci g (ident i)
        → IsWellFormed h
        → SamePci g h
        → IsWellFormed g
        → add_device nvml i (g, vertices) ≡ ok (h, next)
        → Marked ident adapter_of i 1 g vertices h next
        → Stopped (suc i) left h next ⊎ Ended (suc i) left h next
        → Stopped i (suc left) g vertices ⊎ Ended i (suc left) g vertices
    unfolding add_devices
    next_round left i g vertices h next p w' same w e m (inl s) = inl (record {
      device_index = s.device_index;
      from = omega (arith, s.from);
      below = omega (arith, s.below);
      refuted = λ q. s.refuted (SamePci-IsPci g h (ident s.device_index) w same q);
      runs = rw e s.runs;
    })
    next_round left i g vertices h next p w' same w e m (inr s) = inr (record {
      all_pci = λ j a b. elim (Bool-cases (j == i)) [
        | inl f ↦ subst (λ x. IsPci g (ident x)) (sym ((==_iff j i).0 f)) p
        | inr f ↦
            SamePci-IsPci_back g h (ident j) w same (s.all_pci j (ground arith) (omega (arith, b)))
      ];
      graph = s.graph;
      marks = s.marks;
      runs = rw e s.runs;
      marked = Marked-join ident adapter_of i left g h s.graph vertices next s.marks w' m s.marked;
    })

    add_devices-outcome :
        (left i : ℕ) (g : Graph boost) (vertices : ℕ → ℕ)
        → i + left ≤ n
        → IsWellFormed g
        → Stopped i left g vertices ⊎ Ended i left g vertices
    unfolding add_devices
    add_devices-outcome zero i g vertices l w = inr (record {
      all_pci = λ j a b. absurd (omega (arith, a, b));
      graph = g;
      marks = vertices;
      runs = refl;
      marked = record {
        changes = unchanged;
        found = λ j a b. absurd (omega (arith, a, b));
        gpus = λ j a b. absurd (omega (arith, a, b));
        marks_kept = λ j a. refl;
        gpus_kept = λ b v a e. e;
      };
    })
    add_devices-outcome (suc left) i g vertices l w = elim (IsPci-cases g (ident i)) [
      | inl p ↦
          let h = mark nvml g p.vertex (device i) in
          let next = set_index vertices i p.vertex in
          let r =
            mark-Reaches nvml g p.vertex (device i) (w.ids_in_range (ident i) p.vertex p.found) in
          let w' = Changes-IsWellFormed r.changes w in
          next_round left i g vertices h next p w'
            (mark-SamePci nvml g p.vertex (device i) (w.ids_in_range (ident i) p.vertex p.found)
              p.is_pci)
            w (add_device-ok nvml device address n listed i g vertices p (omega (arith, l)) w)
            (add_device-Marked nvml device address n listed i g vertices p w)
            (add_devices-outcome left (suc i) h next (omega (arith, l)) w')
      | inr r ↦ inl (record {
        device_index = i;
        from = omega arith;
        below = omega arith;
        refuted = r;
        runs =
            rw (add_device-fault nvml device address n listed i g vertices (omega (arith, l)) w r)
              refl;
      })
    ]

    -- init_graph with the number of the devices.
    counted :
        (g : Graph boost)
        → nvml.device_count ≡ some n
        → init_graph nvml g
          ≡ add_devices nvml n 0 (g, λ _. 0)
            >>= (λ s. ok ((yloc_nvml_gpu_interconnect (nvlink nvml) s.1 n s.0).0, success))
    unfolding init_graph
    counted g e =
        ap
          (λ o. value o >>= (λ k.
            add_devices nvml {boost = boost} k 0 (g, λ _. 0)
            >>= (λ s. ok ((yloc_nvml_gpu_interconnect (nvlink nvml) s.1 k s.0).0, success))))
          e

    -- init_graph of the NVML module, where NVML lists `n` devices with their addresses and the graph
    -- is well-formed: either some device has no vertex that is found by its identifier and is a PCI
    -- device, and the program stops at the assertion; or every device has one, and init_graph succeeds
    -- with a well-formed graph in which the vertex of every device is a GPU and has its adapter, and
    -- any two devices that are connected have edges between their vertices in both directions.
    pub init_graph-outcome :
        (g : Graph boost)
        → nvml.device_count ≡ some n
        → IsWellFormed g
        → ((i : ℕ) × (i < n) × (¬ IsPci g (id nvml device address i)) × (init_graph nvml g ≡ fault))
          ⊎ (((i : ℕ) → i < n → IsPci g (id nvml device address i))
              × (h : Graph boost) × (init_graph nvml g ≡ ok (h, success))
              × IsGpuGraph
                  (id nvml device address)
                  (λ j. nvml_adapter nvml (device j))
                  n
                  (nvlink nvml)
                  g
                  h)
    unfolding yloc_nvml_gpu_interconnect
    init_graph-outcome g e w = elim (add_devices-outcome n 0 g (λ _. 0) (omega arith) w) [
      | inl s ↦
          inl (s.device_index, omega (arith, s.below), s.refuted, counted g e ∙ rw s.runs refl)
      | inr s ↦ inr (
        λ i l. s.all_pci i (omega arith) (omega (arith, l)),
        (yloc_nvml_gpu_interconnect (nvlink nvml) s.marks n s.graph).0,
        counted g e ∙ rw s.runs refl,
        link_all-IsGpuGraph ident adapter_of n (nvlink nvml) g s.graph (λ _. 0) s.marks w s.marked,
      )
    ]
