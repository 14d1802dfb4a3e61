-- ===== src/Interconnect/Gpus.antt =====
-- The vertices that the NVML and ROCm modules give to devices, and the edges between them.
use yloc.Prelude.{
  ℕ, subst, Memᴰ, ◌∷◌, [], zero, suc, ◌+◌, ◌<◌, ◌≤◌, ◌≡◌, refl, ap, sym, ◌∙◌, ◌==◌, ==_iff,
  if◌then◌else◌, Bool, true, Text, some, find_key, Bool-cases, inl, inr, arith,
}
use yloc.ComponentTypes.{gpu}
use mathlib.Core.List.Memᴰ.{append_left, append_right}
use yloc.Adapter.{Adapter}
use yloc.GraphElement.{Vertex, add_adapter}
use yloc.Graph.{BoostGraph, Graph, num_vertices, vertex_at, has_edge}
use yloc.Graph.WellFormed.{IsWellFormed}
use yloc.Graph.Changes.{Changes, Changes-trans}
use yloc.Graph.Invariants.{Changes-IsWellFormed}
use yloc.Graph.Growth.{Changes-Extends}
use yloc.Graph.Vertices.{num-add_gpu_link, vertex_at-add_gpu_link}
use yloc.Interconnect.{link_pair, link_from, link_all}
use yloc.Interconnect.Linked.{link_all-Linked}

-- `vertices[i] = vd`
abbrev pub set_index : (ℕ → ℕ) → ℕ → ℕ → ℕ → ℕ
set_index vertices i vd j = if i == j then vd else vertices j

abbrev pub HasGpu : {Mask : Type 0} → Adapter Mask → Vertex Mask → Type 0
HasGpu a x = (x.m_type ≡ gpu) × Memᴰ a x.m_adapters

-- The adapter that was added is there, and so are those that were there before.
pub add_adapter-Memᴰ :
    {Mask : Type 0} (x : Vertex Mask) (a : Adapter Mask) → Memᴰ a (add_adapter x a).m_adapters
unfolding add_adapter
add_adapter-Memᴰ x a = append_right x.m_adapters (Memᴰ.head refl)

pub add_adapter_kept :
    {Mask : Type 0} (x : Vertex Mask) (a b : Adapter Mask)
    → Memᴰ b x.m_adapters
    → Memᴰ b (add_adapter x a).m_adapters
unfolding add_adapter
add_adapter_kept x a b m = append_left (a ∷ []) m

module _ {Mask : Type 0} {boost : BoostGraph Mask} where
  -- The number of vertices and their contents do not change.
  record SameVertices (g h : Graph boost) : Type 0 where
    pub same_number : num_vertices h ≡ num_vertices g
    pub same_contents : (v : ℕ) → vertex_at h v ≡ vertex_at g v

  SameVertices-refl : (g : Graph boost) → SameVertices g g
  SameVertices-refl g = record { same_number = refl; same_contents = λ v. refl }

  SameVertices-trans :
      (g h k : Graph boost) → SameVertices g h → SameVertices h k → SameVertices g k
  SameVertices-trans g h k a b = record {
    same_number = b.same_number ∙ a.same_number;
    same_contents = λ v. b.same_contents v ∙ a.same_contents v;
  }

  module _ (connected : ℕ → ℕ → Bool) (vertices : ℕ → ℕ) where
    link_pair-SameVertices :
        (src dst : ℕ) (s : Graph boost × ℕ)
        → vertices src < num_vertices s.0
        → vertices dst < num_vertices s.0
        → SameVertices s.0 (link_pair connected vertices src dst s).0
    unfolding link_pair
    link_pair-SameVertices src dst (g, n) hs hd = elim (Bool-cases (connected src dst)) [
      | inl e ↦
          rw (link_pair, e)
            (record {
              same_number = num-add_gpu_link g (vertices src) (vertices dst) hs hd;
              same_contents = λ v. vertex_at-add_gpu_link g (vertices src) (vertices dst) v hs hd;
            })
      | inr e ↦ rw (link_pair, e) (SameVertices-refl g)
    ]

    link_from-SameVertices :
        (src left dst : ℕ) (s : Graph boost × ℕ)
        → vertices src < num_vertices s.0
        → ((i : ℕ) → i < dst + left → vertices i < num_vertices s.0)
        → SameVertices s.0 (link_from connected vertices src left dst s).0
    unfolding link_from
    link_from-SameVertices src zero dst s hs h = SameVertices-refl s.0
    link_from-SameVertices src (suc left) dst s hs h =
        let t = link_pair connected vertices src dst s in
        let a = link_pair-SameVertices src dst s hs (h dst (omega arith)) in
        SameVertices-trans s.0 t.0 (link_from connected vertices src left (suc dst) t).0 a (
          link_from-SameVertices src left (suc dst) t (omega (arith, hs, a.same_number))
            (λ i l. omega (arith, a.same_number, h i (omega (arith, l)))))

    link_all-SameVertices :
        (left src : ℕ) (s : Graph boost × ℕ)
        → ((i : ℕ) → i < src + left → vertices i < num_vertices s.0)
        → SameVertices s.0 (link_all connected vertices left src s).0
    unfolding link_all
    link_all-SameVertices zero src s h = SameVertices-refl s.0
    link_all-SameVertices (suc left) src s h =
        let t = link_from connected vertices src left (suc src) s in
        let a =
          link_from-SameVertices src left (suc src) s (h src (omega arith))
            (λ i l. h i (omega (arith, l))) in
        SameVertices-trans s.0 t.0 (link_all connected vertices left (suc src) t).0 a (
          link_all-SameVertices left (suc src) t
            (λ i l. omega (arith, a.same_number, h i (omega (arith, l)))))

  -- A vertex has the type of GPUs, and an adapter.
  abbrev pub IsGpu : Adapter Mask → Graph boost → ℕ → Type 0
  IsGpu a g v = HasGpu a (vertex_at g v)

  -- What a part of the loop over the devices did: from the device `i` on, `left` devices have a vertex
  -- that is found by the identifier of the device, is a GPU and has the adapter of the device.
  pub record Marked (id : ℕ → Text) (adapter : ℕ → Adapter Mask) (i left : ℕ) (g : Graph boost)
      (vertices : ℕ → ℕ) (h : Graph boost) (marks : ℕ → ℕ) : Type 0 where
    pub changes : Changes g h
    pub found : (j : ℕ) → i ≤ j → j < i + left → find_key (id j) h.m_identifier_map ≡ some (marks j)
    pub gpus : (j : ℕ) → i ≤ j → j < i + left → IsGpu (adapter j) h (marks j)
    pub marks_kept : (j : ℕ) → j < i → marks j ≡ vertices j
    pub gpus_kept : (a : Adapter Mask) (v : ℕ) → v < num_vertices g → IsGpu a g v → IsGpu a h v

  pub Marked-join :
      (id : ℕ → Text) (adapter : ℕ → Adapter Mask) (i left : ℕ) (g h k : Graph boost)
      (vertices marks all : ℕ → ℕ)
      → IsWellFormed h
      → Marked id adapter i 1 g vertices h marks
      → Marked id adapter (suc i) left h marks k all
      → Marked id adapter i (suc left) g vertices k all
  Marked-join id adapter i left g h k vertices marks all w a b = record {
    changes = Changes-trans a.changes b.changes;
    found = λ j l m. elim (Bool-cases (i == j)) [
      | inl e ↦
          let same : i ≡ j = (==_iff i j).0 e in
          (Changes-Extends b.changes).ids_kept (id j) (marks j) (a.found j l (omega (arith, same)))
          ∙ ap some (sym (b.marks_kept j (omega (arith, same))))
      | inr e ↦ b.found j (ground arith) (omega (arith, m))
    ];
    gpus = λ j l m. elim (Bool-cases (i == j)) [
      | inl e ↦
          let same : i ≡ j = (==_iff i j).0 e in
          let f = a.found j l (omega (arith, same)) in
          rw (b.marks_kept j (omega (arith, same))) (
            b.gpus_kept (adapter j) (marks j) (w.ids_in_range (id j) (marks j) f)
              (a.gpus j l (omega (arith, same))))
      | inr e ↦ b.gpus j (ground arith) (omega (arith, m))
    ];
    marks_kept = λ j l. b.marks_kept j (omega (arith, l)) ∙ a.marks_kept j l;
    gpus_kept = λ a' v l e.
        b.gpus_kept a' v (omega (arith, l, (Changes-Extends a.changes).vertices_kept))
          (a.gpus_kept a' v l e);
  }

  -- What the modules leave: each device has a vertex that is a GPU and has its adapter, and edges both
  -- ways join the vertices of devices that are connected.
  pub record IsGpuGraph (id : ℕ → Text) (adapter : ℕ → Adapter Mask) (n : ℕ)
      (connected : ℕ → ℕ → Bool) (g h : Graph boost) : Type 0 where
    pub well_formed : IsWellFormed h
    pub changes : Changes g h
    pub vertices : ℕ → ℕ
    pub found : (j : ℕ) → j < n → find_key (id j) h.m_identifier_map ≡ some (vertices j)
    pub gpus : (j : ℕ) → j < n → IsGpu (adapter j) h (vertices j)
    pub linked :
        (i j : ℕ)
        → i < j
        → j < n
        → connected i j ≡ true
        → (has_edge h (vertices i) (vertices j) ≡ true)
          × (has_edge h (vertices j) (vertices i) ≡ true)

  pub link_all-IsGpuGraph :
      (id : ℕ → Text) (adapter : ℕ → Adapter Mask) (n : ℕ) (connected : ℕ → ℕ → Bool)
      (g h : Graph boost) (none marks : ℕ → ℕ)
      → IsWellFormed g
      → Marked id adapter 0 n g none h marks
      → IsGpuGraph id adapter n connected g (link_all connected marks n 0 (h, 0)).0
  link_all-IsGpuGraph id adapter n connected g h none marks w m =
      let w' = Changes-IsWellFormed m.changes w in
      let ends =
        λ (j : ℕ) (l : j < 0 + n). w'.ids_in_range (id j) (marks j) (m.found j (omega arith) l) in
      let links = link_all-Linked connected marks n 0 (h, 0) ends in
      let same = link_all-SameVertices connected marks n 0 (h, 0) ends in
      record {
        well_formed = Changes-IsWellFormed links.changes w';
        changes = Changes-trans m.changes links.changes;
        vertices = marks;
        found = λ j l.
            (Changes-Extends links.changes).ids_kept (id j) (marks j)
              (m.found j (omega arith) (omega (arith, l)));
        gpus = λ j l.
            subst (HasGpu (adapter j)) (sym (same.same_contents (marks j)))
              (m.gpus j (omega arith) (omega (arith, l)));
        linked = λ i j l k c. links.there i j (omega arith, l, omega (arith, k)) c;
      }
