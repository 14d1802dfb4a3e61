-- ===== src/Hwloc/Searchable.antt =====
-- The graph that modules/hwloc/init_graph.cc builds is one that the search of src/util.cc can go
-- through: the vertices can be asked for their masks, and the child edges lead to later vertices.
use mathlib.Core.List.Memᴰ as MemD
use yloc.Prelude.{
  ℕ, ◌+◌, ◌<◌, ◌≤◌, ◌≡◌, refl, ap, ◌∙◌, subst, List, ◌++◌, Memᴰ, none, Text, find_key, ok, inl, inr,
  arith,
}
use yloc.GraphElement.{Vertex, new_element}
use yloc.Graph.{BoostGraph, Graph, num_vertices, modify, add_child, add_edge, set_vertex}
use yloc.Graph.WellFormed.{IsWellFormed}
use yloc.Graph.Changes.{Changes, unchanged, Changes-trans}
use yloc.Graph.Invariants.{Changes-IsWellFormed}
use yloc.Graph.Growth.{Changes-Extends}
use yloc.Graph.Vertices.{num-add_child}
use yloc.External.Bitset.{Bitset}
use yloc.External.CpuSets.{Bitmap}
use yloc.External.Hwloc.{Hwloc, HwlocInfo, HwlocObj, HwlocObjs, node, nil, cons}
use yloc.Hwloc.Build.{adapter_of, describe, set_type, attach_child, make_hwloc_graph, make_children}
use yloc.Hwloc.Structure.{attach_child-Ties, count_objects, descendants}
use yloc.Hwloc.Total.{HasAttributes, type_known}
use yloc.Hwloc.Devices.{device_id, ids_below, ids_among, AreDistinct, distinct_parts}
use yloc.Hwloc.Described.{
  IsOnline, described-Reads, Fresh-Written, modify-Written, Written-AllHold, child_vertex-Fresh,
}
use yloc.Query.Reached.{AllReached, tied-AllReached}
use yloc.Mpi.Edges.{IsChild, tied_child}
use yloc.Mpi.Readable.{Reads, AllRead}
use yloc.Graph.Vertices.{add_child-AllHold, AllHold}
use yloc.Hwloc.Classes.{IsNoAccelerator, described-IsNoAccelerator}

module _ (bits : Bitset) (nprocs : ℕ) (bitmap : Bitmap) (hw : Hwloc)
    (boost : BoostGraph bits.Bits) where
  same_ids :
      (k : Graph boost) (vd c : ℕ) (f f' : Vertex bits.Bits → Vertex bits.Bits)
      → (add_child vd c (modify (modify k c f) c f')).m_identifier_map ≡ k.m_identifier_map
  unfolding add_child add_edge set_vertex
  same_ids k vd c f f' = refl

  -- Child edges lead to vertices that were added later.
  abbrev pub IsGrowing : Graph boost → Type 0
  IsGrowing g = (v t : ℕ) → IsChild g v t → v < t

  -- What is known of a graph behind `n` objects, of which some are PCI devices with the identifiers.
  pub record Grown (g : Graph boost) (ids : List Text) (n : ℕ) (h : Graph boost) : Type 0 where
    pub changes : Changes g h
    pub size : num_vertices h ≤ num_vertices g + n
    pub all_read : AllRead h
    pub growing : IsGrowing h
    pub no_accelerator : AllHold IsNoAccelerator g → AllHold IsNoAccelerator h
    pub reached : (s : ℕ) → AllReached g s → AllReached h s
    pub new_ids :
        (id : Text)
        → find_key id g.m_identifier_map ≡ none
        → ¬ Memᴰ id ids
        → find_key id h.m_identifier_map ≡ none

  -- One round of the loop over the objects.
  attach_child-Grown :
      (g : Graph boost) (vd : ℕ) (obj : HwlocInfo bitmap.Carrier)
      → HasAttributes obj
      → IsOnline bits nprocs bitmap hw boost obj
      → ((id : Text) → Memᴰ id (device_id obj) → find_key id g.m_identifier_map ≡ none)
      → IsWellFormed g
      → vd < num_vertices g
      → AllRead g
      → IsGrowing g
      → (r : Graph boost × ℕ) × (attach_child bits nprocs bitmap hw boost g vd obj ≡ ok r)
        × (r.1 < num_vertices r.0)
        × Grown g (device_id obj) 1 r.0
  unfolding attach_child
  attach_child-Grown g vd obj has on free w l read grow =
      let (t, e, pci) = type_known bits nprocs bitmap hw boost obj has in
      let ((g1, c), f, fresh) =
        child_vertex-Fresh bits nprocs bitmap hw boost g obj t has pci free in
      let describe_it = describe (adapter_of bits nprocs bitmap hw boost obj) in
      let k = modify (modify g1 c describe_it) c (set_type t) in
      let written =
        modify-Written bits nprocs bitmap hw boost g (modify g1 c describe_it) c
          (describe_it new_element) (set_type t)
          (modify-Written bits nprocs bitmap hw boost g g1 c new_element describe_it
            (Fresh-Written bits nprocs bitmap hw boost fresh)) in
      let whole_call : attach_child bits nprocs bitmap hw boost g vd obj
          ≡ ok (add_child vd c k, c) =
        rw (attach_child, e, f) refl in
      let ties =
        attach_child-Ties bits nprocs bitmap hw boost g vd obj (add_child vd c k, c) w l
          whole_call in
      let hv : vd < num_vertices k = omega (arith, l, written.size) in
      let hc : c < num_vertices k = omega (arith, written.size, written.descriptor) in
      let nh = num-add_child k vd c hv hc in
      (
        (add_child vd c k, c),
        whole_call,
        ties.in_range,
        record {
          changes = ties.changes;
          size = omega (arith, nh, written.size);
          all_read = add_child-AllHold Reads k vd c hv hc (
              Written-AllHold bits nprocs bitmap hw boost Reads g k c _ written
                (described-Reads bits nprocs bitmap hw boost obj t on) read);
          growing = λ v u child_edge.
              elim (tied_child g (add_child vd c k) vd c v u ties.new_edges child_edge) [
                | inl old ↦ grow v u old
                | inr (a, b) ↦ omega (arith, a, b, l, fresh.descriptor)
              ];
          no_accelerator = λ all. add_child-AllHold IsNoAccelerator k vd c hv hc (
              Written-AllHold bits nprocs bitmap hw boost IsNoAccelerator g k c _ written
                (described-IsNoAccelerator hw obj t (adapter_of bits nprocs bitmap hw boost obj) e)
                all);
          reached = λ s.
              tied-AllReached g (add_child vd c k) s vd c l written.descriptor
                (omega (arith, nh, written.size)) ties.new_edges;
          new_ids = λ id none_before n.
              ap (find_key id) (same_ids g1 vd c describe_it (set_type t))
              ∙ fresh.new_ids id none_before n;
        },
      )

  unfoldable mutual
    -- What hwloc promises of the objects below an object: their attributes, and processors that are online.
    pub HasReadable : HwlocObj bitmap.Carrier → Type 0
    HasReadable (node obj children) = AreReadable children

    pub AreReadable : HwlocObjs bitmap.Carrier → Type 0
    AreReadable nil = Unit
    AreReadable (cons (node obj children) rest) =
        HasAttributes obj
        × IsOnline bits nprocs bitmap hw boost obj
        × AreReadable children
        × AreReadable rest

  pub Grown-trans :
      (g h k : Graph boost) (ids ids' : List Text) (n m : ℕ)
      → Grown g ids n h
      → Grown h ids' m k
      → Grown g (ids ++ ids') (n + m) k
  Grown-trans g h k ids ids' n m a b = record {
    changes = Changes-trans a.changes b.changes;
    size = omega (arith, a.size, b.size);
    all_read = b.all_read;
    growing = b.growing;
    no_accelerator = λ all. b.no_accelerator (a.no_accelerator all);
    reached = λ s all. b.reached s (a.reached s all);
    new_ids = λ id e out.
        b.new_ids id (a.new_ids id e (λ i. out (MemD.append_left ids' i)))
          (λ i. out (MemD.append_right ids i));
  }

  -- The identifiers of later objects are still free behind earlier ones.
  still_free :
      (g h : Graph boost) (ids ids' : List Text) (n : ℕ)
      → Grown g ids n h
      → ((x : Text) → Memᴰ x ids → ¬ Memᴰ x ids')
      → ((id : Text) → Memᴰ id ids' → find_key id g.m_identifier_map ≡ none)
      → (id : Text) → Memᴰ id ids'
      → find_key id h.m_identifier_map ≡ none
  still_free g h ids ids' n a apart free id m = a.new_ids id (free id m) (λ i. apart id i m)

  children-Grown :
      (g : Graph boost) (vd : ℕ) (objs : HwlocObjs bitmap.Carrier)
      → AreReadable objs
      → AreDistinct (ids_among objs)
      → ((id : Text) → Memᴰ id (ids_among objs) → find_key id g.m_identifier_map ≡ none)
      → IsWellFormed g
      → vd < num_vertices g
      → AllRead g
      → IsGrowing g
      → (h : Graph boost) × (make_children bits nprocs bitmap hw boost g vd objs ≡ ok h)
        × Grown g (ids_among objs) (count_objects objs) h
  unfolding make_hwloc_graph AreReadable ids_among descendants
  children-Grown g vd nil s d free w l read grow = (
    g,
    refl,
    record {
      changes = unchanged;
      size = omega arith;
      all_read = read;
      growing = grow;
      no_accelerator = λ all. all;
      reached = λ s all. all;
      new_ids = λ id e n. e;
    },
  )
  children-Grown g vd (cons (node obj children) rest) (has, on, below, behind) d free w l read
        grow =
      let own = device_id obj in
      let (_, d1, apart1) = distinct_parts own (ids_among children ++ ids_among rest) d in
      let (d2, d3, apart2) = distinct_parts (ids_among children) (ids_among rest) d1 in
      let ((h1, c), e1, lc, a1) =
        attach_child-Grown g vd obj has on
          (λ id m. free id (MemD.append_left (ids_among children ++ ids_among rest) m)) w l read
          grow in
      let free1 =
        still_free g h1 own (ids_among children ++ ids_among rest) 1 a1 apart1
          (λ id m. free id (MemD.append_right own m)) in
      let w1 = Changes-IsWellFormed a1.changes w in
      let (h2, e2, a2) =
        children-Grown h1 c children below d2
          (λ id m. free1 id (MemD.append_left (ids_among rest) m)) w1 lc a1.all_read a1.growing in
      let free2 =
        still_free h1 h2 (ids_among children) (ids_among rest) (count_objects children) a2 apart2
          (λ id m. free1 id (MemD.append_right (ids_among children) m)) in
      let l2 : vd < num_vertices h2 = omega (
        arith,
        l,
        (Changes-Extends a1.changes).vertices_kept,
        (Changes-Extends a2.changes).vertices_kept,
      ) in
      let (h3, e3, a3) =
        children-Grown h2 vd rest behind d3 free2 (Changes-IsWellFormed a2.changes w1) l2
          a2.all_read a2.growing in
      (
        h3,
        rw (make_children, e1, e2) e3,
        subst (λ n. Grown g (ids_among (cons (node obj children) rest)) n h3) (omega arith)
            (Grown-trans g h1 h3 own (ids_among children ++ ids_among rest) 1
              (count_objects children + count_objects rest) a1
              (Grown-trans h1 h2 h3 (ids_among children) (ids_among rest) (count_objects children)
                (count_objects rest) a2 a3)),
      )

  pub graph-Grown :
      (g : Graph boost) (vd : ℕ) (root : HwlocObj bitmap.Carrier)
      → HasReadable root
      → AreDistinct (ids_below root)
      → ((id : Text) → Memᴰ id (ids_below root) → find_key id g.m_identifier_map ≡ none)
      → IsWellFormed g
      → vd < num_vertices g
      → AllRead g
      → IsGrowing g
      → (h : Graph boost) × (make_hwloc_graph bits nprocs bitmap hw boost g vd root ≡ ok h)
        × Grown g (ids_below root) (descendants root) h
  unfolding make_hwloc_graph HasReadable ids_below descendants
  graph-Grown g vd (node obj children) s d free w l read grow =
      children-Grown g vd children s d free w l read grow
