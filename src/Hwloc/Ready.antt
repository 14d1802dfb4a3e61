-- ===== src/Hwloc/Ready.antt =====
-- What init_graph of modules/hwloc/init_graph.cc leaves of the empty graph, for the modules that run
-- after it.
use yloc.Prelude.{
  ◌<◌, subst, ℕ, suc, ◌-◌, ◌/◌, ◌^◌, ◌≤◌, ◌≡◌, refl, sym, ap, ◌∙◌, List, [], Memᴰ, false, none,
  some, Text, find_key, text_eq, ok, ◌>>=◌, arith,
}
use yloc.ComponentTypes.{ComponentType}
use yloc.GraphElement.{Vertex, new_element, add_adapter}
use yloc.Graph.{
  BoostGraph, Graph, new_graph, num_vertices, edges, modify, add_vertex, set_vertex,
  set_root_vertex,
}
use yloc.Graph.WellFormed.{IsWellFormed}
use yloc.Graph.Changes.{Changes, Changes-trans}
use yloc.Graph.Invariants.{new_graph-IsWellFormed, Changes-IsWellFormed}
use yloc.Graph.Growth.{Changes-Extends}
use yloc.External.Bitset.{Bitset}
use yloc.External.CpuSets.{Bitmap}
use yloc.External.Hwloc.{Hwloc, HwlocInfo, HwlocObj, machine}
use yloc.Hwloc.Build.{
  make_hwloc_graph, info_of, machine_id, bdfid_id, adapter_of, set_type, init_graph,
}
use yloc.Hwloc.Structure.{graph-Built, descendants}
use yloc.Status.{success}
use yloc.Graph.Identifiers.{lookup-add_vertex}
use yloc.Hwloc.Devices.{ids_below, ids_below_bdfid_lem, AreDistinct, named-Fresh}
use yloc.Hwloc.Described.{
  IsOnline, adapter-Reads, adapters-set_type, Written, Fresh-Written, modify-Written,
  rooted-Written, Written-AllHold,
}
use yloc.Hwloc.Searchable.{Grown, HasReadable, IsGrowing, graph-Grown}
use yloc.Query.Shortest.{Walk}
use yloc.Query.Symmetric.{Changes-IsTwoWay}
use yloc.Graph.Vertices.{AllHold}
use yloc.Hwloc.Classes.{IsNoAccelerator}
use yloc.ComponentTypes
use yloc.GraphElement.{is_a}
use yloc.Query.Reached.{AllReached, AllReached-connected}
use yloc.Mpi.Edges.{IsChild-in_range}
use yloc.Mpi.Placed.{IsSearchable}
use yloc.Hwloc.Init.{Rooted, rooted, rooted-Rooted, init_graph-build}
use yloc.Mpi.Readable.{Reads, AllRead}

-- An identifier of a machine is not that of a device.
machine_not_bdfid : (name : Text) (n : ℕ) → text_eq (machine_id name) (bdfid_id n) ≡ false
unfolding text_eq
machine_not_bdfid name n = refl

module _ (bits : Bitset) (nprocs : ℕ) (bitmap : Bitmap) (hw : Hwloc)
    (boost : BoostGraph bits.Bits) where
  -- What init_graph leaves of the empty graph for a topology with `n` objects below its root.
  pub record IsReady (hostname : Text) (ids : List Text) (n : ℕ) (h : Graph boost) : Type 0 where
    pub searchable : IsSearchable bits boost h (λ v. num_vertices h - v)
    pub size : num_vertices h ≤ suc n
    pub changes : Changes (new_graph boost) h
    pub no_accelerator : AllHold IsNoAccelerator h
    pub connected : (u v : ℕ) → u < num_vertices h → v < num_vertices h → (k : ℕ) × Walk h u k v
    pub root_found : find_key (machine_id hostname) h.m_identifier_map ≡ some h.m_root_vertex
    pub other_ids :
        (id : Text)
        → text_eq (machine_id hostname) id ≡ false
        → ¬ Memᴰ id ids
        → find_key id h.m_identifier_map ≡ none

  module _ (hostname : Text) (root : HwlocObj bitmap.Carrier) where
    abbrev obj : HwlocInfo bitmap.Carrier
    obj = info_of bits nprocs bitmap hw boost root

    abbrev start : Graph boost
    start = rooted bits nprocs bitmap hw boost hostname obj ComponentType.node (new_graph boost)

    start-Written :
        Written bits nprocs bitmap hw boost
          (new_graph boost)
          (add_vertex (machine_id hostname) (new_graph boost)).1
          start
          (set_type ComponentType.node (
            add_adapter
              (record new_element { m_description = hostname })
              (adapter_of bits nprocs bitmap hw boost obj)))
    unfolding rooted find_key
    start-Written =
        let g = new_graph boost in
        let (g1, c) = add_vertex (machine_id hostname) g in
        let named = λ (x : Vertex bits.Bits). record x { m_description = hostname } in
        let adapted =
          λ (x : Vertex bits.Bits). add_adapter x (adapter_of bits nprocs bitmap hw boost obj) in
        let w1 =
          modify-Written bits nprocs bitmap hw boost g g1 c new_element named (
            Fresh-Written bits nprocs bitmap hw boost (named-Fresh g (machine_id hostname) refl)) in
        let g2 = modify g1 c named in
        let w2 = rooted-Written bits nprocs bitmap hw boost g g2 c c (named new_element) w1 in
        let g3 = set_root_vertex g2 c in
        let w3 = modify-Written bits nprocs bitmap hw boost g g3 c (named new_element) adapted w2 in
        modify-Written bits nprocs bitmap hw boost g (modify g3 c adapted) c
          (adapted (named new_element)) (set_type ComponentType.node) w3

    start-Reads :
        IsOnline bits nprocs bitmap hw boost obj
        → Reads (
            set_type ComponentType.node (
              add_adapter
                (record new_element { m_description = hostname })
                (adapter_of bits nprocs bitmap hw boost obj)))
    unfolding add_adapter
    start-Reads =
        let x =
          add_adapter (record new_element { m_description = hostname })
            (adapter_of bits nprocs bitmap hw boost obj) in
        adapter-Reads bits nprocs bitmap hw boost obj (set_type ComponentType.node x)
          (adapters-set_type bits nprocs bitmap hw boost ComponentType.node x)

    -- The identifiers of the start are that of the machine.
    start_ids :
        (id : Text)
        → text_eq (machine_id hostname) id ≡ false
        → find_key id start.m_identifier_map ≡ none
    unfolding rooted set_root_vertex set_vertex
    start_ids id e =
        lookup-add_vertex (new_graph boost) (machine_id hostname) id
        ∙ rw e (unfold find_key in refl)

    abbrev root_vd : ℕ
    root_vd = (add_vertex (machine_id hostname) (new_graph boost)).1

    start-Rooted :
        Rooted bits nprocs bitmap hw boost (machine_id hostname) (new_graph boost) root_vd start
    start-Rooted =
        rooted-Rooted bits nprocs bitmap hw boost hostname obj ComponentType.node (new_graph boost)
          new_graph-IsWellFormed

    start-IsWellFormed : IsWellFormed start
    start-IsWellFormed = Changes-IsWellFormed start-Rooted.changes new_graph-IsWellFormed

    -- The objects below the root are attached to the start.
    start-Grown :
        IsOnline bits nprocs bitmap hw boost obj
        → HasReadable bits nprocs bitmap hw boost root
        → AreDistinct (ids_below root)
        → (h : Graph boost) × (make_hwloc_graph bits nprocs bitmap hw boost start root_vd root
            ≡ ok h)
          × Grown bits nprocs bitmap hw boost start (ids_below root) (descendants root) h
    start-Grown on readable distinct =
        let none_read : AllRead (new_graph boost) =
          λ u l. absurd (omega (arith, l, boost.num-empty)) in
        let read =
          Written-AllHold bits nprocs bitmap hw boost Reads (new_graph boost) start root_vd _
            start-Written (start-Reads on) none_read in
        let no_edges : edges start ≡ [] = start-Rooted.same_edges ∙ boost.edges-empty in
        let no_children : IsGrowing bits nprocs bitmap hw boost start =
          (λ u t c. absurd (cc (rw no_edges at c))) in
        graph-Grown bits nprocs bitmap hw boost start root_vd root readable distinct
          (λ id m.
            let (n, same_id) = ids_below_bdfid_lem root id m in
            start_ids id (rw same_id (machine_not_bdfid hostname n)))
          start-IsWellFormed start-Rooted.in_range read no_children

    -- The start has no vertex but the root.
    start-AllReached : AllReached start root_vd
    start-AllReached v l =
        let same : root_vd ≡ v =
          omega (arith, l, start-Written.size, start-Written.descriptor, boost.num-empty) in
        (0, subst (Walk start root_vd 0) same Walk.start)

    start-IsNoAccelerator : AllHold IsNoAccelerator start
    unfolding is_a ComponentTypes.is_a add_adapter ComponentTypes.index
    start-IsNoAccelerator =
        Written-AllHold bits nprocs bitmap hw boost IsNoAccelerator (new_graph boost) start root_vd
          _ start-Written refl (λ u l. absurd (omega (arith, l, boost.num-empty)))

    Grown-IsReady :
        (h : Graph boost)
        → make_hwloc_graph bits nprocs bitmap hw boost start root_vd root ≡ ok h
        → Grown bits nprocs bitmap hw boost start (ids_below root) (descendants root) h
        → IsReady hostname (ids_below root) (descendants root) h
    Grown-IsReady h e a =
        let r = start-Rooted in
        let b =
          graph-Built bits nprocs bitmap hw boost start root_vd root h start-IsWellFormed r.in_range
            e in
        let wf = Changes-IsWellFormed a.changes start-IsWellFormed in
        record {
          searchable = record {
            well_formed = wf;
            all_read = a.all_read;
            layered = λ u t c.
                let (hu, ht) = IsChild-in_range h u t wf c in
                let later = a.growing u t c in omega arith;
          };
          size = omega (arith, a.size, start-Written.size, boost.num-empty);
          changes = Changes-trans r.changes a.changes;
          no_accelerator = a.no_accelerator start-IsNoAccelerator;
          connected = λ u v.
              AllReached-connected h root_vd u v
                (Changes-IsTwoWay (Changes-trans r.changes a.changes))
                (a.reached root_vd start-AllReached);
          root_found =
              (Changes-Extends a.changes).ids_kept (machine_id hostname) root_vd r.found
              ∙ ap some (sym (b.same_root ∙ r.root_lem));
          other_ids = λ id e n. a.new_ids id (start_ids id e) n;
        }

    -- Where the versions agree, the root object is the machine, the objects have their attributes and
    -- processors that are online, and no two PCI devices have the same address, init_graph succeeds on the
    -- empty graph with one that is connected and can be searched.
    pub init_graph-IsReady :
        hw.api_version / 2 ^ 16 ≡ hw.header_version / 2 ^ 16
        → (info_of bits nprocs bitmap hw boost root).type ≡ machine
        → IsOnline bits nprocs bitmap hw boost (info_of bits nprocs bitmap hw boost root)
        → HasReadable bits nprocs bitmap hw boost root
        → AreDistinct (ids_below root)
        → (h : Graph boost) × (init_graph bits nprocs bitmap hw boost hostname root
              (new_graph boost)
            ≡ ok (h, success))
          × IsReady hostname (ids_below root) (descendants root) h
    init_graph-IsReady same is_machine on readable distinct =
        let (h, e, a) = start-Grown on readable distinct in
        (
          h,
          init_graph-build bits nprocs bitmap hw boost hostname root (new_graph boost) same
                is_machine
              ∙ ap (λ x. x >>= λ k. ok (k, success)) e,
          Grown-IsReady h e a,
        )
