-- ===== src/Hwloc/Init.antt =====
-- What ModuleHwloc::init_graph (modules/hwloc/init_graph.cc) does to the topology graph.
use yloc.Prelude.{
  ℕ, ◌+◌, ◌*◌, ◌/◌, ◌^◌, ◌<◌, ◌≡◌, ◌≢◌, refl, sym, ap, ◌∙◌, some, Text, find_key, Result, ok, ◌>>=◌,
  length, Bool-cases, inl, inr, ◌==◌, ==_iff,
}
use yloc.Status.{Status, success, init_error}
use yloc.ComponentTypes.{ComponentType}
use yloc.GraphElement.{Vertex, add_adapter}
use yloc.Graph.{
  BoostGraph, Graph, num_vertices, edges, modify, add_vertex, set_root_vertex, set_vertex,
}
use yloc.Graph.WellFormed.{IsWellFormed, add_vertex_found}
use yloc.Graph.Changes.{Change, Changes, changed, Changes-trans}
use yloc.Graph.Invariants.{Changes-IsWellFormed}
use yloc.Graph.Growth.{Changes-Extends}
use yloc.Graph.Reaches.{named-Reaches, modify-Reaches, here-Reaches}
use yloc.External.Bitset.{Bitset}
use yloc.External.CpuSets.{Bitmap}
use yloc.External.Hwloc.{Hwloc, HwlocObj, machine}
use yloc.Hwloc.Table.{place, hwloc_2_yloc_type-table}
use yloc.Hwloc.Build.{
  Info, adapter_of, info_of, set_type, make_hwloc_graph, build, init_graph, check_hwloc_api_version,
  machine_id,
}
use yloc.Hwloc.Structure.{descendants, graph-Built}
use yloc.Hwloc.Total.{IsSupported, graph_total}

module _ (bits : Bitset) (nprocs : ℕ) (bitmap : Bitmap) (hw : Hwloc)
    (boost : BoostGraph bits.Bits) where
  -- Below a vertex of a well-formed graph, and for an object below which every OS and PCI device has its
  -- attributes, make_hwloc_graph returns: it changes the graph only by module changes, keeps it
  -- well-formed and its root vertex as it is, and adds exactly two edges for each object below the given
  -- one.
  pub make_hwloc_graph-Built :
      (g : Graph boost) (vd : ℕ) (obj : HwlocObj bitmap.Carrier)
      → IsSupported obj
      → IsWellFormed g
      → vd < num_vertices g
      → (h : Graph boost) × (make_hwloc_graph bits nprocs bitmap hw boost g vd obj ≡ ok h)
        × IsWellFormed h
        × Changes g h
        × (length (edges h) ≡ length (edges g) + 2 * descendants obj)
        × (h.m_root_vertex ≡ g.m_root_vertex)
  make_hwloc_graph-Built g vd obj s w l =
      let (h, e) = graph_total bits nprocs bitmap hw boost g vd obj s in
      let b = graph-Built bits nprocs bitmap hw boost g vd obj h w l e in
      (h, e, Changes-IsWellFormed b.changes w, b.changes, b.edge_count, b.same_root)

  -- Where the running hwloc library and the header differ in the upper half of the API version,
  -- init_graph returns the status init_error and leaves the graph as it is.
  pub init_graph_version :
      (hostname : Text) (root : HwlocObj bitmap.Carrier) (g : Graph boost)
      → hw.api_version / 2 ^ 16 ≢ hw.header_version / 2 ^ 16
      → init_graph bits nprocs bitmap hw boost hostname root g ≡ ok (g, init_error)
  unfolding init_graph check_hwloc_api_version
  init_graph_version hostname root g d =
      elim (Bool-cases (hw.api_version / 2 ^ 16 == hw.header_version / 2 ^ 16)) [
        | inl e ↦ elim (d ((==_iff (hw.api_version / 2 ^ 16) (hw.header_version / 2 ^ 16)).0 e)) [ ]
        | inr e ↦ rw (init_graph, check_hwloc_api_version, e)
      ]

  -- The graph behind the root vertex.
  unfoldable pub rooted :
      Text → Info bits nprocs bitmap hw boost → ComponentType → Graph boost → Graph boost
  rooted hostname root t g =
      let (g1, v) = add_vertex (machine_id hostname) g in
      let g2 = modify g1 v (λ x. record x { m_description = hostname }) in
      let g4 =
        modify (set_root_vertex g2 v) v
          (λ x. add_adapter x (adapter_of bits nprocs bitmap hw boost root)) in
      modify g4 v (set_type t)

  -- What is known of the graph before the objects below the root are added.
  pub record Rooted (id : Text) (g : Graph boost) (v : ℕ) (h : Graph boost) : Type 0 where
    pub found : find_key id h.m_identifier_map ≡ some v
    pub changes : Changes g h
    pub in_range : v < num_vertices h
    pub same_edges : edges h ≡ edges g
    pub root_lem : h.m_root_vertex ≡ v

  found_rooted :
      (hostname : Text) (root : Info bits nprocs bitmap hw boost) (t : ComponentType)
      (g : Graph boost)
      → find_key (machine_id hostname) (rooted hostname root t g).m_identifier_map
        ≡ some (add_vertex (machine_id hostname) g).1
  unfolding rooted set_root_vertex set_vertex
  found_rooted hostname root t g = add_vertex_found g (machine_id hostname)

  pub rooted-Rooted :
      (hostname : Text) (root : Info bits nprocs bitmap hw boost) (t : ComponentType)
      (g : Graph boost)
      → IsWellFormed g
      → Rooted
          (machine_id hostname)
          g
          (add_vertex (machine_id hostname) g).1
          (rooted hostname root t g)
  unfolding rooted set_root_vertex
  rooted-Rooted hostname root t g w =
      let (g1, v) = add_vertex (machine_id hostname) g in
      let named = λ (x : Vertex bits.Bits). record x { m_description = hostname } in
      let adapted =
        λ (x : Vertex bits.Bits). add_adapter x (adapter_of bits nprocs bitmap hw boost root) in
      let g2 = modify g1 v named in
      let g3 = set_root_vertex g2 v in
      let before = modify-Reaches g g1 v named (named-Reaches g (machine_id hostname) w) in
      let after =
        modify-Reaches g3 (modify g3 v adapted) v (set_type t)
          (modify-Reaches g3 g3 v adapted (here-Reaches g3 v before.in_range)) in
      record {
        found = found_rooted hostname root t g;
        changes =
            Changes-trans
              (changed before.changes
                (unfold set_root_vertex in Change.rooted g2 v before.in_range))
              after.changes;
        in_range = after.in_range;
        same_edges = after.same_edges ∙ before.same_edges;
        root_lem = after.same_root;
      }

  -- The graph that init_graph is to leave for a topology with `n` objects below its root.
  pub record IsInitialised (hostname : Text) (n : ℕ) (g h : Graph boost) : Type 0 where
    pub well_formed : IsWellFormed h
    pub changes : Changes g h
    pub root_found : find_key (machine_id hostname) h.m_identifier_map ≡ some h.m_root_vertex
    pub edge_count : length (edges h) ≡ length (edges g) + 2 * n

  abbrev pub init_result :
      Text → HwlocObj bitmap.Carrier → Graph boost → Result (Graph boost × Status)
  init_result hostname root g = init_graph bits nprocs bitmap hw boost hostname root g

  pub init_graph-build :
      (hostname : Text) (root : HwlocObj bitmap.Carrier) (g : Graph boost)
      → hw.api_version / 2 ^ 16 ≡ hw.header_version / 2 ^ 16
      → (info_of bits nprocs bitmap hw boost root).type ≡ machine
      → init_result hostname root g ≡ (
          make_hwloc_graph bits nprocs bitmap hw boost
            (rooted hostname (info_of bits nprocs bitmap hw boost root) ComponentType.node g)
            (add_vertex (machine_id hostname) g).1
            root
          >>= λ h. ok (h, success))
  unfolding init_graph check_hwloc_api_version build rooted place
  init_graph-build hostname root g v m =
      let attr = (info_of bits nprocs bitmap hw boost root).attr in
      rw
        (
          init_graph,
          check_hwloc_api_version,
          (==_iff (hw.api_version / 2 ^ 16) (hw.header_version / 2 ^ 16)).1 v,
          build,
          hwloc_2_yloc_type-table hw (info_of bits nprocs bitmap hw boost root),
          m,
        )
        refl

  -- Where the versions agree, the root object is the machine and every OS and PCI device below it has
  -- its attributes, init_graph succeeds on a well-formed graph. It makes only module changes
  -- , keeps the graph well-formed, adds two edges for each object below the root,
  -- and the root vertex is then the one found by the identifier "machine:" with the host's name.
  pub init_graph-IsInitialised :
      (hostname : Text) (root : HwlocObj bitmap.Carrier) (g : Graph boost)
      → hw.api_version / 2 ^ 16 ≡ hw.header_version / 2 ^ 16
      → (info_of bits nprocs bitmap hw boost root).type ≡ machine
      → IsSupported root
      → IsWellFormed g
      → (h : Graph boost) × (init_graph bits nprocs bitmap hw boost hostname root g
          ≡ ok (h, success))
        × IsInitialised hostname (descendants root) g h
  init_graph-IsInitialised hostname root g v m s w =
      let obj = info_of bits nprocs bitmap hw boost root in
      let vd = (add_vertex (machine_id hostname) g).1 in
      let r = rooted-Rooted hostname obj ComponentType.node g w in
      let w' = Changes-IsWellFormed r.changes w in
      let (h, e) =
        graph_total bits nprocs bitmap hw boost (rooted hostname obj ComponentType.node g) vd root
          s in
      let b =
        graph-Built bits nprocs bitmap hw boost (rooted hostname obj ComponentType.node g) vd root h
          w' r.in_range e in
      let all = Changes-trans r.changes b.changes in
      (
        h,
        init_graph-build hostname root g v m ∙ ap (λ x. x >>= λ k. ok (k, success)) e,
        record {
          well_formed = Changes-IsWellFormed all w;
          changes = all;
          root_found =
              (Changes-Extends b.changes).ids_kept (machine_id hostname) vd r.found
              ∙ ap some (sym (b.same_root ∙ r.root_lem));
          edge_count = b.edge_count ∙ ap (λ es. length es + 2 * descendants root) r.same_edges;
        },
      )
