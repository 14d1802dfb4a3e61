-- ===== src/Hwloc/Structure.antt =====
-- What building the graph from hwloc's objects (modules/hwloc/init_graph.cc) does to its structure.
use yloc.Prelude.{
  refl, ℕ, suc, ◌+◌, ◌*◌, ◌<◌, ◌≡◌, ap, ◌∙◌, ok, ◌>>=◌, >>=-eq-ok, of_ok, subst, arith, length,
  length-append, Bool-cases, inl, inr,
}
use yloc.ComponentTypes
use yloc.ComponentTypes.{ComponentType}
use yloc.Graph.{BoostGraph, Graph, num_vertices, edges, modify, add_vertex, add_child}
use yloc.Graph.WellFormed.{IsWellFormed}
use yloc.Graph.Changes.{Changes, unchanged, Changes-trans}
use yloc.Graph.Invariants.{Changes-IsWellFormed}
use yloc.Graph.Reaches.{Reaches, unnamed-Reaches, named-Reaches, modify-Reaches, Ties, tie-Ties}
use yloc.Graph.Growth.{Changes-Extends}
use yloc.External.Bitset.{Bitset}
use yloc.External.CpuSets.{Bitmap}
use yloc.External.Hwloc.{Hwloc, HwlocInfo, HwlocObj, HwlocObjs, node, nil, cons}
use yloc.Hwloc.Adapter.{hwloc_adapter}
use yloc.Hwloc.Types.{hwloc_2_yloc_type}
use yloc.Hwloc.Build.{
  info_of, describe, set_type, pci_vertex, child_vertex, attach_child, make_hwloc_graph,
  make_children, bdfid_id, value,
}

-- The objects below an object.
unfoldable mutual
  pub descendants : {Cpus : Type 0} → HwlocObj Cpus → ℕ
  descendants (node obj children) = count_objects children

  pub count_objects : {Cpus : Type 0} → HwlocObjs Cpus → ℕ
  count_objects nil = 0
  count_objects (cons child rest) = suc (descendants child + count_objects rest)

module _ (bits : Bitset) (nprocs : ℕ) (bitmap : Bitmap) (hw : Hwloc)
    (boost : BoostGraph bits.Bits) where
  pci_vertex-Reaches :
      (g : Graph boost) (obj : HwlocInfo bitmap.Carrier) (r : Graph boost × ℕ)
      → IsWellFormed g
      → pci_vertex bits nprocs bitmap hw boost g obj ≡ ok r
      → Reaches g r
  unfolding pci_vertex
  pci_vertex-Reaches g obj r w h =
      let found_by = (hwloc_adapter bits nprocs bitmap hw obj).bdfid in
      let (found, _, e) =
        >>=-eq-ok found_by (λ x. value x >>= λ n. ok (add_vertex (bdfid_id n) g)) h in
      let (n, _, e') = >>=-eq-ok (value found) (λ n. ok (add_vertex (bdfid_id n) g)) e in
      subst (Reaches g) (of_ok e') (named-Reaches g (bdfid_id n) w)

  child_vertex-Reaches :
      (t : ComponentType) (g : Graph boost) (obj : HwlocInfo bitmap.Carrier) (r : Graph boost × ℕ)
      → IsWellFormed g
      → child_vertex bits nprocs bitmap hw boost t g obj ≡ ok r
      → Reaches g r
  unfolding child_vertex
  child_vertex-Reaches t g obj r w h =
      elim (Bool-cases (ComponentTypes.is_a t ComponentType.pci_device)) [
        | inl pci ↦ pci_vertex-Reaches g obj r w (rw pci at h)
        | inr other ↦ subst (Reaches g) (of_ok (rw other at h)) (unnamed-Reaches g)
      ]

  -- One round of the loop ties one vertex to the one above it, by a child and a parent edge.
  pub attach_child-Ties :
      (g : Graph boost) (vd : ℕ) (obj : HwlocInfo bitmap.Carrier) (r : Graph boost × ℕ)
      → IsWellFormed g
      → vd < num_vertices g
      → attach_child bits nprocs bitmap hw boost g vd obj ≡ ok r
      → Ties g vd r
  unfolding attach_child
  attach_child-Ties g vd obj r w l h =
      let a = hwloc_adapter bits nprocs bitmap hw obj in
      let tie_child = λ (t : ComponentType) (p : Graph boost × ℕ).
        ok (add_child vd p.1 (modify (modify p.0 p.1 (describe a)) p.1 (set_type t)), p.1) in
      let (t, _, e) =
        >>=-eq-ok (hwloc_2_yloc_type hw obj)
          (λ t. child_vertex bits nprocs bitmap hw boost t g obj >>= tie_child t) h in
      let ((g1, c), e1, e2) =
        >>=-eq-ok (child_vertex bits nprocs bitmap hw boost t g obj) (tie_child t) e in
      let r1 = child_vertex-Reaches t g obj (g1, c) w e1 in
      let r2 = modify-Reaches g g1 c (describe a) r1 in
      let r3 = modify-Reaches g (modify g1 c (describe a)) c (set_type t) r2 in
      subst (Ties g vd) (of_ok e2)
        (tie-Ties g (modify (modify g1 c (describe a)) c (set_type t)) vd c l r3)

  -- What is known of the graph behind a part of the tree.
  pub record Built (g : Graph boost) (n : ℕ) (h : Graph boost) : Type 0 where
    pub changes : Changes g h
    pub edge_count : length (edges h) ≡ length (edges g) + 2 * n
    pub same_root : h.m_root_vertex ≡ g.m_root_vertex

  mutual
    unfolding make_hwloc_graph descendants

    pub graph-Built :
        (g : Graph boost) (vd : ℕ) (obj : HwlocObj bitmap.Carrier) (h : Graph boost)
        → IsWellFormed g
        → vd < num_vertices g
        → make_hwloc_graph bits nprocs bitmap hw boost g vd obj ≡ ok h
        → Built g (descendants obj) h
    graph-Built g vd (node obj objs) h w l e = children-Built g vd objs h w l e

    children-Built :
        (g : Graph boost) (vd : ℕ) (objs : HwlocObjs bitmap.Carrier) (h : Graph boost)
        → IsWellFormed g
        → vd < num_vertices g
        → make_children bits nprocs bitmap hw boost g vd objs ≡ ok h
        → Built g (count_objects objs) h
    children-Built g vd nil h w l e =
        subst (Built g 0) (of_ok e)
          (record { changes = unchanged; edge_count = omega arith; same_root = refl })
    children-Built g vd (cons obj rest) h w l e =
        let ((g1, c), e1, f1) =
          >>=-eq-ok
            (attach_child bits nprocs bitmap hw boost g vd
              (info_of bits nprocs bitmap hw boost obj))
            (λ p. make_hwloc_graph bits nprocs bitmap hw boost p.0 p.1 obj >>= λ k.
              make_children bits nprocs bitmap hw boost k vd rest)
            e in
        let (g2, e2, f2) =
          >>=-eq-ok (make_hwloc_graph bits nprocs bitmap hw boost g1 c obj)
            (λ k. make_children bits nprocs bitmap hw boost k vd rest) f1 in
        let t = attach_child-Ties g vd (info_of bits nprocs bitmap hw boost obj) (g1, c) w l e1 in
        let w1 = Changes-IsWellFormed t.changes w in
        let below = graph-Built g1 c obj g2 w1 t.in_range e2 in
        let w2 = Changes-IsWellFormed below.changes w1 in
        let l2 : vd < num_vertices g2 = omega (
          arith,
          (Changes-Extends t.changes).vertices_kept,
          (Changes-Extends below.changes).vertices_kept,
        ) in
        let behind = children-Built g2 vd rest h w2 l2 f2 in
        record {
          changes = Changes-trans (Changes-trans t.changes below.changes) behind.changes;
          edge_count = omega (
            arith,
            below.edge_count,
            behind.edge_count,
            ap length t.new_edges ∙ length-append (edges g) _,
          );
          same_root = behind.same_root ∙ below.same_root ∙ t.same_root;
        }
