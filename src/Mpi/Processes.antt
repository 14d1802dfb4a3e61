-- ===== src/Mpi/Processes.antt =====
-- What init_graph of modules/mpi/init_graph.cc leaves.
use yloc.Prelude.{
  ℕ, Bool, true, false, ◌⊎◌, zero, suc, ◌+◌, ◌<◌, ◌≤◌, ◌≡◌, refl, ap, subst, ◌∙◌, inl, inr, List,
  [], ◌∷◌, Text, length, get_elem?, of_some, find_key, some, none, ok, arith,
}
use yloc.Prelude.Sorting.{Sorting}
use yloc.Graph.{BoostGraph, Graph, num_vertices, vertex_at}
use yloc.Graph.WellFormed.{IsWellFormed}
use yloc.Graph.Changes.{Changes, unchanged, Changes-trans}
use yloc.Graph.Growth.{Changes-Extends}
use yloc.Supermuc.Placed.{has_edge_kept}
use yloc.External.Bitset.{Bitset}
use yloc.External.CpuSets.{CpuSet}
use yloc.Hwloc.Build.{machine_id}
use yloc.Status.{success, init_error}
use yloc.Mpi.{rank_id, add_processes, make_mpi_graph, init_graph}
use yloc.Mpi.Placed.{IsSearchable, IsProcess, Attached}
use yloc.Mpi.Round.{add_process-Attached}

module _ (bits : Bitset) (nprocs : ℕ) (c : CpuSet) (boost : BoostGraph bits.Bits)
    (hostname : Text) where
  -- A process stays as it is while later changes leave the contents of the vertices alone.
  IsProcess-moved :
      (root : ℕ) (g0 g h h2 : Graph boost) (i : ℕ) (name : Text) (cpuset : c.Carrier)
      → Changes g0 g
      → Changes h h2
      → IsWellFormed h
      → ((v : ℕ) → v < num_vertices h → vertex_at h2 v ≡ vertex_at h v)
      → IsProcess bits nprocs c boost hostname root g h i name cpuset
      → IsProcess bits nprocs c boost hostname root g0 h2 i name cpuset
  IsProcess-moved root g0 g h h2 i name cpuset before after w kept p =
      let x = Changes-Extends after in
      record {
        vertex = p.vertex;
        node = p.node;
        found = x.ids_kept (rank_id i) p.vertex p.found;
        contents = kept p.vertex (w.ids_in_range (rank_id i) p.vertex p.found) ∙ p.contents;
        edge_down = has_edge_kept p.node p.vertex x p.edge_down;
        edge_up = has_edge_kept p.vertex p.node x p.edge_up;
        placed = elim p.placed [
          | inl (e, f) ↦ inl (e, x.ids_kept (machine_id name) p.node f)
          | inr (e, k, first, then_on, l) ↦
              inr (e, k, Changes-trans before first, Changes-trans then_on after, l)
        ];
      }

  -- What the loop from a rank on leaves.
  pub record AreAttached (i : ℕ) (ps : List (Text × c.Carrier)) (g h : Graph boost) : Type 0 where
    pub well_formed : IsWellFormed h
    pub changes : Changes g h
    pub contents_kept : (v : ℕ) → v < num_vertices g → vertex_at h v ≡ vertex_at g v
    pub processes :
        (j : ℕ) (p : Text × c.Carrier)
        → get_elem? ps j ≡ some p
        → IsProcess bits nprocs c boost hostname g.m_root_vertex g h (i + j) p.0 p.1

  -- The process of the first round, and those of the rounds after it.
  joined :
      (i : ℕ) (name : Text) (cpuset : c.Carrier) (ps : List (Text × c.Carrier))
      (g h1 h : Graph boost) (depth : ℕ → ℕ)
      → Attached bits nprocs c boost hostname i name cpuset g depth h1
      → AreAttached (suc i) ps h1 h
      → (j : ℕ) (p : Text × c.Carrier) → get_elem? ((name, cpuset) ∷ ps) j ≡ some p
      → IsProcess bits nprocs c boost hostname g.m_root_vertex g h (i + j) p.0 p.1
  joined i name cpuset ps g h1 h depth a rest zero p e =
      let own =
        IsProcess-moved g.m_root_vertex g g h1 h i name cpuset unchanged rest.changes
          a.searchable.well_formed rest.contents_kept a.process in
      subst (λ q. IsProcess bits nprocs c boost hostname g.m_root_vertex g h (i + 0) q.0 q.1)
        (of_some e)
        (subst (λ n. IsProcess bits nprocs c boost hostname g.m_root_vertex g h n name cpuset)
          (omega arith) own)
  joined i name cpuset ps g h1 h depth a rest (suc j) p e =
      let later =
        IsProcess-moved h1.m_root_vertex g h1 h h (suc i + j) p.0 p.1 a.changes unchanged
          rest.well_formed (λ v l. refl) (rest.processes j p e) in
      subst (λ r. IsProcess bits nprocs c boost hostname r g h (i + suc j) p.0 p.1) a.same_root
        (subst (λ n. IsProcess bits nprocs c boost hostname h1.m_root_vertex g h n p.0 p.1)
          (omega arith) later)

  module _ (sorting : Sorting ℕ) (fuel : ℕ) where
    add_processes-AreAttached :
        (ps : List (Text × c.Carrier)) (i : ℕ) (g : Graph boost) (depth : ℕ → ℕ)
        → IsSearchable bits boost g depth
        → ((j : ℕ) → i ≤ j → find_key (rank_id j) g.m_identifier_map ≡ none)
        → depth g.m_root_vertex + length ps ≤ fuel
        → (h : Graph boost) × (add_processes bits nprocs c boost sorting fuel hostname i ps g
            ≡ some (ok h))
          × AreAttached i ps g h
    unfolding add_processes
    add_processes-AreAttached [] i g depth s free l = (
      g,
      refl,
      record {
        well_formed = s.well_formed;
        changes = unchanged;
        contents_kept = λ v m. refl;
        processes = λ j p e. cc e;
      },
    )
    add_processes-AreAttached ((name, cpuset) ∷ ps) i g depth s free l =
        let (h1, e, a) =
          add_process-Attached bits nprocs c boost hostname i name cpuset g depth s
            (free i (omega arith)) sorting fuel (omega (arith, l)) in
        let (h, f, rest) =
          add_processes-AreAttached ps (suc i) h1 a.next_depth a.searchable
            (λ j m. a.other_ranks j (λ same. omega (arith, same, m)) ∙ free j (omega (arith, m)))
            (omega (arith, l, ap a.next_depth a.same_root, a.bounded g.m_root_vertex)) in
        (
          h,
          rw (add_processes, e) f,
          record {
            well_formed = rest.well_formed;
            changes = Changes-trans a.changes rest.changes;
            contents_kept = λ v m.
                rest.contents_kept v (omega (arith, m, (Changes-Extends a.changes).vertices_kept))
                ∙ a.contents_kept v m;
            processes = joined i name cpuset ps g h1 h depth a rest;
          },
        )

    -- init_graph of the MPI module, on a well-formed graph without vertices of ranks, in which every
    -- vertex can be asked for its mask and a number goes down along the child edges, where the fuel of
    -- each search is at least the number of the root and the number of processes together: if MPI is
    -- not initialised, it returns init_error and leaves the graph as it is. Otherwise it ends with
    -- success and changes the contents of no vertex that was there. Every rank then has a vertex that
    -- is a process with its rank and with the mask of the search, and is tied both ways to a vertex:
    -- to that of its host, or, where it is on the own host and may run on some processor, to the one
    -- that lowest_containing_vertex finds from the root in the graph of that time.
    pub init_graph-AreAttached :
        (initialized : Bool) (ps : List (Text × c.Carrier)) (g : Graph boost) (depth : ℕ → ℕ)
        → IsSearchable bits boost g depth
        → ((j : ℕ) → find_key (rank_id j) g.m_identifier_map ≡ none)
        → depth g.m_root_vertex + length ps ≤ fuel
        → ((initialized ≡ false)
            × (init_graph bits nprocs c boost sorting fuel initialized hostname ps g
                ≡ some (ok (g, init_error))))
          ⊎ ((initialized ≡ true)
              × (h : Graph boost) × (init_graph bits nprocs c boost sorting fuel initialized
                    hostname ps g
                  ≡ some (ok (h, success)))
              × AreAttached 0 ps g h)
    unfolding init_graph make_mpi_graph
    init_graph-AreAttached false ps g depth s free l = inl (refl, refl)
    init_graph-AreAttached true ps g depth s free l =
        let (h, e, a) = add_processes-AreAttached ps 0 g depth s (λ j m. free j) l in
        inr (refl, h, rw e refl, a)
