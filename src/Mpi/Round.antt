-- ===== src/Mpi/Round.antt =====
-- What a round of the loop over the processes in modules/mpi/init_graph.cc does.
use yloc.Prelude.{
  ℕ, ◌<◌, ◌≡◌, ◌≢◌, refl, sym, ap, subst, ◌∙◌, inl, inr, Bool-cases, if◌then◌else◌, false, Text,
  text_eq, codes, to_string, to_string-injective, eq_of_text_eq, append_cancel_left, find_key, some,
  none, ok, arith,
}
use yloc.Prelude.Sorting.{Sorting}
use yloc.GraphElement.{new_element, add_adapter}
use yloc.Graph.{BoostGraph, Graph, vertex_at, set_vertex, modify, add_vertex, add_child}
use yloc.Graph.WellFormed.{IsWellFormed, add_vertex_found}
use yloc.Graph.Changes.{Changes-trans}
use yloc.Graph.Identifiers.{lookup-add_vertex, num-add_vertex-le, find_kept}
use yloc.Graph.Invariants.{Changes-IsWellFormed}
use yloc.Graph.Reaches.{Reaches, named-Reaches}
use yloc.Graph.Vertices.{vertex_at-add_vertex, vertex_at-add_vertex_new}
use yloc.External.Bitset.{Bitset}
use yloc.External.CpuSets.{CpuSet}
use yloc.Affinity.{no_cpus, of_cpu_set}
use yloc.Hwloc.Build.{machine_id}
use yloc.Search.{lowest_containing_vertex}
use yloc.Search.Lowest.{Lowest}
use yloc.Mpi.{rank_id, mpi_adapter, as_process, attach_below, add_process}
use yloc.Mpi.Placed.{IsSearchable, search-Lowest, is_own, Attached}
use yloc.Mpi.Tied.{IsReady, ready-IsSearchable, search_end, tied-Changes, tied-Attached}
use yloc.Mpi.Readable.{
  Reads, process-Reads, Prepared, new-Prepared, set-Prepared, set-written, Prepared-AllRead,
  add_vertex-AllRead,
}

pub machine_not_rank : (name : Text) (i : ℕ) → text_eq (machine_id name) (rank_id i) ≡ false
unfolding text_eq
machine_not_rank name i = refl

rank_not_rank : (i j : ℕ) → i ≢ j → text_eq (rank_id i) (rank_id j) ≡ false
rank_not_rank i j h = elim (Bool-cases (text_eq (rank_id i) (rank_id j))) [
  | inl e ↦ absurd (
      h (
        to_string-injective i j (
          append_cancel_left (codes "mpi_rank:") (to_string i) (to_string j)
            (eq_of_text_eq (rank_id i) (rank_id j) e))))
  | inr e ↦ e
]

module _ (bits : Bitset) (nprocs : ℕ) (c : CpuSet) (boost : BoostGraph bits.Bits)
    (hostname : Text) where
  module _ (i : ℕ) (name : Text) (cpuset : c.Carrier) (g : Graph boost) (depth : ℕ → ℕ)
      (s : IsSearchable bits boost g depth)
      (free : find_key (rank_id i) g.m_identifier_map ≡ none) where
    abbrev hosted : Graph boost
    hosted = (add_vertex (machine_id name) g).0

    abbrev proc_vd : ℕ
    proc_vd = (add_vertex (rank_id i) hosted).1

    host_Reaches : Reaches g (add_vertex (machine_id name) g)
    host_Reaches = named-Reaches g (machine_id name) s.well_formed

    hosted-IsWellFormed : IsWellFormed hosted
    hosted-IsWellFormed = Changes-IsWellFormed host_Reaches.changes s.well_formed

    still_free : find_key (rank_id i) hosted.m_identifier_map ≡ none
    still_free =
        lookup-add_vertex g (machine_id name) (rank_id i) ∙ rw (machine_not_rank name i) free

    prepared : Prepared hosted (rank_id i) (add_vertex (rank_id i) hosted).0
    prepared = new-Prepared hosted (rank_id i) hosted-IsWellFormed still_free

    -- The vertex of the process, with the mask `m` in its adapter.
    abbrev written : Graph boost → bits.Bits → Graph boost
    written k m =
        set_vertex k proc_vd (add_adapter (as_process bits new_element) (mpi_adapter bits i m))

    -- The vertex of the process with its type, and then with the adapter.
    abbrev typed : Graph boost
    typed = modify (add_vertex (rank_id i) hosted).0 proc_vd (as_process bits)

    typed-Prepared : Prepared hosted (rank_id i) typed
    typed-Prepared =
        set-Prepared hosted (rank_id i) (add_vertex (rank_id i) hosted).0
          (as_process bits (vertex_at (add_vertex (rank_id i) hosted).0 proc_vd)) prepared

    typed_process : vertex_at typed proc_vd ≡ as_process bits new_element
    typed_process =
        set-written hosted (rank_id i) (add_vertex (rank_id i) hosted).0
          (as_process bits (vertex_at (add_vertex (rank_id i) hosted).0 proc_vd)) prepared
        ∙ ap (as_process bits) (vertex_at-add_vertex_new hosted (rank_id i) still_free)

    -- The machine of the process is found by its name.
    machine_found :
        (k : Graph boost)
        → Prepared hosted (rank_id i) k
        → find_key (machine_id name) k.m_identifier_map ≡ some (add_vertex (machine_id name) g).1
    machine_found k p =
        ap (find_key (machine_id name)) p.same_map
        ∙ find_kept hosted (rank_id i) (machine_id name) (add_vertex_found g (machine_id name))

    other_rank :
        (k : Graph boost) (j : ℕ)
        → Prepared hosted (rank_id i) k
        → i ≢ j
        → find_key (rank_id j) k.m_identifier_map ≡ find_key (rank_id j) g.m_identifier_map
    other_rank k j p h =
        ap (find_key (rank_id j)) p.same_map
        ∙ lookup-add_vertex hosted (rank_id i) (rank_id j)
        ∙ rw (rank_not_rank i j h)
            (lookup-add_vertex g (machine_id name) (rank_id j) ∙ rw (machine_not_rank name j) refl)

    written-IsReady :
        (k : Graph boost) (m : bits.Bits)
        → Prepared hosted (rank_id i) k
        → IsReady i g (written k m) proc_vd
    written-IsReady k m before =
        let x = add_adapter (as_process bits new_element) (mpi_adapter bits i m) in
        let p = set-Prepared hosted (rank_id i) k x before in
        let more = num-add_vertex-le g (machine_id name) in
        record {
          changes = Changes-trans host_Reaches.changes p.reaches.changes;
          same_edges = p.reaches.same_edges ∙ host_Reaches.same_edges;
          same_root = p.reaches.same_root ∙ host_Reaches.same_root;
          in_range = p.reaches.in_range;
          is_new = omega (arith, p.descriptor, more);
          not_first = omega (arith, p.descriptor, host_Reaches.in_range);
          contents_kept = λ v l.
              p.others v (omega (arith, l, more)) ∙ vertex_at-add_vertex g (machine_id name) v l;
          all_read =
              Prepared-AllRead hosted (rank_id i) (written k m) p
                (add_vertex-AllRead g (machine_id name) s.well_formed s.all_read)
                (subst Reads (sym (set-written hosted (rank_id i) k x before))
                  (process-Reads bits i m));
          found = ap (find_key (rank_id i)) p.same_map ∙ add_vertex_found hosted (rank_id i);
          other_ranks = λ j h. other_rank (written k m) j p h;
        }

    -- The graphs with the empty mask, and with the mask of the process.
    abbrev mask : bits.Bits
    mask = of_cpu_set bits nprocs c cpuset

    abbrev unmasked : Graph boost
    unmasked = written typed (no_cpus bits nprocs)

    abbrev masked : Graph boost
    masked = written unmasked mask

    unmasked-Prepared : Prepared hosted (rank_id i) unmasked
    unmasked-Prepared =
        set-Prepared hosted (rank_id i) typed
          (add_adapter (as_process bits new_element) (mpi_adapter bits i (no_cpus bits nprocs)))
          typed-Prepared

    add_process_lem :
        (sorting : Sorting ℕ) (fuel : ℕ)
        → add_process bits nprocs c boost sorting fuel hostname i name cpuset g ≡ (
            if is_own bits nprocs c boost hostname name cpuset
            then attach_below bits nprocs c boost sorting fuel proc_vd masked
                (lowest_containing_vertex bits boost sorting mask masked fuel)
            else some (ok (add_child (add_vertex (machine_id name) g).1 proc_vd unmasked)))
    unfolding add_process
    add_process_lem sorting fuel = rw typed_process refl

    -- A round ends, where the fuel is enough for the search from the root.
    pub add_process-Attached :
        (sorting : Sorting ℕ) (fuel : ℕ)
        → depth g.m_root_vertex < fuel
        → (h : Graph boost) × (add_process bits nprocs c boost sorting fuel hostname i name cpuset g
            ≡ some (ok h))
          × Attached bits nprocs c boost hostname i name cpuset g depth h
    add_process-Attached sorting fuel l =
        elim (Bool-cases (is_own bits nprocs c boost hostname name cpuset)) [
          | inr e ↦
              let ready = written-IsReady typed (no_cpus bits nprocs) typed-Prepared in
              let node = (add_vertex (machine_id name) g).1 in
              (
                add_child node proc_vd unmasked,
                add_process_lem sorting fuel ∙ rw e refl,
                tied-Attached bits nprocs c boost hostname i g depth s unmasked proc_vd ready node
                    (omega (arith, host_Reaches.in_range, prepared.descriptor)) name cpuset
                    (rw e (set-written hosted (rank_id i) typed _ typed-Prepared))
                    (inl (e, machine_found unmasked unmasked-Prepared)),
              )
          | inl e ↦
              let ready = written-IsReady unmasked mask unmasked-Prepared in
              let (r, f, found) =
                search-Lowest bits boost sorting mask masked depth fuel
                  (ready-IsSearchable bits nprocs c boost hostname i g depth s masked proc_vd ready)
                  (rw ready.same_root l) in
              let old =
                search_end bits nprocs c boost hostname i g depth s masked proc_vd ready mask r
                  found in
              (
                add_child r proc_vd masked,
                add_process_lem sorting fuel ∙ rw (e, f) refl,
                tied-Attached bits nprocs c boost hostname i g depth s masked proc_vd ready r old
                    name cpuset (rw e (set-written hosted (rank_id i) unmasked _ unmasked-Prepared))
                    (inr (
                      e,
                      masked,
                      ready.changes,
                      tied-Changes bits nprocs c boost hostname i g depth s masked proc_vd ready r
                          old,
                      subst (λ x. Lowest bits boost mask masked x r) ready.same_root found,
                    )),
              )
        ]
