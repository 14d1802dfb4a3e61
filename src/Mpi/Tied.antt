-- ===== src/Mpi/Tied.antt =====
-- A vertex of a process that modules/mpi/init_graph.cc ties below another vertex.
use yloc.Prelude.{
  ℕ, suc, ◌<◌, ◌≤◌, ◌≡◌, ◌≢◌, ap, ◌∙◌, ◌⊎◌, inl, inr, ◌++◌, ◌∷◌, [], Bool-cases, if◌then◌else◌,
  ◌==◌, true, false, Text, find_key, some, arith,
}
use yloc.GraphElement.{new_element, add_adapter, child, parent}
use yloc.Graph.{BoostGraph, Graph, num_vertices, edges, vertex_at, add_child, add_edge}
use yloc.Graph.Changes.{Change, Changes, Changes-trans, one_change, edges-add_child, link}
use yloc.Graph.Invariants.{Changes-IsWellFormed}
use yloc.Graph.Vertices.{vertex_at-add_child}
use yloc.External.Bitset.{Bitset}
use yloc.External.CpuSets.{CpuSet}
use yloc.Affinity.{no_cpus, of_cpu_set}
use yloc.Hwloc.Build.{machine_id}
use yloc.Search.Lowest.{Lowest}
use yloc.Mpi.{rank_id, mpi_adapter, as_process}
use yloc.Mpi.Edges.{IsChild-in_range, deeper, tied-IsLayered, add_child_there, Lowest-end}
use yloc.Mpi.Placed.{IsSearchable, is_own, Attached}
use yloc.Mpi.Readable.{Reads, AllRead}
use yloc.Graph.Vertices.{add_child-AllHold}

deeper-le : (depth : ℕ → ℕ) (proc v : ℕ) → deeper depth proc v ≤ suc (depth v)
deeper-le depth proc v = elim (Bool-cases (v == proc)) [
  | inl e ↦ rw e (omega arith)
  | inr e ↦ rw e (omega arith)
]

-- The graph `k` has the vertex `proc` of a process, which is new and not tied yet.
pub record IsReady {Mask : Type 0} {boost : BoostGraph Mask} (i : ℕ) (g k : Graph boost) (proc : ℕ)
    : Type 0 where
  pub changes : Changes g k
  pub same_edges : edges k ≡ edges g
  pub same_root : k.m_root_vertex ≡ g.m_root_vertex
  pub in_range : proc < num_vertices k
  pub is_new : num_vertices g ≤ proc
  pub not_first : 0 < proc
  pub contents_kept : (v : ℕ) → v < num_vertices g → vertex_at k v ≡ vertex_at g v
  pub all_read : AllRead k
  pub found : find_key (rank_id i) k.m_identifier_map ≡ some proc
  pub other_ranks :
      (j : ℕ)
      → i ≢ j
      → find_key (rank_id j) k.m_identifier_map ≡ find_key (rank_id j) g.m_identifier_map

module _ (bits : Bitset) (nprocs : ℕ) (c : CpuSet) (boost : BoostGraph bits.Bits)
    (hostname : Text) where
  module _ (i : ℕ) (g : Graph boost) (depth : ℕ → ℕ) (s : IsSearchable bits boost g depth)
      (k : Graph boost) (proc : ℕ) (r : IsReady i g k proc) where
    pub ready-IsSearchable : IsSearchable bits boost k depth
    ready-IsSearchable = record {
      well_formed = Changes-IsWellFormed r.changes s.well_formed;
      all_read = r.all_read;
      layered = λ v t d. s.layered v t (rw r.same_edges at d);
    }

    -- The search ends at a vertex in front of that of the process.
    pub search_end :
        (mask : bits.Bits) (node : ℕ) → Lowest bits boost mask k k.m_root_vertex node → node < proc
    search_end mask node l = elim (Lowest-end bits boost mask k k.m_root_vertex node l) [
      | inl e ↦ elim s.well_formed.root_in_range [
        | inl zeroth ↦ omega (arith, e, r.same_root, zeroth, r.not_first)
        | inr below ↦ omega (arith, e, r.same_root, below, r.is_new)
      ]
      | inr (u, d) ↦
          omega
            (arith, (IsChild-in_range g u node s.well_formed (rw r.same_edges at d)).1, r.is_new)
    ]

    module _ (node : ℕ) (old : node < proc) where
      abbrev tied : Graph boost
      tied = add_child node proc k

      node_in_range : node < num_vertices k
      node_in_range = omega (arith, old, r.in_range)

      pub tied-Changes : Changes k tied
      tied-Changes = one_change (Change.tied k node proc node_in_range r.in_range)

      tied-IsSearchable : IsSearchable bits boost tied (deeper depth proc)
      tied-IsSearchable = record {
        well_formed = Changes-IsWellFormed tied-Changes ready-IsSearchable.well_formed;
        all_read = add_child-AllHold Reads k node proc node_in_range r.in_range r.all_read;
        layered =
            tied-IsLayered g tied depth node proc s.well_formed r.is_new
              (λ same. omega (arith, same, old))
              (edges-add_child k node proc node_in_range r.in_range
                ∙ ap (λ es. es ++ link node proc child ∷ link proc node parent ∷ []) r.same_edges)
              s.layered;
      }

      pub tied-Attached :
          (name : Text) (cpuset : c.Carrier)
          → vertex_at k proc
            ≡ add_adapter (as_process bits new_element) (
                mpi_adapter bits i (
                  if is_own bits nprocs c boost hostname name cpuset
                  then of_cpu_set bits nprocs c cpuset
                  else no_cpus bits nprocs))
          → ((is_own bits nprocs c boost hostname name cpuset ≡ false)
              × (find_key (machine_id name) k.m_identifier_map ≡ some node))
            ⊎ ((is_own bits nprocs c boost hostname name cpuset ≡ true)
                × (at : Graph boost) × Changes g at
                × Changes at tied
                × Lowest bits boost (of_cpu_set bits nprocs c cpuset) at g.m_root_vertex node)
          → Attached bits nprocs c boost hostname i name cpuset g depth tied
      unfolding add_child add_edge
      tied-Attached name cpuset e place =
          let (edge_down, edge_up) = add_child_there k node proc node_in_range r.in_range in
          record {
            changes = Changes-trans r.changes tied-Changes;
            next_depth = deeper depth proc;
            bounded = λ v. deeper-le depth proc v;
            searchable = tied-IsSearchable;
            contents_kept = λ v l.
                vertex_at-add_child k node proc v node_in_range r.in_range ∙ r.contents_kept v l;
            same_root = r.same_root;
            other_ranks = r.other_ranks;
            process = record {
              vertex = proc;
              node = node;
              found = r.found;
              contents = vertex_at-add_child k node proc proc node_in_range r.in_range ∙ e;
              edge_down = edge_down;
              edge_up = edge_up;
              placed = place;
            };
          }
