-- ===== src/Mpi/Placed.antt =====
-- What modules/mpi/init_graph.cc leaves for a process, and the search that it relies on.
use yloc.Prelude.{
  ℕ, suc, Bool, ◌<◌, ◌≤◌, ◌≡◌, ◌≢◌, refl, ◌⊎◌, ◌&&◌, if◌then◌else◌, true, false, Text, text_eq,
  find_key, Option, some, none, Result, ok, fault,
}
use yloc.Prelude.Sorting.{Sorting}
use yloc.GraphElement.{new_element, add_adapter}
use yloc.Graph.{BoostGraph, Graph, num_vertices, vertex_at, has_edge, get_root_vertex}
use yloc.Graph.WellFormed.{IsWellFormed}
use yloc.Graph.Changes.{Changes}
use yloc.External.Bitset.{Bitset}
use yloc.External.CpuSets.{CpuSet}
use yloc.Affinity.{no_cpus, of_cpu_set}
use yloc.Hwloc.Build.{machine_id}
use yloc.Search.{mask_at, lowest_containing_vertex}
use yloc.Search.Lowest.{Lowest, lowest-Lowest}
use yloc.Mpi.{rank_id, mpi_adapter, as_process}
use yloc.Mpi.Edges.{IsLayered, IsChild-in_range}
use yloc.Mpi.Readable.{AllRead}

abbrev or_none : {A : Type 0} → Result (Option A) → Option A
or_none (ok o) = o
or_none fault = none

module _ (bits : Bitset) (boost : BoostGraph bits.Bits) where
  -- What the search needs of the graph.
  pub record IsSearchable (g : Graph boost) (depth : ℕ → ℕ) : Type 0 where
    pub well_formed : IsWellFormed g
    pub all_read : AllRead g
    pub layered : IsLayered g depth

  pub search-Lowest :
      (sorting : Sorting ℕ) (mask : bits.Bits) (k : Graph boost) (depth : ℕ → ℕ) (fuel : ℕ)
      → IsSearchable k depth
      → depth k.m_root_vertex < fuel
      → (r : ℕ) × (lowest_containing_vertex bits boost sorting mask k fuel ≡ some (ok r))
        × Lowest bits boost mask k k.m_root_vertex r
  unfolding lowest_containing_vertex get_root_vertex
  search-Lowest sorting mask k depth fuel s l =
      lowest-Lowest bits boost mask k (λ t. or_none (mask_at bits boost k t))
        (λ v t c. let (o, e) = s.all_read t (IsChild-in_range k v t s.well_formed c).1 in rw e refl)
        sorting depth s.layered fuel k.m_root_vertex l

module _ (bits : Bitset) (nprocs : ℕ) (c : CpuSet) (boost : BoostGraph bits.Bits)
    (hostname : Text) where
  -- The search is done for a process of the own host that may run on some processor.
  abbrev pub is_own : Text → c.Carrier → Bool
  is_own name cpuset = text_eq name hostname && bits.any (of_cpu_set bits nprocs c cpuset)

  -- The vertex of a process after the call: it is found by its rank, has the type and the adapter of a
  -- process, and is tied to the vertex of its host or to the one that the search found.
  pub record IsProcess (root : ℕ) (g h : Graph boost) (i : ℕ) (name : Text) (cpuset : c.Carrier)
      : Type 0 where
    pub vertex : ℕ
    pub node : ℕ
    pub found : find_key (rank_id i) h.m_identifier_map ≡ some vertex
    pub contents :
        vertex_at h vertex
        ≡ add_adapter (as_process bits new_element) (
            mpi_adapter bits i
              (if is_own name cpuset then of_cpu_set bits nprocs c cpuset else no_cpus bits nprocs))
    pub edge_down : has_edge h node vertex ≡ true
    pub edge_up : has_edge h vertex node ≡ true
    pub placed :
        ((is_own name cpuset ≡ false) × (find_key (machine_id name) h.m_identifier_map ≡ some node))
        ⊎ ((is_own name cpuset ≡ true)
            × (k : Graph boost) × Changes g k
            × Changes k h
            × Lowest bits boost (of_cpu_set bits nprocs c cpuset) k root node)

  -- What a round leaves: a graph that can be searched again, in which only the new vertex and the
  -- vertex of the host are new.
  pub record Attached (i : ℕ) (name : Text) (cpuset : c.Carrier) (g : Graph boost) (depth : ℕ → ℕ)
      (h : Graph boost) : Type 0 where
    pub changes : Changes g h
    pub next_depth : ℕ → ℕ
    pub bounded : (v : ℕ) → next_depth v ≤ suc (depth v)
    pub searchable : IsSearchable bits boost h next_depth
    pub contents_kept : (v : ℕ) → v < num_vertices g → vertex_at h v ≡ vertex_at g v
    pub same_root : h.m_root_vertex ≡ g.m_root_vertex
    pub other_ranks :
        (j : ℕ)
        → i ≢ j
        → find_key (rank_id j) h.m_identifier_map ≡ find_key (rank_id j) g.m_identifier_map
    pub process : IsProcess g.m_root_vertex g h i name cpuset
