-- ===== src/Mpi.antt =====
-- The MPI module (modules/mpi/): the vertices of processes, below the vertex of their host or, for the
-- processes of the own host, below the lowest component that contains the processors they may run on.
-- MPI is a parameter: the gathered names and CPU sets, in the order of the ranks. `none` stands for
-- running out of the fuel of the search, which is done in the root graph, the one that init_graph is
-- given.
pub mod Edges
pub mod Readable
pub mod Placed
pub mod Tied
pub mod Round
pub mod Processes
pub mod Composed
use yloc.Prelude.{
  ℕ, suc, List, [], ◌∷◌, Bool, not, Text, codes, to_string, text_eq, ◌++◌, ◌&&◌, if◌then◌else◌,
  Option, some, none, Result, ok, fault,
}
use yloc.Prelude.Sorting.{Sorting}
use yloc.Status.{Status, success, init_error}
use yloc.ComponentTypes.{mpi_process}
use yloc.Adapter.{Adapter, base_adapter}
use yloc.GraphElement.{Vertex, add_adapter}
use yloc.Graph.{BoostGraph, Graph, modify, vertex_at, set_vertex, add_vertex, add_child}
use yloc.External.Bitset.{Bitset}
use yloc.External.CpuSets.{CpuSet}
use yloc.Affinity.{no_cpus, of_cpu_set}
use yloc.Hwloc.Build.{machine_id}
use yloc.Search.{lowest_containing_vertex}

abbrev pub rank_id : ℕ → Text
rank_id i = codes "mpi_rank:" ++ to_string i

module _ (bits : Bitset) where
  -- `MPIAdapter(i)` with the mask that it holds.
  unfoldable pub mpi_adapter : ℕ → bits.Bits → Adapter bits.Bits
  mpi_adapter i m_cpu_affinity_mask = record base_adapter {
    name = to_string i;
    mpi_rank = ok (some i);
    numa_affinity = ok none;
    cpu_affinity_mask =
        ok (if bits.any m_cpu_affinity_mask then some m_cpu_affinity_mask else none);
  }

  abbrev pub as_process : Vertex bits.Bits → Vertex bits.Bits
  as_process v = record v { m_type = mpi_process }

module _ (bits : Bitset) (nprocs : ℕ) (c : CpuSet) (boost : BoostGraph bits.Bits)
    (sorting : Sorting ℕ) (fuel : ℕ) where
  -- The end of a round: the two edges below the vertex that was found.
  abbrev pub attach_below : ℕ → Graph boost → Option (Result ℕ) → Option (Result (Graph boost))
  attach_below proc_vd g none = none
  attach_below proc_vd g (some fault) = some fault
  attach_below proc_vd g (some (ok node_vd)) = some (ok (add_child node_vd proc_vd g))

  -- One round of the loop over the processes, for the rank `i`. The adapter is shared with the vertex,
  -- which reads the mask that is set after the adapter was added.
  unfoldable pub add_process :
      Text → ℕ → Text → c.Carrier → Graph boost → Option (Result (Graph boost))
  unfolding mpi_adapter
  add_process hostname i name cpuset g =
      let (g1, node_vd) = add_vertex (machine_id name) g in
      let (g2, proc_vd) = add_vertex (rank_id i) g1 in
      let g3 = modify g2 proc_vd (as_process bits) in
      let process = vertex_at g3 proc_vd in
      let g4 =
        set_vertex g3 proc_vd (add_adapter process (mpi_adapter bits i (no_cpus bits nprocs))) in
      let mask = of_cpu_set bits nprocs c cpuset in
      let g5 = set_vertex g4 proc_vd (add_adapter process (mpi_adapter bits i mask)) in
      if text_eq name hostname && bits.any mask
      then attach_below proc_vd g5 (lowest_containing_vertex bits boost sorting mask g5 fuel)
      else some (ok (add_child node_vd proc_vd g4))

  -- The loop from the rank `i` on.
  unfoldable pub add_processes :
      Text → ℕ → List (Text × c.Carrier) → Graph boost → Option (Result (Graph boost))
  unfolding add_process
  add_processes hostname i [] g = some (ok g)
  add_processes hostname i ((name, cpuset) ∷ rest) g = elim (add_process hostname i name cpuset g) [
    | none ↦ none
    | some fault ↦ some fault
    | some (ok h) ↦ add_processes hostname (suc i) rest h
  ]

  unfoldable pub make_mpi_graph :
      Text → List (Text × c.Carrier) → Graph boost → Option (Result (Graph boost))
  unfolding add_processes
  make_mpi_graph hostname processes g = add_processes hostname 0 processes g

  -- `ModuleMPI::init_graph`
  unfoldable pub init_graph :
      Bool → Text → List (Text × c.Carrier) → Graph boost → Option (Result (Graph boost × Status))
  unfolding make_mpi_graph
  init_graph initialized hostname processes g =
      if not initialized
      then some (ok (g, init_error))
      else (elim (make_mpi_graph hostname processes g) [
        | none ↦ none
        | some fault ↦ some fault
        | some (ok h) ↦ some (ok (h, success))
      ])
