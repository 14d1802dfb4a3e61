-- ===== src/Tests/Ranks.antt =====
-- A run of the MPI module (modules/mpi/init_graph.cc).
use yloc.Prelude.{
  true, false, ◌⊎◌, ◌≡◌, refl, ℕ, List, [], ◌∷◌, Text, codes, some, ok, arith, find_key,
}
use yloc.Graph.{BoostGraph, Graph, new_graph}
use yloc.Graph.Invariants.{new_graph-IsWellFormed}
use yloc.Status.{success, init_error}
use yloc.Mpi.{init_graph}
use yloc.Mpi.Placed.{IsSearchable}
use yloc.Mpi.Processes.{AreAttached, init_graph-AreAttached}
use yloc.Tests.Bits.{BitFun, function_bits}
use yloc.Tests.Cpus.{cpu_list}
use yloc.Tests.Lists.{boost_of}
use yloc.Tests.Sorts.{insertion}

abbrev graph_type : BoostGraph BitFun
graph_type = boost_of BitFun

-- Two processes on the own host and one on another; the second may run on the CPUs 0 and 2.
abbrev pub three_ranks : List (Text × cpu_list.Carrier)
three_ranks = (codes "node7", []) ∷ (codes "node7", 0 ∷ 2 ∷ []) ∷ (codes "node8", 1 ∷ []) ∷ []

new_graph-IsSearchable : IsSearchable function_bits graph_type (new_graph graph_type) (λ v. 0)
new_graph-IsSearchable = record {
  well_formed = new_graph-IsWellFormed;
  all_read = λ v l. absurd (omega (arith, l));
  layered = λ v t e. cc e;
}

init_graph-AreAttached_example :
    ((true ≡ false)
      × (init_graph function_bits 4 cpu_list graph_type
            (insertion ℕ)
            3
            true
            (codes "node7")
            three_ranks
            (new_graph graph_type)
          ≡ some (ok (new_graph graph_type, init_error))))
    ⊎ ((true ≡ true)
        × (h : Graph graph_type) × (init_graph function_bits 4 cpu_list graph_type
              (insertion ℕ)
              3
              true
              (codes "node7")
              three_ranks
              (new_graph graph_type)
            ≡ some (ok (h, success)))
        × AreAttached function_bits 4 cpu_list graph_type
            (codes "node7")
            0
            three_ranks
            (new_graph graph_type)
            h)
unfolding find_key
init_graph-AreAttached_example =
    init_graph-AreAttached function_bits 4 cpu_list graph_type (codes "node7") (insertion ℕ) 3 true
      three_ranks (new_graph graph_type) (λ v. 0) new_graph-IsSearchable (λ j. refl) (omega arith)
