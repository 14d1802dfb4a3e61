-- ===== src/Tests/RocmRuns.antt =====
-- A run of the ROCm module (modules/rocm/).
use yloc.Prelude.{◌≡◌, refl, ok, arith}
use yloc.Status.{success}
use yloc.Graph.{BoostGraph, Graph, new_graph}
use yloc.Graph.Invariants.{new_graph-IsWellFormed}
use yloc.Interconnect.Gpus.{IsGpuGraph}
use yloc.Rocm.Adapter.{rocm_adapter}
use yloc.Rocm.Build.{one_hop, init_graph}
use yloc.Rocm.Init.{id, IsListed, init_graph-IsGpuGraph}
use yloc.Tests.Bits.{BitFun}
use yloc.Tests.Lists.{boost_of}
use yloc.Tests.Devices.{listed_smi, two_rates}

abbrev graph_type : BoostGraph BitFun
graph_type = boost_of BitFun

pub listed_smi-IsListed : IsListed listed_smi 256 (λ i. two_rates) 2
listed_smi-IsListed = record {
  starts = refl;
  bandwidths = λ i l. refl;
  readable = λ i l. record {
    some_supported = omega arith;
    fits = omega arith;
    rates = omega arith;
    widths = omega arith;
    current_supported = omega arith;
  };
}

init_graph-IsGpuGraph_example :
    (h : Graph graph_type) × (init_graph listed_smi (λ i j. 0) (new_graph graph_type)
      ≡ ok (h, success))
    × IsGpuGraph
        (id listed_smi 256 (λ i. two_rates))
        (λ j. rocm_adapter listed_smi j)
        2
        (one_hop listed_smi (λ i j. 0))
        (new_graph graph_type)
        h
init_graph-IsGpuGraph_example =
    init_graph-IsGpuGraph listed_smi 256 (λ i. two_rates) 2 listed_smi-IsListed (λ i j. 0)
      (new_graph graph_type) refl new_graph-IsWellFormed
