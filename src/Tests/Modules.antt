-- ===== src/Tests/Modules.antt =====
-- Runs of init (src/init.cc) and of the SuperMUC module.
use yloc.Prelude.{◌≡◌, refl, List, [], ◌∷◌, true, Text, codes, ok, All}
use yloc.Status.{success}
use yloc.Graph.{BoostGraph, Graph, new_graph}
use yloc.Graph.WellFormed.{IsWellFormed}
use yloc.Graph.Changes.{Changes}
use yloc.Graph.Invariants.{new_graph-IsWellFormed}
use yloc.Supermuc.{make_supermuc_graph}
use yloc.Supermuc.Hosts.{IsPlaced, make_supermuc_graph-IsPlaced}
use yloc.Modules.{Module, IsSafe, init}
use yloc.Modules.Filled.{
  supermuc_module, supermuc_module-IsSafe, hwloc_module, hwloc_module-IsSafe, rocm_module,
  rocm_module-IsSafe,
}
use yloc.Modules.Order.{IsInOrder, Runs, init-Runs}
use yloc.Hwloc.Total.{IsSupported}
use yloc.Tests.Bits.{BitFun, function_bits}
use yloc.Tests.Cpus.{bitmap_list}
use yloc.Tests.Lists.{boost_of}
use yloc.Tests.Objects.{listed_hwloc, machine_tree}
use yloc.Tests.Sorts.{insertion}
use yloc.Tests.Devices.{listed_smi, two_rates}
use yloc.Tests.RocmRuns.{listed_smi-IsListed}

abbrev graph_type : BoostGraph BitFun
graph_type = boost_of BitFun

abbrev two_hosts : List Text
two_hosts = codes "i01r02c03s04" ∷ codes "i01r02c03s05" ∷ []

make_supermuc_graph-IsPlaced_example :
    Changes (new_graph graph_type) (make_supermuc_graph two_hosts (new_graph graph_type))
    × All (IsPlaced (make_supermuc_graph two_hosts (new_graph graph_type))) two_hosts
make_supermuc_graph-IsPlaced_example =
    make_supermuc_graph-IsPlaced two_hosts (new_graph graph_type) new_graph-IsWellFormed

machine-IsSupported : IsSupported machine_tree
unfolding IsSupported
machine-IsSupported = (λ e. cc e, tt, ((λ _. refl), ((λ _. refl), tt, tt), tt))

abbrev three_modules : List (Module graph_type)
three_modules =
    supermuc_module graph_type true true (λ s. 4) (codes "i01r02c03s04") two_hosts
    ∷ hwloc_module function_bits 4 bitmap_list listed_hwloc graph_type (codes "i01r02c03s04")
        machine_tree
    ∷ rocm_module listed_smi (λ i j. 0) graph_type
    ∷ []

three_modules-IsSafe : All (IsSafe graph_type) three_modules
three_modules-IsSafe = (
  supermuc_module-IsSafe graph_type true true (λ s. 4) (codes "i01r02c03s04") two_hosts,
  (
    hwloc_module-IsSafe function_bits 4 bitmap_list listed_hwloc graph_type (codes "i01r02c03s04")
        machine_tree refl machine-IsSupported,
    (
      rocm_module-IsSafe listed_smi (λ i j. 0) graph_type 256 (λ i. two_rates) 2 listed_smi-IsListed
          refl,
      tt,
    ),
  ),
)

init-Runs_example :
    (h : Graph graph_type) × (ran : List (Module graph_type)) × (init graph_type
        (insertion (Module graph_type))
        three_modules
        (new_graph graph_type)
      ≡ ok (h, success))
    × IsInOrder graph_type three_modules ran
    × Runs graph_type ran (new_graph graph_type) h
    × IsWellFormed h
    × Changes (new_graph graph_type) h
init-Runs_example =
    init-Runs graph_type (insertion (Module graph_type)) three_modules (new_graph graph_type)
      three_modules-IsSafe new_graph-IsWellFormed
