-- ===== src/Tests/Searches.antt =====
-- A run of the search for the lowest vertex that contains a mask (src/util.cc).
use yloc.Prelude.{
  [], ◌∷◌, ℕ, ◌<◌, ◌≡◌, refl, true, some, ok, arith, any, ◌==◌, if◌then◌else◌, find_key, text_eq,
}
use yloc.Property.{value_as}
use yloc.Adapter.{shared_map, base_adapter}
use yloc.Graph.Changes.{link}
use yloc.GraphElement.{get, first_value, child, parent, new_element}
use yloc.Graph.{BoostGraph, Graph, edges, is_link, new_graph}
use yloc.Search.{mask_at, lowest}
use yloc.Search.Lowest.{Lowest, lowest-Lowest}
use yloc.Tests.Bits.{BitFun, function_bits}
use yloc.Tests.Lists.{boost_of}
use yloc.Tests.Sorts.{insertion}

abbrev graph_type : BoostGraph BitFun
graph_type = boost_of BitFun

abbrev first_cpu : BitFun
first_cpu = record { length = 2; at = λ i. i == 0 }

abbrev both_cpus : BitFun
both_cpus = record { length = 2; at = λ _. true }

abbrev last_cpu : BitFun
last_cpu = record { length = 2; at = λ i. i == 1 }

-- The processors of a machine with two cores.
abbrev cpus_of : ℕ → BitFun
cpus_of v = if v == 1 then first_cpu else if v == 2 then last_cpu else both_cpus

abbrev two_cores : Graph graph_type
two_cores = record (new_graph graph_type) {
  repr = record {
    count = 3;
    at = λ v. record new_element {
      m_adapters = record base_adapter { cpu_affinity_mask = ok (some (cpus_of v)) } ∷ [];
    };
    links = link 0 1 child ∷ link 1 0 parent ∷ link 0 2 child ∷ link 2 0 parent ∷ [];
  };
}

cores_readable : (v : ℕ) → mask_at function_bits graph_type two_cores v ≡ ok (some (cpus_of v))
unfolding get shared_map find_key text_eq first_value value_as
cores_readable v = refl

abbrev height : ℕ → ℕ
height v = if v == 0 then 1 else 0

cores_lower : (v t : ℕ) → any (is_link child v t) (edges two_cores) ≡ true → height t < height v
cores_lower v t h = ground arith

lowest-Lowest_example :
    (r : ℕ) × (lowest function_bits graph_type (insertion ℕ) first_cpu two_cores 2 0 ≡ some (ok r))
    × Lowest function_bits graph_type first_cpu two_cores 0 r
lowest-Lowest_example =
    lowest-Lowest function_bits graph_type first_cpu two_cores (λ v. some (cpus_of v))
      (λ v t c. cores_readable t) (insertion ℕ) height cores_lower 2 0 (omega arith)
