-- ===== src/Tests/Programs.antt =====
-- Runs of the views of src/include/yloc/util.h and of the program of example/example.cc.
use yloc.Prelude.{
  ℕ, zero, suc, ◌<◌, ◌≤◌, ◌≡◌, ◌⊎◌, ◌↔◌, refl, sym, subst, true, List, [], ◌∷◌, ◌++◌, ◌==◌, ◌&&◌,
  keep, Memᴰ, Option, Text, codes, ok, fault, arith, if◌then◌else◌,
}
use yloc.External.FilteredGraph.{FilteredGraph}
use yloc.ComponentTypes
use yloc.ComponentTypes.{ComponentType, accelerator, logical_core, gpu, node}
use yloc.GraphElement
use yloc.GraphElement.{Vertex, Edge, new_element, get_string}
use yloc.Graph.{Graph, num_vertices}
use yloc.Query.{bfs_hops}
use yloc.View.{whole, vertex_range, num_vertices_view, EdgeLabels, write_graph_dot_file}
use yloc.View.Counting.{num_vertices_view_filtered}
use yloc.View.Labels.{write_graph_dot_file-outcome}
use yloc.Query.Shortest.{Walk, start, step, IsBreadthFirst}
use yloc.Examples.{
  Line, found_accelerators, first_accelerator, number_of_pus, minimum_distance, hops,
  find_distances,
}
use yloc.Examples.Classes.{Is}
use yloc.Examples.Hops.{PrintsNearest}
use yloc.Examples.Nearest.{find_distances-outcome}
use yloc.Tests.Bits.{BitFun}
use yloc.Tests.Queries.{
  graph_type, first_link, second_link, path_of, path_graph, path_search, path_search-IsBreadthFirst,
}

-- A filtered graph as the lists of what is kept.
abbrev pub list_filtered : {V E : Type 0} → FilteredGraph V E
list_filtered = record {
  make_filtered_graph = λ g p. record g {
    vertices = keep p g.vertices;
    edges = keep (λ l. p l.source && p l.target) g.edges;
  };
  vertices-make_filtered_graph = λ g p. refl;
  edges-make_filtered_graph = λ g p. refl;
  element-make_filtered_graph = λ g p v. refl;
}

num_vertices_view_filtered_example :
    (num_vertices_view (whole path_graph) ≡ num_vertices path_graph)
    × (num_vertices_view (list_filtered.make_filtered_graph (whole path_graph) (λ v. v == 1))
        ≤ num_vertices path_graph)
    × ((num_vertices_view (list_filtered.make_filtered_graph (whole path_graph) (λ v. v == 1))
          ≡ num_vertices path_graph)
        ↔ ((v : ℕ) → v < num_vertices path_graph → (v == 1) ≡ true))
num_vertices_view_filtered_example =
    num_vertices_view_filtered list_filtered path_graph (λ v. v == 1)

-- A writer that puts the labels one after the other.
abbrev labels_text : List (ℕ × Text) → EdgeLabels → Text
labels_text [] es = []
labels_text ((v, t) ∷ rest) es = t ++ labels_text rest es

abbrev no_bits : BitFun → Text
no_bits m = []

write_graph_dot_file-outcome_example :
    ((file : Text) × (write_graph_dot_file labels_text no_bits
          (whole path_graph)
          (codes "memory" ∷ [])
          true
        ≡ ok file)
      × ((v : ℕ) (k : Text)
          → Memᴰ v (whole path_graph).vertices
          → Memᴰ k (codes "memory" ∷ [])
          → (p : Option Text) × (get_string no_bits ((whole path_graph).element v) k ≡ ok p)))
    ⊎ ((write_graph_dot_file labels_text no_bits (whole path_graph) (codes "memory" ∷ []) true
          ≡ fault)
        × ((v : ℕ) × (k : Text) × Memᴰ v (whole path_graph).vertices
            × Memᴰ k (codes "memory" ∷ [])
            × (get_string no_bits ((whole path_graph).element v) k ≡ fault)))
write_graph_dot_file-outcome_example =
    write_graph_dot_file-outcome no_bits labels_text (whole path_graph) (codes "memory" ∷ []) true

-- A GPU, a component between, and a logical core.
abbrev type_of : ℕ → ComponentType
type_of v = if v == 0 then gpu else if v == 2 then logical_core else node

abbrev machine : Graph graph_type
machine = path_of (λ v. record new_element { m_type = type_of v })

only_gpu : (a : ℕ) → Is machine accelerator a → a ≡ 0
unfolding GraphElement.is_a ComponentTypes.is_a
only_gpu zero h = refl
only_gpu (suc zero) h = cc h.of_class
only_gpu (suc (suc zero)) h = cc h.of_class
only_gpu (suc (suc (suc a))) h = absurd (omega (arith, h.in_range))

only_core : (v : ℕ) → Is machine logical_core v → v ≡ 2
unfolding GraphElement.is_a ComponentTypes.is_a
only_core zero h = cc h.of_class
only_core (suc zero) h = cc h.of_class
only_core (suc (suc zero)) h = refl
only_core (suc (suc (suc a))) h = absurd (omega (arith, h.in_range))

machine-IsBreadthFirst :
    (a : ℕ) → Is machine accelerator a → IsBreadthFirst machine a (path_search machine a)
machine-IsBreadthFirst a h =
    subst (λ x. IsBreadthFirst machine x (path_search machine x)) (sym (only_gpu a h))
      (path_search-IsBreadthFirst (λ v. record new_element { m_type = type_of v }))

gpu_reaches_core :
    (a v : ℕ) → Is machine accelerator a → Is machine logical_core v → (k : ℕ) × Walk machine a k v
gpu_reaches_core a v h k =
    subst (λ x. (k : ℕ) × Walk machine x k v) (sym (only_gpu a h))
      (subst (λ y. (k : ℕ) × Walk machine 0 k y) (sym (only_core v k))
        (2, step second_link (step first_link start (Memᴰ.head refl)) (Memᴰ.tail (Memᴰ.head refl))))

find_distances-outcome_example :
    (((a : ℕ) → ¬ Is machine accelerator a)
      × (find_distances list_filtered path_search machine ≡ ok (found_accelerators 0 ∷ [])))
    ⊎ (((a : ℕ) × Is machine accelerator a)
        × ((v : ℕ) → ¬ Is machine logical_core v)
        × (find_distances list_filtered path_search machine ≡ fault))
    ⊎ ((a : ℕ) × Is machine accelerator a
        × ((b : ℕ) → Is machine accelerator b → a ≤ b)
        × (lines : List Line) × (find_distances list_filtered path_search machine ≡ ok lines)
        × PrintsNearest machine a lines)
find_distances-outcome_example =
    find_distances-outcome list_filtered path_search machine machine-IsBreadthFirst gpu_reaches_core

find_distances_run :
    find_distances list_filtered path_search machine
    ≡ ok (
        found_accelerators 1
        ∷ first_accelerator (codes "GPU: ")
        ∷ number_of_pus 1
        ∷ minimum_distance 2
        ∷ hops 0 2 2
        ∷ [])
unfolding find_distances num_vertices_view whole GraphElement.is_a ComponentTypes.is_a vertex_range
    GraphElement.to_string bfs_hops ComponentTypes.to_string
find_distances_run = refl
