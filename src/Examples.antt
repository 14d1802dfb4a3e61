-- ===== src/Examples.antt =====
-- The example programs of the directory example/ on the graph that init has built: the co-processor and
-- the logical cores next to it (example.cc), the distances between MPI processes (example-mpi.cc) and the
-- readings of GPUs (example-gpu.cc, one round of its loop). What is printed is a list of lines.
pub mod Classes
pub mod Hops
pub mod Minimum
pub mod Nearest
pub mod Processes
pub mod Hosted
use yloc.Prelude.{
  ℕ, zero, suc, ◌==◌, ltb, not, Bool, List, [], ◌∷◌, ◌++◌, map, Option, none, some, Text, codes,
  to_string, Result, ok, fault, ◌>>=◌, if◌then◌else◌,
}
use yloc.ComponentTypes.{ComponentType, accelerator, logical_core, cache, mpi_process, gpu}
use yloc.Property.{uint64}
use yloc.GraphElement
use yloc.GraphElement.{Vertex, Edge, get}
use yloc.Graph.{BoostGraph, Graph, vertex_at}
use yloc.External.AdjacencyList.{Link}
use yloc.External.FilteredGraph.{FilteredGraph}
use yloc.View.{
  GraphView, EdgeLabels, whole, num_vertices_view, vertex_range, print_property,
  write_graph_dot_file,
}
use yloc.Query.{bfs_hops}

-- The lines of find_distances.
pub data Line : Type 0 where
  found_accelerators : ℕ → Line
  first_accelerator : Text → Line
  number_of_pus : ℕ → Line
  minimum_distance : ℕ → Line
  hops : ℕ → ℕ → ℕ → Line

unfoldable pub line_text : Line → Text
line_text (found_accelerators n) = codes "number of found accelerators: " ++ to_string n
line_text (first_accelerator s) = codes "first accelerator:\n" ++ s
line_text (number_of_pus n) = codes "number of PUs: " ++ to_string n
line_text (minimum_distance n) = codes "minimum distance: " ++ to_string n
line_text (hops u v n) =
    codes "#hops ["
    ++ (to_string u ++ (codes " -> " ++ (to_string v ++ (codes "] = " ++ to_string n))))

-- The loop for the minimum.
unfoldable pub least : (ℕ → ℕ) → ℕ → List ℕ → ℕ
least distances mindist [] = mindist
least distances mindist (vd ∷ rest) =
    least distances (if ltb (distances vd) mindist then distances vd else mindist) rest

-- The value of `*first` of a range; at its end there is none.
abbrev pub front : List ℕ → Result ℕ
front [] = fault
front (v ∷ vs) = ok v

-- `value()` of an optional, which throws where there is none.
abbrev pub value_of : Option ℕ → Result ℕ
value_of none = fault
value_of (some n) = ok n

module _ {Mask : Type 0} {boost : BoostGraph Mask} where
  -- `g[v].is_a<...>()`, the predicate of the filtered graphs.
  abbrev pub is_of : Graph boost → ComponentType → ℕ → Bool
  is_of g c v = GraphElement.is_a (vertex_at g v) c

  -- `g[v].get("mpi_rank").value()`
  abbrev pub rank_at : Graph boost → ℕ → Result ℕ
  rank_at g v = do r ← get uint64 (vertex_at g v) (codes "mpi_rank"); value_of r

  -- The inner and the outer loop of example-mpi.cc: the rank of a process, and the rank of every process
  -- with the distance to it.
  unfoldable pub distances_to : (ℕ → ℕ) → Graph boost → List ℕ → Result (List (ℕ × ℕ))
  distances_to dist g [] = ok []
  distances_to dist g (v2 ∷ rest) = do
    rank ← rank_at g v2
    lines ← distances_to dist g rest
    ok ((rank, dist v2) ∷ lines)

module _ {Mask : Type 0} {boost : BoostGraph Mask}
    (filtered : FilteredGraph (Vertex Mask) (Edge Mask)) where
  abbrev pub view_of : Graph boost → ComponentType → GraphView Mask
  view_of g c = filtered.make_filtered_graph (whole g) (is_of g c)

module _ {Mask : Type 0} {boost : BoostGraph Mask}
    (breadth_first_search : Graph boost → ℕ → List (Link (Edge Mask))) where
  unfoldable pub distances_between :
      Graph boost → List ℕ → List ℕ → Result (List (ℕ × List (ℕ × ℕ)))
  unfolding distances_to
  distances_between g processes [] = ok []
  distances_between g processes (v1 ∷ rest) = do
    rank ← rank_at g v1
    lines ← distances_to (bfs_hops breadth_first_search g v1) g processes
    blocks ← distances_between g processes rest
    ok ((rank, lines) ∷ blocks)

module _ {Mask : Type 0} {boost : BoostGraph Mask}
    (filtered : FilteredGraph (Vertex Mask) (Edge Mask))
    (breadth_first_search : Graph boost → ℕ → List (Link (Edge Mask))) where
  -- What find_distances prints once it has the first accelerator and the first logical core.
  unfoldable pub nearest_cores : Graph boost → ℕ → ℕ → List Line
  unfolding least
  nearest_cores g vi first =
      let fgv_pu = view_of filtered g logical_core in
      let distances = bfs_hops breadth_first_search g vi in
      let mindist = least distances (distances first) (vertex_range fgv_pu) in
      let fgv_pu_min = filtered.make_filtered_graph fgv_pu (λ v. not (ltb mindist (distances v))) in
      first_accelerator (GraphElement.to_string (vertex_at g vi))
      ∷ number_of_pus (num_vertices_view fgv_pu)
      ∷ minimum_distance mindist
      ∷ map (λ vd. hops vi vd (distances vd)) (vertex_range fgv_pu_min)

  unfoldable pub distances_from : Graph boost → ℕ → Result (List Line)
  unfolding nearest_cores
  distances_from g vi = do
    first ← front (vertex_range (view_of filtered g logical_core))
    ok (nearest_cores g vi first)

  unfoldable pub find_distances : Graph boost → Result (List Line)
  unfolding distances_from
  find_distances g =
      let fgv_accelerator = view_of filtered g accelerator in
      let n = num_vertices_view fgv_accelerator in
      if ltb n 1 then ok (found_accelerators n ∷ []) else (do
        vi ← front (vertex_range fgv_accelerator)
        lines ← distances_from g vi
        ok (found_accelerators n ∷ lines))

  -- filter_graph_example: the content of its file.
  unfoldable pub filter_graph_example :
      (List (ℕ × Text) → EdgeLabels → Text) → (Mask → Text) → Graph boost → Result Text
  filter_graph_example write_graphviz show_mask g =
      write_graph_dot_file write_graphviz show_mask (view_of filtered g cache)
        (codes "memory" ∷ codes "numa_affinity" ∷ []) Bool.false

  -- What the process with the given rank prints.
  unfoldable pub mpi_distances : ℕ → Graph boost → Result (List (ℕ × List (ℕ × ℕ)))
  unfolding distances_between
  mpi_distances rank g =
      let graph_view = view_of filtered g mpi_process in
      let blocks =
        distances_between breadth_first_search g (vertex_range graph_view)
          (vertex_range graph_view) in
      if rank == 0 then blocks else ok []

-- The properties that example-gpu.cc prints of a GPU, and one round over the GPUs with their numbers.
abbrev pub gpu_properties : List Text
gpu_properties =
    codes "memory"
    ∷ codes "memory_usage"
    ∷ codes "memory_load"
    ∷ codes "memory_frequency"
    ∷ codes "bdfid"
    ∷ codes "numa_affinity"
    ∷ codes "temperature"
    ∷ codes "frequency"
    ∷ codes "load"
    ∷ codes "power"
    ∷ []

abbrev pub ruler : Text
ruler = codes "==========================\n"

module _ {Mask : Type 0} (show_mask : Mask → Text) where
  unfoldable pub print_properties : GraphView Mask → ℕ → List Text → Result Text
  print_properties g vd [] = ok []
  print_properties g vd (property ∷ rest) = do
    line ← print_property show_mask g vd property
    lines ← print_properties g vd rest
    ok (line ++ lines)

  module _ {boost : BoostGraph Mask} where
    unfoldable pub print_gpus : Graph boost → ℕ → List ℕ → Result Text
    unfolding print_properties
    print_gpus g number [] = ok []
    print_gpus g number (vd ∷ rest) = do
      lines ← print_properties (whole g) vd gpu_properties
      others ← print_gpus g (suc number) rest
      ok (
          ruler
          ++ (codes "GPU"
              ++ (to_string number
                  ++ (codes " [vd="
                      ++ (to_string vd ++ (codes "]\n" ++ (ruler ++ (lines ++ others))))))))

    unfoldable pub gpu_output : FilteredGraph (Vertex Mask) (Edge Mask) → Graph boost → Result Text
    unfolding print_gpus
    gpu_output filtered g = print_gpus g 0 (vertex_range (view_of filtered g gpu))
