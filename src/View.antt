-- ===== src/View.antt =====
-- The helpers of src/include/yloc/util.h for graphs and their views. What a stream is given is a text;
-- boost::write_graphviz is a parameter, the text that it writes for labels of vertices and edges.
pub mod Counting
pub mod Labels
use yloc.Prelude.{
  ℕ, zero, suc, ◌+◌, Bool, List, [], ◌∷◌, ◌++◌, map, Option, none, some, Text, codes, to_string,
  Result, ok, ◌>>=◌, if◌then◌else◌,
}
use yloc.GraphElement
use yloc.GraphElement.{
  Vertex, Edge, EdgeType, parent, child, gpu_interconnect, edge_type_max, get_string,
}
use yloc.Graph
use yloc.Graph.{BoostGraph, Graph, num_vertices, vertex_at}
use yloc.External.AdjacencyList.{Link}
use yloc.External.FilteredGraph.{View}

-- `left` numbers from `first` on.
unfoldable pub numbers_from : ℕ → ℕ → List ℕ
numbers_from first zero = []
numbers_from first (suc left) = first ∷ numbers_from (suc first) left

-- `boost::vertices` of a graph, whose descriptors are the numbers below that of its vertices.
unfoldable pub vertices : ℕ → List ℕ
unfolding numbers_from
vertices n = numbers_from 0 n

abbrev pub GraphView : Type 0 → Type 0
GraphView Mask = View (Vertex Mask) (Edge Mask)

-- A topology graph as the templates see it.
unfoldable pub whole : {Mask : Type 0} {boost : BoostGraph Mask} → Graph boost → GraphView Mask
unfolding vertices
whole g = record {
  vertices = vertices (num_vertices g);
  edges = Graph.edges g;
  element = λ v. vertex_at g v;
}

-- The loop of num_vertices_view.
count_on : ℕ → List ℕ → ℕ
count_on num_vertices [] = num_vertices
count_on num_vertices (vi ∷ rest) = count_on (num_vertices + 1) rest

unfoldable pub num_vertices_view : {Mask : Type 0} → GraphView Mask → ℕ
unfolding count_on
num_vertices_view gv = count_on 0 gv.vertices

-- `vertex_range` and `edge_range`
unfoldable pub vertex_range : {Mask : Type 0} → GraphView Mask → List ℕ
vertex_range graph = graph.vertices

unfoldable pub edge_range : {Mask : Type 0} → GraphView Mask → List (Link (Edge Mask))
edge_range graph = graph.edges

module _ {Mask : Type 0} (show_mask : Mask → Text) where
  -- What print_property writes.
  abbrev pub property_output : Text → Option Text → Text
  property_output property (some p) = property ++ (codes "=" ++ (p ++ codes "\n"))
  property_output property none = property ++ (codes "=" ++ codes "has no value\n")

  unfoldable pub print_property : GraphView Mask → ℕ → Text → Result Text
  print_property g d property = do
    p ← get_string show_mask (g.element d) property
    ok (property_output property p)

  -- The line of a property in the label of a vertex.
  abbrev pub property_line : Text → Option Text → Text
  property_line property (some p) = property ++ (codes "=" ++ (p ++ codes "\n"))
  property_line property none = []

  unfoldable pub property_lines : Vertex Mask → List Text → Result Text
  property_lines x [] = ok []
  property_lines x (property ∷ rest) = do
    p ← get_string show_mask x property
    lines ← property_lines x rest
    ok (property_line property p ++ lines)

  unfoldable pub vertex_label : GraphView Mask → List Text → ℕ → Result Text
  unfolding property_lines
  vertex_label g vertex_properties vd = do
    lines ← property_lines (g.element vd) vertex_properties
    ok (
        GraphElement.to_string (g.element vd)
        ++ (codes "\nVD=" ++ (to_string vd ++ (codes "\n" ++ lines))))

  unfoldable pub vertex_labels : GraphView Mask → List Text → List ℕ → Result (List (ℕ × Text))
  unfolding vertex_label
  vertex_labels g vertex_properties [] = ok []
  vertex_labels g vertex_properties (vd ∷ rest) = do
    label ← vertex_label g vertex_properties vd
    labels ← vertex_labels g vertex_properties rest
    ok ((vd, label) ∷ labels)

abbrev pub edge_type_label : EdgeType → Text
edge_type_label parent = codes "parent"
edge_type_label child = codes "child"
edge_type_label gpu_interconnect = codes "gpu2gpu"
edge_type_label edge_type_max = []

abbrev pub edge_label : Bool → EdgeType → Text
edge_label edge_labels edgetype = if edge_labels then edge_type_label edgetype else []

abbrev pub EdgeLabels : Type 0
EdgeLabels = List (ℕ × ℕ × Text)

module _ {Mask : Type 0} (write_graphviz : List (ℕ × Text) → EdgeLabels → Text)
    (show_mask : Mask → Text) where
  -- The content of the file.
  unfoldable pub write_graph_dot_file : GraphView Mask → List Text → Bool → Result Text
  unfolding vertex_labels
  write_graph_dot_file g vertex_properties edge_labels = do
    labels ← vertex_labels show_mask g vertex_properties g.vertices
    ok (
        write_graphviz labels
          (map (λ l. (l.source, l.target, edge_label edge_labels l.property.m_edgetype)) g.edges))
