-- ===== src/Graph.antt =====
-- The topology graph of src/include/yloc/graph.h: a boost graph with a map from identifiers to
-- vertices and a root vertex.
pub mod WellFormed
pub mod Identifiers
pub mod Changes
pub mod Invariants
pub mod Pairing
pub mod Growth
pub mod Reaches
pub mod Vertices
pub mod Abstract
pub mod Refinement
use yloc.Prelude.{
  ℕ, zero, List, [], ◌∷◌, Bool, Option, none, some, Text, find_key, ◌==◌, ◌&&◌, any, ◌<◌,
}
use yloc.GraphElement.{
  Vertex, Edge, EdgeType, parent, child, gpu_interconnect, edge_type_max, new_element, new_edge,
}
use yloc.External.AdjacencyList.{AdjacencyList, Link}

-- boost_graph_t
abbrev pub BoostGraph : Type 0 → Type 1
BoostGraph Mask = AdjacencyList (Vertex Mask) (Edge Mask)

pub record Graph {Mask : Type 0} (boost : BoostGraph Mask) : Type 0 where
  pub repr : boost.Repr
  pub m_identifier_map : List (Text × ℕ)
  pub m_root_vertex : ℕ

module _ {Mask : Type 0} (boost : BoostGraph Mask) where
  -- `Graph()`
  abbrev pub new_graph : Graph boost
  new_graph = record { repr = boost.empty; m_identifier_map = []; m_root_vertex = 0 }

module _ {Mask : Type 0} {boost : BoostGraph Mask} where
  abbrev pub num_vertices : Graph boost → ℕ
  num_vertices g = boost.num_vertices g.repr

  abbrev pub edges : Graph boost → List (Link (Edge Mask))
  edges g = boost.edges g.repr

  -- `g[vd]`, read and written
  abbrev pub vertex_at : Graph boost → ℕ → Vertex Mask
  vertex_at g v = boost.vertex_at g.repr v

  unfoldable pub set_vertex : Graph boost → ℕ → Vertex Mask → Graph boost
  set_vertex g v x = record g { repr = boost.set_vertex g.repr v x }

  -- A vertex that is changed through the reference `g[vd]`.
  abbrev pub modify : Graph boost → ℕ → (Vertex Mask → Vertex Mask) → Graph boost
  modify g v f = set_vertex g v (f (vertex_at g v))

  -- `add_vertex()`
  unfoldable pub add_unnamed_vertex : Graph boost → Graph boost × ℕ
  add_unnamed_vertex g =
      let (r, vd) = boost.add_vertex new_element g.repr in (record g { repr = r }, vd)

  -- `add_vertex(id)`, after the search in the identifier map.
  add_vertex_by : Option ℕ → Text → Graph boost → Graph boost × ℕ
  add_vertex_by (some vd) id g = (g, vd)
  add_vertex_by none id g =
      let (r, vd) = boost.add_vertex new_element g.repr in
      (record g { repr = r; m_identifier_map = (id, vd) ∷ g.m_identifier_map }, vd)

  unfoldable pub add_vertex : Text → Graph boost → Graph boost × ℕ
  unfolding add_vertex_by
  add_vertex id g = add_vertex_by (find_key id g.m_identifier_map) id g

  -- `m_identifier_map[id]` enters the vertex 0 for an identifier that is not there.
  subscript_by : Option ℕ → Text → Graph boost → Graph boost × ℕ
  subscript_by (some vd) id g = (g, vd)
  subscript_by none id g = (record g { m_identifier_map = (id, 0) ∷ g.m_identifier_map }, 0)

  -- The vertex of `operator[](id)`.
  unfoldable pub subscript_id : Text → Graph boost → Graph boost × ℕ
  unfolding subscript_by
  subscript_id id g = subscript_by (find_key id g.m_identifier_map) id g

  unfoldable pub set_root_vertex : Graph boost → ℕ → Graph boost
  set_root_vertex g v = record g { m_root_vertex = v }

  unfoldable pub get_root_vertex : Graph boost → ℕ
  get_root_vertex g = g.m_root_vertex

  -- `boost::add_edge(u, v, Edge{type}, g)`
  unfoldable pub add_edge : ℕ → ℕ → EdgeType → Graph boost → Graph boost
  add_edge u v t g = record g { repr = boost.add_edge u v (new_edge t) g.repr }

  -- The two edges by which a module ties a component to the one above it.
  unfoldable pub add_child : ℕ → ℕ → Graph boost → Graph boost
  unfolding add_edge
  add_child u v g = add_edge v u parent (add_edge u v child g)

  -- The two edges between GPUs that are directly connected.
  unfoldable pub add_gpu_link : ℕ → ℕ → Graph boost → Graph boost
  unfolding add_edge
  add_gpu_link u v g = add_edge v u gpu_interconnect (add_edge u v gpu_interconnect g)

  -- `boost::edge(u, v, g).second`
  unfoldable pub has_edge : Graph boost → ℕ → ℕ → Bool
  has_edge g u v = any (λ l. l.source == u && l.target == v) (edges g)

abbrev pub edge_type_eq : EdgeType → EdgeType → Bool
edge_type_eq parent parent = Bool.true
edge_type_eq child child = Bool.true
edge_type_eq gpu_interconnect gpu_interconnect = Bool.true
edge_type_eq edge_type_max edge_type_max = Bool.true
edge_type_eq _ _ = Bool.false

-- Whether an edge descriptor is an edge of a kind from `u` to `v`.
abbrev pub is_link : {Mask : Type 0} → EdgeType → ℕ → ℕ → Link (Edge Mask) → Bool
is_link t u v l = edge_type_eq l.property.m_edgetype t && (l.source == u && l.target == v)
