-- ===== src/External/AdjacencyList.antt =====
-- boost::adjacency_list<vecS, vecS, bidirectionalS, V, E>, the base class of Graph. Vertex
-- descriptors are the numbers below num_vertices; vertices and edges stay in the order in which they
-- were added, and parallel edges are kept.
use yloc.Prelude.{ℕ, suc, ◌<◌, ◌≡◌, List, [], ◌∷◌, ◌++◌, ◌==◌, if◌then◌else◌, keep}

-- An edge descriptor with the bundled property.
pub record Link (E : Type 0) : Type 0 where
  pub source : ℕ
  pub target : ℕ
  pub property : E

pub record AdjacencyList (V E : Type 0) : Type 1 where
  pub Repr : Type 0
  pub empty : Repr
  pub num_vertices : Repr → ℕ
  -- `g[vd]`, read and written
  pub vertex_at : Repr → ℕ → V
  pub set_vertex : Repr → ℕ → V → Repr
  -- `add_vertex(v, g)`, with the new descriptor, and `add_edge(u, v, e, g)`
  pub add_vertex : V → Repr → Repr × ℕ
  pub add_edge : ℕ → ℕ → E → Repr → Repr
  pub edges : Repr → List (Link E)
  pub out_edges : Repr → ℕ → List (Link E)
  pub num-empty : num_vertices empty ≡ 0
  pub edges-empty : edges empty ≡ []
  pub num-set_vertex : (g : Repr) (u : ℕ) (x : V) → num_vertices (set_vertex g u x) ≡ num_vertices g
  pub vertex_at-set_vertex :
      (g : Repr) (u v : ℕ) (x : V)
      → u < num_vertices g
      → v < num_vertices g
      → vertex_at (set_vertex g u x) v ≡ (if u == v then x else vertex_at g v)
  pub edges-set_vertex : (g : Repr) (u : ℕ) (x : V) → edges (set_vertex g u x) ≡ edges g
  pub descriptor-add_vertex : (x : V) (g : Repr) → (add_vertex x g).1 ≡ num_vertices g
  pub num-add_vertex : (x : V) (g : Repr) → num_vertices (add_vertex x g).0 ≡ suc (num_vertices g)
  pub vertex_at-add_vertex :
      (x : V) (g : Repr) (v : ℕ)
      → v < suc (num_vertices g)
      → vertex_at (add_vertex x g).0 v ≡ (if v == num_vertices g then x else vertex_at g v)
  pub edges-add_vertex : (x : V) (g : Repr) → edges (add_vertex x g).0 ≡ edges g
  pub num-add_edge :
      (u v : ℕ) (e : E) (g : Repr)
      → u < num_vertices g
      → v < num_vertices g
      → num_vertices (add_edge u v e g) ≡ num_vertices g
  pub vertex_at-add_edge :
      (u v : ℕ) (e : E) (g : Repr) (w : ℕ)
      → u < num_vertices g
      → v < num_vertices g
      → vertex_at (add_edge u v e g) w ≡ vertex_at g w
  pub edges-add_edge :
      (u v : ℕ) (e : E) (g : Repr)
      → u < num_vertices g
      → v < num_vertices g
      → edges (add_edge u v e g) ≡ edges g ++ record { source = u; target = v; property = e } ∷ []
  pub out_edges_lem : (g : Repr) (u : ℕ) → out_edges g u ≡ keep (λ l. l.source == u) (edges g)
