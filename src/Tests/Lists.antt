-- ===== src/Tests/Lists.antt =====
-- A boost::adjacency_list as the number of vertices, their properties and the list of the edges.
use yloc.Prelude.{ℕ, suc, refl, List, [], ◌∷◌, ◌++◌, ◌==◌, if◌then◌else◌, keep}
use yloc.External.AdjacencyList.{AdjacencyList, Link}
use yloc.GraphElement.{new_element}
use yloc.Graph.{BoostGraph}

pub record ListGraph (V E : Type 0) : Type 0 where
  pub count : ℕ
  pub at : ℕ → V
  pub links : List (Link E)

abbrev pub list_graph : {V E : Type 0} → V → AdjacencyList V E
list_graph {V} {E} default = record {
  Repr = ListGraph V E;
  empty = record { count = 0; at = λ _. default; links = [] };
  num_vertices = λ g. g.count;
  vertex_at = λ g v. g.at v;
  set_vertex = λ g u x. record g { at = λ v. if u == v then x else g.at v };
  add_vertex = λ x g.
      (record g { count = suc g.count; at = λ v. if v == g.count then x else g.at v }, g.count);
  add_edge = λ u v e g. record g {
    links = g.links ++ record { source = u; target = v; property = e } ∷ [];
  };
  edges = λ g. g.links;
  out_edges = λ g u. keep (λ l. l.source == u) g.links;
  num-empty = refl;
  edges-empty = refl;
  num-set_vertex = λ g u x. refl;
  vertex_at-set_vertex = λ g u v x hu hv. refl;
  edges-set_vertex = λ g u x. refl;
  descriptor-add_vertex = λ x g. refl;
  num-add_vertex = λ x g. refl;
  vertex_at-add_vertex = λ x g v h. refl;
  edges-add_vertex = λ x g. refl;
  num-add_edge = λ u v e g hu hv. refl;
  vertex_at-add_edge = λ u v e g w hu hv. refl;
  edges-add_edge = λ u v e g hu hv. refl;
  out_edges_lem = λ g u. refl;
}

abbrev pub boost_of : (Mask : Type 0) → BoostGraph Mask
boost_of Mask = list_graph new_element
