-- ===== src/Graph/Refinement.antt =====
-- Graph (src/include/yloc/graph.h) implements the abstract graph.
use yloc.Prelude.{
  ℕ, suc, ◌<◌, ◌≡◌, refl, ap, ◌∙◌, ◌==◌, if◌then◌else◌, Text, find_key, Option-cases, Bool-cases,
  none, some, inl, inr, List, [], ◌∷◌, ◌++◌, arith,
}
use yloc.GraphElement.{new_element, new_edge}
use yloc.Graph.{
  BoostGraph, Graph, new_graph, num_vertices, edges, vertex_at, add_unnamed_vertex, add_vertex,
  add_vertex_by, subscript_id, subscript_by, set_vertex, set_root_vertex, add_edge,
}
use yloc.Graph.Changes.{link}
use yloc.Graph.Abstract.{
  Call, unnamed, named, subscript, written, rooted, linked, View, empty_view, grow, enter_id,
  replay_call, IsAllowed, replay, AreAllowed, call, run,
}

module _ {Mask : Type 0} {boost : BoostGraph Mask} where
  -- A client sees the abstract graph.
  pub record Shows (g : Graph boost) (s : View Mask) : Type 0 where
    pub same_size : num_vertices g ≡ s.size
    pub same_vertex_of : (id : Text) → find_key id g.m_identifier_map ≡ s.vertex_of id
    pub same_contents : (v : ℕ) → v < s.size → vertex_at g v ≡ s.contents v
    pub same_links : edges g ≡ s.links
    pub same_root : g.m_root_vertex ≡ s.root

  -- The graph with a new vertex.
  abbrev grown : Graph boost → Graph boost
  grown g = record g { repr = (boost.add_vertex new_element g.repr).0 }

  grown-Shows : (g : Graph boost) (s : View Mask) → Shows g s → Shows (grown g) (grow s)
  grown-Shows g s r =
      let n = boost.num-add_vertex new_element g.repr in
      record {
        same_size = n ∙ ap suc r.same_size;
        same_vertex_of = r.same_vertex_of;
        same_contents = λ v l.
            boost.vertex_at-add_vertex new_element g.repr v (omega (arith, l, r.same_size))
            ∙ elim (Bool-cases (v == s.size)) [
              | inl e ↦ rw (r.same_size, e) refl
              | inr e ↦ rw (r.same_size, e) (r.same_contents v (ground arith))
            ];
        same_links = boost.edges-add_vertex new_element g.repr ∙ r.same_links;
        same_root = r.same_root;
      }

  -- An identifier that is entered with its vertex.
  entered-Shows :
      (g : Graph boost) (s : View Mask) (id : Text) (vd : ℕ)
      → Shows g s
      → Shows (record g { m_identifier_map = (id, vd) ∷ g.m_identifier_map }) (enter_id id vd s)
  unfolding find_key
  entered-Shows g s id vd r = record {
    same_size = r.same_size;
    same_vertex_of = λ j. rw (r.same_vertex_of j) refl;
    same_contents = r.same_contents;
    same_links = r.same_links;
    same_root = r.same_root;
  }

  -- What a call leaves and returns is what the abstract graph does.
  record Matches (c : Call Mask) (g : Graph boost) (s : View Mask) : Type 0 where
    same_result : (call c g).1 ≡ (replay_call c s).1
    shows : Shows (call c g).0 (replay_call c s).0

  fresh_vertex :
      (g : Graph boost) (s : View Mask)
      → Shows g s
      → (boost.add_vertex new_element g.repr).1 ≡ s.size
  fresh_vertex g s r = boost.descriptor-add_vertex new_element g.repr ∙ r.same_size

  named-Matches : (g : Graph boost) (s : View Mask) (id : Text) → Shows g s → Matches (named id) g s
  unfolding call replay_call add_vertex add_vertex_by
  named-Matches g s id r = elim (Option-cases (s.vertex_of id)) [
    | inl e ↦
        let missing : find_key id g.m_identifier_map ≡ none = r.same_vertex_of id ∙ e in
        let h = entered-Shows (grown g) (grow s) id s.size (grown-Shows g s r) in
        record {
          same_result = rw (missing, replay_call, e, fresh_vertex g s r) refl;
          shows = rw (missing, replay_call, e, fresh_vertex g s r) h;
        }
    | inr (vd, e) ↦
        let there : find_key id g.m_identifier_map ≡ some vd = r.same_vertex_of id ∙ e in
        record {
          same_result = rw (there, replay_call, e) refl;
          shows = rw (there, replay_call, e) r;
        }
  ]

  subscript-Matches :
      (g : Graph boost) (s : View Mask) (id : Text) → Shows g s → Matches (subscript id) g s
  unfolding call replay_call subscript_id subscript_by
  subscript-Matches g s id r = elim (Option-cases (s.vertex_of id)) [
    | inl e ↦
        let missing : find_key id g.m_identifier_map ≡ none = r.same_vertex_of id ∙ e in
        record {
          same_result = rw (missing, replay_call, e) refl;
          shows = rw (missing, replay_call, e) (entered-Shows g s id 0 r);
        }
    | inr (vd, e) ↦
        let there : find_key id g.m_identifier_map ≡ some vd = r.same_vertex_of id ∙ e in
        record {
          same_result = rw (there, replay_call, e) refl;
          shows = rw (there, replay_call, e) r;
        }
  ]

  call-Matches :
      (c : Call Mask) (g : Graph boost) (s : View Mask) → IsAllowed c s → Shows g s → Matches c g s
  unfolding call replay_call IsAllowed add_unnamed_vertex set_vertex set_root_vertex add_edge
  call-Matches unnamed g s a r = record {
    same_result = ap some (fresh_vertex g s r);
    shows = grown-Shows g s r;
  }
  call-Matches (named id) g s a r = named-Matches g s id r
  call-Matches (subscript id) g s a r = subscript-Matches g s id r
  call-Matches (written u x) g s a r = record {
    same_result = refl;
    shows = record {
      same_size = boost.num-set_vertex g.repr u x ∙ r.same_size;
      same_vertex_of = r.same_vertex_of;
      same_contents = λ v l.
          boost.vertex_at-set_vertex g.repr u v x (omega (arith, a, r.same_size))
            (omega (arith, l, r.same_size))
          ∙ ap (λ y. if u == v then x else y) (r.same_contents v l);
      same_links = boost.edges-set_vertex g.repr u x ∙ r.same_links;
      same_root = r.same_root;
    };
  }
  call-Matches (rooted vd) g s a r = record {
    same_result = refl;
    shows = record {
      same_size = r.same_size;
      same_vertex_of = r.same_vertex_of;
      same_contents = r.same_contents;
      same_links = r.same_links;
      same_root = refl;
    };
  }
  call-Matches (linked u v t) g s (hu, hv) r =
      let lu : u < num_vertices g = omega (arith, hu, r.same_size) in
      let lv : v < num_vertices g = omega (arith, hv, r.same_size) in
      record {
        same_result = refl;
        shows = record {
          same_size = boost.num-add_edge u v (new_edge t) g.repr lu lv ∙ r.same_size;
          same_vertex_of = r.same_vertex_of;
          same_contents =
              λ w l. boost.vertex_at-add_edge u v (new_edge t) g.repr w lu lv ∙ r.same_contents w l;
          same_links =
              boost.edges-add_edge u v (new_edge t) g.repr lu lv
              ∙ ap (λ es. es ++ link u v t ∷ []) r.same_links;
          same_root = r.same_root;
        };
      }

  run-Shows :
      (cs : List (Call Mask)) (g : Graph boost) (s : View Mask)
      → AreAllowed cs s
      → Shows g s
      → ((run cs g).1 ≡ (replay cs s).1) × Shows (run cs g).0 (replay cs s).0
  unfolding run replay AreAllowed
  run-Shows [] g s a r = (refl, r)
  run-Shows (c ∷ cs) g s (a, b) r =
      let m = call-Matches c g s a r in
      let (same, shows) = run-Shows cs (call c g).0 (replay_call c s).0 b m.shows in
      (rw (m.same_result, same) refl, shows)

  new_graph-Shows : Shows (new_graph boost) (empty_view {Mask = Mask})
  unfolding find_key
  new_graph-Shows = record {
    same_size = boost.num-empty;
    same_vertex_of = λ id. refl;
    same_contents = λ v l. absurd (omega (arith, l));
    same_links = boost.edges-empty;
    same_root = refl;
  }

-- Any calls on a new graph, with vertices of the graph where boost asks for them, return what they return
-- on the abstract graph, whose identifiers are a function and whose vertices are numbered in the order in
-- which they are added, and leave a graph that shows what the abstract graph holds: the number of
-- vertices, the vertex of each identifier, the contents of each vertex, the edges and the root.
pub run_refines :
    {Mask : Type 0} (boost : BoostGraph Mask) (cs : List (Call Mask))
    → AreAllowed cs empty_view
    → ((run cs (new_graph boost)).1 ≡ (replay cs empty_view).1)
      × Shows (run cs (new_graph boost)).0 (replay cs empty_view).0
run_refines boost cs a = run-Shows cs (new_graph boost) empty_view a new_graph-Shows
