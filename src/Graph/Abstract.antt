-- ===== src/Graph/Abstract.antt =====
-- What a client of Graph (src/include/yloc/graph.h) may rely on: an abstract graph, whose identifiers
-- are a function, and the sequences of calls on it.
use yloc.Prelude.{
  ℕ, suc, ◌<◌, ◌==◌, if◌then◌else◌, Text, text_eq, Option, none, some, List, [], ◌∷◌, ◌++◌,
}
use yloc.External.AdjacencyList.{Link}
use yloc.GraphElement.{Vertex, Edge, EdgeType, new_element}
use yloc.Graph.{
  BoostGraph, Graph, add_unnamed_vertex, add_vertex, subscript_id, set_vertex, set_root_vertex,
  add_edge,
}
use yloc.Graph.Changes.{link}

-- A call: `add_vertex()`, `add_vertex(id)`, `operator[](id)`, an assignment to `operator[](vd)`,
-- `set_root_vertex(vd)` and `boost::add_edge`.
pub data Call (Mask : Type 0) : Type 0 where
  unnamed : Call Mask
  named subscript : Text → Call Mask
  written : ℕ → Vertex Mask → Call Mask
  rooted : ℕ → Call Mask
  linked : ℕ → ℕ → EdgeType → Call Mask

-- The abstract graph.
pub record View (Mask : Type 0) : Type 0 where
  pub size : ℕ
  pub vertex_of : Text → Option ℕ
  pub contents : ℕ → Vertex Mask
  pub links : List (Link (Edge Mask))
  pub root : ℕ

module _ {Mask : Type 0} where
  abbrev pub empty_view : View Mask
  empty_view = record {
    size = 0;
    vertex_of = λ id. none;
    contents = λ v. new_element;
    links = [];
    root = 0;
  }

  -- One more vertex, without a type or adapters.
  abbrev pub grow : View Mask → View Mask
  grow s = record s {
    size = suc s.size;
    contents = λ v. if v == s.size then new_element else s.contents v;
  }

  abbrev pub enter_id : Text → ℕ → View Mask → View Mask
  enter_id id vd s = record s { vertex_of = λ j. if text_eq id j then some vd else s.vertex_of j }

  -- An identifier that has a vertex returns it; another one is entered, for a new vertex or for 0.
  abbrev pub named_by : Option ℕ → Text → View Mask → View Mask × Option ℕ
  named_by (some vd) id s = (s, some vd)
  named_by none id s = (enter_id id s.size (grow s), some s.size)

  abbrev pub subscript_view : Option ℕ → Text → View Mask → View Mask × Option ℕ
  subscript_view (some vd) id s = (s, some vd)
  subscript_view none id s = (enter_id id 0 s, some 0)

  -- A call on the abstract graph, with the vertex that it returns.
  unfoldable pub replay_call : Call Mask → View Mask → View Mask × Option ℕ
  replay_call unnamed s = (grow s, some s.size)
  replay_call (named id) s = named_by (s.vertex_of id) id s
  replay_call (subscript id) s = subscript_view (s.vertex_of id) id s
  replay_call (written u x) s =
      (record s { contents = λ v. if u == v then x else s.contents v }, none)
  replay_call (rooted vd) s = (record s { root = vd }, none)
  replay_call (linked u v t) s = (record s { links = s.links ++ link u v t ∷ [] }, none)

  -- boost has no behaviour for descriptors that are not of the graph.
  unfoldable pub IsAllowed : Call Mask → View Mask → Type 0
  IsAllowed (written u x) s = u < s.size
  IsAllowed (linked u v t) s = (u < s.size) × (v < s.size)
  IsAllowed _ s = Unit

  -- The calls one after the other, with the vertices that they return.
  unfoldable pub replay : List (Call Mask) → View Mask → View Mask × List (Option ℕ)
  unfolding replay_call
  replay [] s = (s, [])
  replay (c ∷ cs) s = let (s1, r) = replay_call c s in let (s2, rs) = replay cs s1 in (s2, r ∷ rs)

  unfoldable pub AreAllowed : List (Call Mask) → View Mask → Type 0
  unfolding IsAllowed replay_call
  AreAllowed [] s = Unit
  AreAllowed (c ∷ cs) s = IsAllowed c s × AreAllowed cs (replay_call c s).0

  module _ {boost : BoostGraph Mask} where
    -- The same calls on the graph of the program.
    unfoldable pub call : Call Mask → Graph boost → Graph boost × Option ℕ
    call unnamed g = let (h, vd) = add_unnamed_vertex g in (h, some vd)
    call (named id) g = let (h, vd) = add_vertex id g in (h, some vd)
    call (subscript id) g = let (h, vd) = subscript_id id g in (h, some vd)
    call (written u x) g = (set_vertex g u x, none)
    call (rooted vd) g = (set_root_vertex g vd, none)
    call (linked u v t) g = (add_edge u v t g, none)

    unfoldable pub run : List (Call Mask) → Graph boost → Graph boost × List (Option ℕ)
    unfolding call
    run [] g = (g, [])
    run (c ∷ cs) g = let (h, r) = call c g in let (k, rs) = run cs h in (k, r ∷ rs)
