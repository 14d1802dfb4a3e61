-- ===== src/Supermuc.antt =====
-- The SuperMUC module (modules/supermuc/): the vertices of the islands, racks, columns and slots that
-- the hosts' names stand for. MPI and sscanf are parameters: whether MPI is initialised, the name of
-- the own host, the gathered names, and how many fields sscanf reads from a name.
pub mod Placed
pub mod Hosts
use yloc.Prelude.{
  ℕ, zero, suc, List, [], ◌∷◌, Bool, true, false, Text, codes, ◌++◌, ◌==◌, if◌then◌else◌, not,
  length, ok, none,
}
use yloc.Status.{Status, success, init_error}
use yloc.ComponentTypes.{ComponentType}
use yloc.Adapter.{Adapter, base_adapter}
use yloc.GraphElement.{Vertex, add_adapter}
use yloc.Graph.{BoostGraph, Graph, modify, add_vertex, add_child, has_edge}

-- A name that is cut off by a zero behind its first `n` characters.
unfoldable pub cut : ℕ → Text → Text
cut zero s = []
cut (suc n) [] = []
cut (suc n) (c ∷ s) = c ∷ cut n s

module _ {Mask : Type 0} where
  -- `SuperMUCAdapter(name)`
  abbrev pub supermuc_adapter : Text → Adapter Mask
  supermuc_adapter name = record base_adapter { name = name }

module _ {Mask : Type 0} {boost : BoostGraph Mask} where
  -- The type, the description and the adapter that a vertex gets.
  unfoldable pub furnish : ComponentType → Text → Graph boost × ℕ → Graph boost × ℕ
  furnish t name (g, vd) =
      let g1 = modify g vd (λ x. record x { m_type = t }) in
      let g2 = modify g1 vd (λ x. record x { m_description = name }) in
      (modify g2 vd (λ x. add_adapter x (supermuc_adapter name)), vd)

  unfoldable pub make_supermuc_node : Text → Graph boost → Graph boost × ℕ
  unfolding furnish
  make_supermuc_node name g =
      furnish ComponentType.misc name (add_vertex (codes "system:" ++ name) g)

  unfoldable pub make_slot : Text → Graph boost → Graph boost × ℕ
  unfolding furnish
  make_slot name g = furnish ComponentType.node name (add_vertex (codes "machine:" ++ name) g)

  -- The two edges, unless there is an edge already.
  unfoldable pub tie_once : ℕ → ℕ → Graph boost → Graph boost
  tie_once u v g = if has_edge g u v then g else add_child u v g

  -- One round of the loop over the processes.
  unfoldable pub add_host : Text → Graph boost → Graph boost
  add_host name g =
      let (g1, slot) = make_slot name g in
      let (g2, column) = make_supermuc_node (cut 9 name) g1 in
      let (g3, rack) = make_supermuc_node (cut 6 name) g2 in
      let (g4, island) = make_supermuc_node (cut 3 name) g3 in
      tie_once column slot (tie_once rack column (tie_once island rack g4))

  unfoldable pub make_supermuc_graph : List Text → Graph boost → Graph boost
  make_supermuc_graph [] g = g
  make_supermuc_graph (name ∷ names) g = make_supermuc_graph names (add_host name g)

  unfoldable pub init_graph :
      (initialized : Bool) (scan : Text → ℕ) (hostname : Text)
      → List Text
      → Graph boost
      → Graph boost × Status
  init_graph initialized scan hostname names g =
      if not initialized
      then (g, init_error)
      else if not (length hostname == 12)
      then (g, init_error)
      else if not (scan hostname == 4)
      then (g, init_error)
      else (make_supermuc_graph names g, success)
