-- ===== src/Supermuc/Hosts.antt =====
-- What make_supermuc_graph and init_graph of the SuperMUC module (modules/supermuc/init_graph.cc) leave.
use yloc.Prelude.{ℕ, ◌<◌, ◌≡◌, List, [], ◌∷◌, ◌++◌, true, Text, codes, some, find_key, All, arith}
use yloc.Graph.{BoostGraph, Graph, num_vertices, has_edge}
use yloc.Graph.WellFormed.{IsWellFormed}
use yloc.Graph.Changes.{Changes, unchanged, Changes-trans}
use yloc.Graph.Invariants.{Changes-IsWellFormed}
use yloc.Graph.Growth.{Extends, Changes-Extends}
use yloc.Supermuc.{cut, make_supermuc_node, make_slot, tie_once, add_host, make_supermuc_graph}
use yloc.Supermuc.Placed.{node-Made, slot-Made, tie_once-Changes, has_edge-tie_once, has_edge_kept}

module _ {Mask : Type 0} {boost : BoostGraph Mask} where
  -- A host whose slot, column, rack and island are found by their names and joined by edges downwards.
  pub record IsPlaced (g : Graph boost) (name : Text) : Type 0 where
    pub slot : ℕ
    pub column : ℕ
    pub rack : ℕ
    pub island : ℕ
    pub slot_found : find_key (codes "machine:" ++ name) g.m_identifier_map ≡ some slot
    pub column_found : find_key (codes "system:" ++ cut 9 name) g.m_identifier_map ≡ some column
    pub rack_found : find_key (codes "system:" ++ cut 6 name) g.m_identifier_map ≡ some rack
    pub island_found : find_key (codes "system:" ++ cut 3 name) g.m_identifier_map ≡ some island
    pub island_rack : has_edge g island rack ≡ true
    pub rack_column : has_edge g rack column ≡ true
    pub column_slot : has_edge g column slot ≡ true

  IsPlaced-kept :
      {g h : Graph boost} (name : Text) → Extends g h → IsPlaced g name → IsPlaced h name
  IsPlaced-kept name x p = record {
    slot = p.slot;
    column = p.column;
    rack = p.rack;
    island = p.island;
    slot_found = x.ids_kept (codes "machine:" ++ name) p.slot p.slot_found;
    column_found = x.ids_kept (codes "system:" ++ cut 9 name) p.column p.column_found;
    rack_found = x.ids_kept (codes "system:" ++ cut 6 name) p.rack p.rack_found;
    island_found = x.ids_kept (codes "system:" ++ cut 3 name) p.island p.island_found;
    island_rack = has_edge_kept p.island p.rack x p.island_rack;
    rack_column = has_edge_kept p.rack p.column x p.rack_column;
    column_slot = has_edge_kept p.column p.slot x p.column_slot;
  }

  -- The graph behind a round, and what is known of it.
  record Added (g : Graph boost) (name : Text) (h : Graph boost) : Type 0 where
    pub changes : Changes g h
    pub placed : IsPlaced h name

  -- Three edges that are tied one after the other.
  module _ (g : Graph boost) (island rack column slot : ℕ) (hi : island < num_vertices g)
      (hr : rack < num_vertices g) (hc : column < num_vertices g) (hs : slot < num_vertices g) where
    first : Graph boost
    first = tie_once island rack g

    second : Graph boost
    second = tie_once rack column first

    record Tied : Type 0 where
      pub changes : Changes g (tie_once column slot second)
      pub island_rack : has_edge (tie_once column slot second) island rack ≡ true
      pub rack_column : has_edge (tie_once column slot second) rack column ≡ true
      pub column_slot : has_edge (tie_once column slot second) column slot ≡ true

    tied : Tied
    unfolding first second
    tied =
        let c1 = tie_once-Changes island rack g hi hr in
        let n1 = (Changes-Extends c1).vertices_kept in
        let hr1 : rack < num_vertices first = omega (arith, n1) in
        let hc1 : column < num_vertices first = omega (arith, n1) in
        let c2 = tie_once-Changes rack column first hr1 hc1 in
        let n2 = (Changes-Extends c2).vertices_kept in
        let hc2 : column < num_vertices second = omega (arith, n1, n2) in
        let hs2 : slot < num_vertices second = omega (arith, n1, n2) in
        let c3 = tie_once-Changes column slot second hc2 hs2 in
        record {
          changes = Changes-trans (Changes-trans c1 c2) c3;
          island_rack =
              has_edge_kept island rack (Changes-Extends (Changes-trans c2 c3))
                (has_edge-tie_once island rack g hi hr);
          rack_column =
              has_edge_kept rack column (Changes-Extends c3)
                (has_edge-tie_once rack column first hr1 hc1);
          column_slot = has_edge-tie_once column slot second hc2 hs2;
        }

  add_host-Added : (name : Text) (g : Graph boost) → IsWellFormed g → Added g name (add_host name g)
  unfolding add_host first second
  add_host-Added name g w =
      let a = slot-Made name g w in
      let (g1, slot) = make_slot name g in
      let b = node-Made (cut 9 name) g1 a.well_formed in
      let (g2, column) = make_supermuc_node (cut 9 name) g1 in
      let c = node-Made (cut 6 name) g2 b.well_formed in
      let (g3, rack) = make_supermuc_node (cut 6 name) g2 in
      let d = node-Made (cut 3 name) g3 c.well_formed in
      let (g4, island) = make_supermuc_node (cut 3 name) g3 in
      let x4 = Changes-Extends d.reaches.changes in
      let x3 = Changes-Extends (Changes-trans c.reaches.changes d.reaches.changes) in
      let x2 =
        Changes-Extends
          (Changes-trans b.reaches.changes (Changes-trans c.reaches.changes d.reaches.changes)) in
      let hr : rack < num_vertices g4 = omega (arith, c.reaches.in_range, x4.vertices_kept) in
      let hc : column < num_vertices g4 = omega (arith, b.reaches.in_range, x3.vertices_kept) in
      let hs : slot < num_vertices g4 = omega (arith, a.reaches.in_range, x2.vertices_kept) in
      let t = tied g4 island rack column slot d.reaches.in_range hr hc hs in
      let end = Changes-Extends t.changes in
      record {
        changes =
            Changes-trans
              (Changes-trans a.reaches.changes (
                Changes-trans b.reaches.changes
                  (Changes-trans c.reaches.changes d.reaches.changes)))
              t.changes;
        placed = record {
          slot = slot;
          column = column;
          rack = rack;
          island = island;
          slot_found =
              end.ids_kept (codes "machine:" ++ name) slot
                (x2.ids_kept (codes "machine:" ++ name) slot a.found);
          column_found =
              end.ids_kept (codes "system:" ++ cut 9 name) column
                (x3.ids_kept (codes "system:" ++ cut 9 name) column b.found);
          rack_found =
              end.ids_kept (codes "system:" ++ cut 6 name) rack
                (x4.ids_kept (codes "system:" ++ cut 6 name) rack c.found);
          island_found = end.ids_kept (codes "system:" ++ cut 3 name) island d.found;
          island_rack = t.island_rack;
          rack_column = t.rack_column;
          column_slot = t.column_slot;
        };
      }

  graph-Changes :
      (names : List Text) (g : Graph boost)
      → IsWellFormed g
      → Changes g (make_supermuc_graph names g)
  unfolding make_supermuc_graph
  graph-Changes [] g w = unchanged
  graph-Changes (name ∷ names) g w =
      let a = add_host-Added name g w in
      Changes-trans a.changes
        (graph-Changes names (add_host name g) (Changes-IsWellFormed a.changes w))

  -- On a well-formed graph make_supermuc_graph makes only module changes, and
  -- afterwards every host's slot, column, rack and island are found by their names, with edges from the
  -- island to the rack, from the rack to the column and from the column to the slot.
  pub make_supermuc_graph-IsPlaced :
      (names : List Text) (g : Graph boost)
      → IsWellFormed g
      → Changes g (make_supermuc_graph names g) × All (IsPlaced (make_supermuc_graph names g)) names
  unfolding make_supermuc_graph
  make_supermuc_graph-IsPlaced [] g w = (unchanged, tt)
  make_supermuc_graph-IsPlaced (name ∷ names) g w =
      let a = add_host-Added name g w in
      let w1 = Changes-IsWellFormed a.changes w in
      let later = graph-Changes names (add_host name g) w1 in
      (
        Changes-trans a.changes later,
        (
          IsPlaced-kept name (Changes-Extends later) a.placed,
          (make_supermuc_graph-IsPlaced names (add_host name g) w1).1,
        ),
      )
