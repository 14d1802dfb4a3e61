-- ===== src/Tests/Calls.antt =====
-- A run of calls on a new graph (src/include/yloc/graph.h).
use yloc.Prelude.{◌≡◌, List, [], ◌∷◌, codes, text_eq, arith}
use yloc.ComponentTypes.{gpu}
use yloc.GraphElement.{child, new_element}
use yloc.Graph.{BoostGraph, new_graph}
use yloc.Graph.Abstract.{
  Call, unnamed, named, subscript, written, rooted, linked, AreAllowed, IsAllowed, replay_call,
  empty_view, run, replay,
}
use yloc.Graph.Refinement.{Shows, run_refines}
use yloc.Tests.Bits.{BitFun}
use yloc.Tests.Lists.{boost_of}

abbrev graph_type : BoostGraph BitFun
graph_type = boost_of BitFun

abbrev calls : List (Call BitFun)
calls =
    named (codes "machine:a")
    ∷ unnamed
    ∷ named (codes "machine:a")
    ∷ linked 0 1 child
    ∷ written 1 (record new_element { m_type = gpu })
    ∷ rooted 0
    ∷ subscript (codes "machine:b")
    ∷ []

calls-AreAllowed : AreAllowed calls empty_view
unfolding AreAllowed IsAllowed replay_call text_eq
calls-AreAllowed = (tt, (tt, (tt, ((omega arith, omega arith), (omega arith, (tt, (tt, tt)))))))

run_refines_example :
    ((run calls (new_graph graph_type)).1 ≡ (replay calls empty_view).1)
    × Shows (run calls (new_graph graph_type)).0 (replay calls empty_view).0
run_refines_example = run_refines graph_type calls calls-AreAllowed
