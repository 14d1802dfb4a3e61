-- ===== src/Modules.antt =====
-- The modules of src/include/yloc/modules/module.h, and init of src/init.cc, which runs the enabled
-- ones in their order. std::sort is a parameter, and so is what list_modules returns, which the build
-- generates.
pub mod Filled
pub mod Order
pub mod Together
use yloc.Prelude.{ℕ, List, [], ◌∷◌, Bool, true, false, ◌≡◌, Result, ok, ◌>>=◌, if◌then◌else◌}
use yloc.Prelude.Sorting.{Sorting}
use yloc.Status.{Status, success}
use yloc.Graph.{BoostGraph, Graph}
use yloc.Graph.WellFormed.{IsWellFormed}
use yloc.Graph.Changes.{Changes}

-- init_order
pub data InitOrder : Type 0 where
  init_first init_second : InitOrder

unfoldable pub order_value : InitOrder → ℕ
order_value init_first = 0
order_value init_second = 1

module _ {Mask : Type 0} (boost : BoostGraph Mask) where
  -- `Module`
  pub record Module : Type 0 where
    pub m_init_order : InitOrder
    pub m_enabled : Bool
    pub init_graph : Graph boost → Result (Graph boost × Status)

  -- On a well-formed graph init_graph returns, and it changes the graph only by module changes.
  abbrev pub IsSafe : Module → Type 0
  IsSafe m =
      (g : Graph boost)
      → IsWellFormed g
      → (h : Graph boost) × (s : Status) × (m.init_graph g ≡ ok (h, s)) × Changes g h

  -- The loop over the sorted modules; the status of a module is not looked at.
  unfoldable pub run_modules : List Module → Graph boost → Result (Graph boost)
  run_modules [] g = ok g
  run_modules (m ∷ ms) g = elim m.m_enabled [
    | true ↦ m.init_graph g >>= λ r. run_modules ms r.0
    | false ↦ run_modules ms g
  ]

  -- `init()`, on the root graph.
  unfoldable pub init : Sorting Module → List Module → Graph boost → Result (Graph boost × Status)
  unfolding order_value
  init sorting modules g = do
    h ← run_modules ((sorting (λ m. order_value m.m_init_order)).sort modules) g
    ok (h, success)
