-- ===== src/GraphElement.antt =====
-- Graph elements of src/include/yloc/graph_element.h: the properties of a vertex or an edge are read
-- through its adapters, in the order in which they were added.
pub mod Lookup
pub mod Rendering
pub mod Adding
use yloc.Prelude.{
  List, [], ◌∷◌, ◌++◌, Bool, Option, none, some, Text, codes, find_key, Result, ok, ◌>>=◌,
  if◌then◌else◌,
}
use yloc.ComponentTypes
use yloc.ComponentTypes.{ComponentType, unknown_component_type}
use yloc.Property.{ValueType, Value, BoundProperty, supports, value_as, value_to_string}
use yloc.Adapter.{Adapter, Property, bind, shared_map, find_module_property}

pub record GraphElement (Mask : Type 0) : Type 0 where
  pub m_adapters : List (Adapter Mask)
  pub m_description : Text
  pub m_type : ComponentType

-- The loop over the adapters that returns the first value that one of them has.
unfoldable pub first_value : {A V : Type 0} → (A → Result (Option V)) → List A → Result (Option V)
first_value f [] = ok none
first_value f (a ∷ rest) = do v ← f a; elim v [ some x ↦ ok (some x) | none ↦ first_value f rest ]

module _ {Mask : Type 0} where
  -- A default-constructed element.
  abbrev pub new_element : GraphElement Mask
  new_element = record { m_adapters = []; m_description = []; m_type = unknown_component_type }

  -- One round of the loop over module-specific properties.
  unfoldable pub module_value :
      (t : ValueType) → Text → Adapter Mask → Result (Option (Value Mask t))
  module_value t k a = elim (find_module_property a k) [
    | none ↦ ok none
    | some p ↦ if supports p.type t then value_as t p else ok none
  ]

  -- The two ways of `get`: the property is in the shared map, or it is looked for in the maps of the
  -- modules.
  get_by :
      Option (Property Mask)
      → (t : ValueType) → GraphElement Mask
      → Text
      → Result (Option (Value Mask t))
  get_by (some p) t e k =
      if supports p.type t then first_value (λ a. value_as t (bind a p)) e.m_adapters else ok none
  get_by none t e k = first_value (module_value t k) e.m_adapters

  -- `get<RT>(property_name)` for an `RT` other than std::string.
  unfoldable pub get : (t : ValueType) → GraphElement Mask → Text → Result (Option (Value Mask t))
  unfolding get_by
  get t e k = get_by (find_key k shared_map) t e k

  -- The specialisation `get<std::string>(property_name)`.
  unfoldable pub module_text : (Mask → Text) → Text → Adapter Mask → Result (Option Text)
  module_text show_mask k a = elim (find_module_property a k) [
    | none ↦ ok none
    | some p ↦ value_to_string show_mask p
  ]

  get_string_by :
      Option (Property Mask) → (Mask → Text) → GraphElement Mask → Text → Result (Option Text)
  get_string_by (some p) show_mask e k =
      first_value (λ a. value_to_string show_mask (bind a p)) e.m_adapters
  get_string_by none show_mask e k = first_value (module_text show_mask k) e.m_adapters

  unfoldable pub get_string : (Mask → Text) → GraphElement Mask → Text → Result (Option Text)
  unfolding get_string_by
  get_string show_mask e k = get_string_by (find_key k shared_map) show_mask e k

  unfoldable pub add_adapter : GraphElement Mask → Adapter Mask → GraphElement Mask
  add_adapter e a = record e { m_adapters = e.m_adapters ++ a ∷ [] }

  -- `is_a<ComponentType>()`
  unfoldable pub is_a : GraphElement Mask → ComponentType → Bool
  is_a e c = ComponentTypes.is_a e.m_type c

  unfoldable pub to_string : GraphElement Mask → Text
  to_string e = ComponentTypes.to_string e.m_type ++ codes ": " ++ e.m_description

-- The kinds of edges; `edge_type_max` counts them.
pub data EdgeType : Type 0 where
  parent child gpu_interconnect edge_type_max : EdgeType

pub record Edge (Mask : Type 0) : Type 0 where
  pub element : GraphElement Mask
  pub m_edgetype : EdgeType

-- `Edge{type}`
abbrev pub new_edge : {Mask : Type 0} → EdgeType → Edge Mask
new_edge t = record { element = new_element; m_edgetype = t }

abbrev pub Vertex : Type 0 → Type 0
Vertex Mask = GraphElement Mask
