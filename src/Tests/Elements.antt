-- ===== src/Tests/Elements.antt =====
-- Runs of the lookup of properties in the adapters of a graph element.
use yloc.Prelude.{
  ℕ, ◌≡◌, refl, subst, true, some, of_some, codes, find_key, text_eq, ok, fault, [], ◌∷◌, Memᴰ,
}
use yloc.Property.{uint64, int64, BoundProperty, supports, value_as, reading_text}
use yloc.Adapter.{Adapter, base_adapter, shared_map}
use yloc.GraphElement.{GraphElement, new_element, first_value, get, get_string, add_adapter}
use yloc.GraphElement.Lookup.{Search, typed, property_of, get-Search, get-fault}
use yloc.GraphElement.Rendering.{get_string-get}
use yloc.GraphElement.Adding.{or_else, get-add_adapter}

-- An adapter without properties in front of one that knows a memory size and has no attributes to
-- read a temperature from.
abbrev silent : Adapter ℕ
silent = base_adapter

abbrev reporting : Adapter ℕ
reporting = record base_adapter { memory = ok (some 4096); temperature = fault }

abbrev element : GraphElement ℕ
element = record new_element { m_adapters = silent ∷ reporting ∷ [] }

get-Search_example :
    Search
      (λ a. typed uint64 (property_of (codes "memory") a))
      element.m_adapters
      (get uint64 element (codes "memory"))
get-Search_example = get-Search uint64 element (codes "memory")

temperature_fault : get int64 element (codes "temperature") ≡ fault
unfolding get shared_map find_key text_eq first_value value_as
temperature_fault = refl

get-fault_example :
    (a : Adapter ℕ) × Memᴰ a element.m_adapters
    × ((p : BoundProperty ℕ) × (property_of (codes "temperature") a ≡ some p) × (p.reading ≡ fault))
get-fault_example = get-fault int64 element (codes "temperature") temperature_fault

memory_is_uint64 :
    (a : Adapter ℕ) (p : BoundProperty ℕ)
    → Memᴰ a element.m_adapters
    → property_of (codes "memory") a ≡ some p
    → supports p.type uint64 ≡ true
unfolding shared_map find_key text_eq
memory_is_uint64 a p m e =
    subst (λ (q : BoundProperty ℕ). supports q.type uint64 ≡ true) (of_some e) refl

get_string-get_example :
    get_string (λ n. codes "mask") element (codes "memory")
    ≡ reading_text {Mask = ℕ} (λ n. codes "mask") uint64 (get uint64 element (codes "memory"))
get_string-get_example =
    get_string-get (λ n. codes "mask") uint64 element (codes "memory") memory_is_uint64

get-add_adapter_example :
    get uint64 (add_adapter element silent) (codes "memory")
    ≡ or_else
        (get uint64 element (codes "memory"))
        (get uint64 (add_adapter new_element silent) (codes "memory"))
get-add_adapter_example = get-add_adapter uint64 element silent (codes "memory")
