-- ===== src/GraphElement/Lookup.antt =====
-- What `get` of src/include/yloc/graph_element.h returns, on every path.
use yloc.Prelude.{
  ◌≡◌, refl, sym, ap, inl, inr, List, [], ◌∷◌, Option, none, some, Text, find_key, Result, ok,
  fault, ◌>>=◌, if◌then◌else◌, Memᴰ, Bool-cases, Result-cases,
}
use mathlib.Core.Path.{fun_ext}
use yloc.Property.{ValueType, Value, BoundProperty, supports, value_as, value_as_supported}
use yloc.Adapter.{Adapter, Property, bind, shared_map, find_module_property}
use yloc.GraphElement.{GraphElement, first_value, module_value, get_by, get}

-- How a search through the adapters ends: the first value, with only empty readings before it; no
-- value; or a fault, with only empty readings before it.
pub data Search {A V : Type 0} (f : A → Result (Option V))
    : List A → Result (Option V) → Type 0 where
  exhausted : Search f [] (ok none)
  found : {a : A} {rest : List A} (v : V) → f a ≡ ok (some v) → Search f (a ∷ rest) (ok (some v))
  faulted : {a : A} {rest : List A} → f a ≡ fault → Search f (a ∷ rest) fault
  skipped :
      {a : A} {rest : List A} {r : Result (Option V)}
      → f a ≡ ok none
      → Search f rest r
      → Search f (a ∷ rest) r

module _ {A V : Type 0} (f : A → Result (Option V)) where
  pub first_value-Search : (rest : List A) → Search f rest (first_value f rest)
  unfolding first_value
  first_value-Search [] = exhausted
  first_value-Search (a ∷ rest) = elim (Result-cases (f a)) [
    | inl e ↦ rw (e, ◌>>=◌) (faulted e)
    | inr (v, e) ↦ rw (e, ◌>>=◌) (by_reading a rest v e (first_value-Search rest))
  ]
    where
      by_reading :
          (a : A) (rest : List A) (v : Option V)
          → f a ≡ ok v
          → Search f rest (first_value f rest)
          → Search f (a ∷ rest) (elim v [ some x ↦ ok (some x) | none ↦ first_value f rest ])
      by_reading a rest none e s = skipped e s
      by_reading a rest (some x) e s = found x e

module _ {Mask : Type 0} where
  -- The property with a name, seen from an adapter: one of the shared map before one of its own.
  abbrev pub property_by :
      Option (Property Mask) → Text → Adapter Mask → Option (BoundProperty Mask)
  property_by (some p) k a = some (bind a p)
  property_by none k a = find_module_property a k

  abbrev pub property_of : Text → Adapter Mask → Option (BoundProperty Mask)
  property_of k a = property_by (find_key k shared_map) k a

  -- Its reading, if its values have the asked type.
  abbrev pub typed : (t : ValueType) → Option (BoundProperty Mask) → Result (Option (Value Mask t))
  typed t (some p) = if supports p.type t then value_as t p else ok none
  typed t none = ok none

  first_value-none :
      {V : Type 0} (l : List (Adapter Mask)) → first_value {V = V} (λ _. ok none) l ≡ ok none
  unfolding first_value
  first_value-none [] = refl
  first_value-none (a ∷ l) = first_value-none l

  get_by-first_value :
      (o : Option (Property Mask)) (t : ValueType) (e : GraphElement Mask) (k : Text)
      → get_by o t e k ≡ first_value (λ a. typed t (property_by o k a)) e.m_adapters
  unfolding get_by module_value
  get_by-first_value (some p) t e k = elim (Bool-cases (supports p.type t)) [
    | inl yes_type ↦ rw yes_type
    | inr no_type ↦ rw no_type (sym (first_value-none e.m_adapters))
  ]
  get_by-first_value none t e k =
      ap (λ f. first_value f e.m_adapters) (fun_ext λ a. by_own (find_module_property a k))
    where
      by_own :
          (o : Option (BoundProperty Mask))
          → elim o [ none ↦ ok none | some p ↦ if supports p.type t then value_as t p else ok none ]
            ≡ typed t o
      by_own none = refl
      by_own (some p) = refl

  pub get-first_value :
      (t : ValueType) (e : GraphElement Mask) (k : Text)
      → get t e k ≡ first_value (λ a. typed t (property_of k a)) e.m_adapters
  unfolding get
  get-first_value t e k = get_by-first_value (find_key k shared_map) t e k

  -- `get` returns the first value in the order of the adapters. An adapter has no value if it knows
  -- no property of the name, if the property's values have another type than the asked one, or if
  -- its reading is empty; a shared property hides an adapter's own one of the same name. No adapter
  -- behind the one that ends the search is read.
  pub get-Search :
      (t : ValueType) (e : GraphElement Mask) (k : Text)
      → Search (λ a. typed t (property_of k a)) e.m_adapters (get t e k)
  get-Search t e k =
      rw (get-first_value t e k) (first_value-Search (λ a. typed t (property_of k a)) e.m_adapters)

  faulting :
      {V : Type 0} (f : Adapter Mask → Result (Option V)) {l : List (Adapter Mask)}
      {r : Result (Option V)}
      → Search f l r
      → r ≡ fault
      → (a : Adapter Mask) × Memᴰ a l × (f a ≡ fault)
  faulting f exhausted h = absurd (cc h)
  faulting f (found v e) h = absurd (cc h)
  faulting f (faulted {a} e) h = (a, Memᴰ.head refl, e)
  faulting f (skipped e s) h = let (a, m, q) = faulting f s h in (a, Memᴰ.tail m, q)

  typed-fault :
      (show_mask : Mask → Text) (t : ValueType) (o : Option (BoundProperty Mask))
      → typed t o ≡ fault
      → (p : BoundProperty Mask) × (o ≡ some p) × (p.reading ≡ fault)
  typed-fault show_mask t none h = absurd (cc h)
  typed-fault show_mask t (some p) h = elim (Bool-cases (supports p.type t)) [
    | inl same ↦ (p, refl, (value_as_supported show_mask t p same).0.0 (rw same at h))
    | inr other ↦ absurd (cc (h, other))
  ]

  -- `get` faults only where a property's own reading faults: the cast of the property behind the
  -- test of its type is never a null pointer.
  pub get-fault :
      (t : ValueType) (e : GraphElement Mask) (k : Text)
      → get t e k ≡ fault
      → (a : Adapter Mask) × Memᴰ a e.m_adapters
        × ((p : BoundProperty Mask) × (property_of k a ≡ some p) × (p.reading ≡ fault))
  get-fault t e k h =
      let (a, m, q) = faulting (λ a. typed t (property_of k a)) (get-Search t e k) h in
      (a, m, typed-fault (λ _. []) t (property_of k a) q)
