-- ===== src/GraphElement/Adding.antt =====
-- Adding an adapter to an element (src/include/yloc/graph_element.h).
use yloc.Prelude.{
  ◌≡◌, refl, List, [], ◌∷◌, ◌++◌, Option, none, some, Text, Result, ok, fault, ◌>>=◌,
}
use yloc.Property.{ValueType}
use yloc.Adapter.{Adapter}
use yloc.GraphElement.Lookup.{property_of, typed, get-first_value}
use yloc.GraphElement.{GraphElement, first_value, get, add_adapter, new_element}

-- The first of two searches, or the second if the first finds nothing.
abbrev pub or_else : {V : Type 0} → Result (Option V) → Result (Option V) → Result (Option V)
or_else (ok none) r = r
or_else (ok (some v)) r = ok (some v)
or_else fault r = fault

module _ {Mask : Type 0} where
  first_value-append :
      {V : Type 0} (f : Adapter Mask → Result (Option V)) (l l' : List (Adapter Mask))
      → first_value f (l ++ l') ≡ or_else (first_value f l) (first_value f l')
  unfolding first_value
  first_value-append f [] l' = refl
  first_value-append f (a ∷ l) l' = by_reading (f a) (first_value-append f l l')
    where
      by_reading :
          (r : Result (Option _))
          → first_value f (l ++ l') ≡ or_else (first_value f l) (first_value f l')
          → (r >>= λ v. elim v [ some x ↦ ok (some x) | none ↦ first_value f (l ++ l') ])
            ≡ or_else
                (r >>= λ v. elim v [ some x ↦ ok (some x) | none ↦ first_value f l ])
                (first_value f l')
      by_reading (ok none) ih = ih
      by_reading (ok (some x)) ih = refl
      by_reading fault ih = refl

  -- An adapter that is added never changes a value that the element has already: the new element
  -- reads as before, and only where it had no value it reads as the new adapter alone.
  pub get-add_adapter :
      (t : ValueType) (e : GraphElement Mask) (a : Adapter Mask) (k : Text)
      → get t (add_adapter e a) k ≡ or_else (get t e k) (get t (add_adapter new_element a) k)
  unfolding add_adapter
  get-add_adapter t e a k =
      rw
        (
          get-first_value t (add_adapter e a) k,
          get-first_value t e k,
          get-first_value t (add_adapter new_element a) k,
        )
        (first_value-append (λ a. typed t (property_of k a)) e.m_adapters (a ∷ []))
