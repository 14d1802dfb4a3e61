-- ===== src/GraphElement/Rendering.antt =====
-- The specialisation of `get` for std::string in src/include/yloc/graph_element.h.
use yloc.Prelude.{
  ◌≡◌, refl, sym, ap, List, [], ◌∷◌, true, Option, none, some, Text, find_key, Result, ok, fault,
  ◌>>=◌, Memᴰ,
}
use mathlib.Core.Path.{fun_ext}
use yloc.Property.{
  ValueType, Value, BoundProperty, supports, value_to_string, value_as_supported, reading_text,
}
use yloc.Adapter.{Adapter, Property, shared_map, find_module_property}
use yloc.GraphElement.Lookup.{property_of, property_by, typed, get-first_value}
use yloc.GraphElement.{GraphElement, first_value, get, module_text, get_string_by, get_string}

module _ {Mask : Type 0} where
  text_of : (Mask → Text) → Option (BoundProperty Mask) → Result (Option Text)
  text_of show_mask none = ok none
  text_of show_mask (some p) = value_to_string show_mask p

  get_string_by-first_value :
      (o : Option (Property Mask)) (show_mask : Mask → Text) (e : GraphElement Mask) (k : Text)
      → get_string_by o show_mask e k
        ≡ first_value (λ a. text_of show_mask (property_by o k a)) e.m_adapters
  unfolding get_string_by module_text text_of
  get_string_by-first_value (some p) show_mask e k = refl
  get_string_by-first_value none show_mask e k =
      ap (λ f. first_value f e.m_adapters) (fun_ext λ a. by_own (find_module_property a k))
    where
      by_own :
          (o : Option (BoundProperty Mask))
          → elim o [ none ↦ ok none | some p ↦ value_to_string show_mask p ] ≡ text_of show_mask o
      by_own none = refl
      by_own (some p) = refl

  text_of-typed :
      (show_mask : Mask → Text) (t : ValueType) (o : Option (BoundProperty Mask))
      → ((p : BoundProperty Mask) → o ≡ some p → supports p.type t ≡ true)
      → text_of show_mask o ≡ reading_text show_mask t (typed t o)
  unfolding text_of
  text_of-typed show_mask t none h = refl
  text_of-typed show_mask t (some p) h =
      let same = h p refl in rw same (sym (value_as_supported show_mask t p same).1)

  first_value-reading_text :
      (show_mask : Mask → Text) (t : ValueType) (f : Adapter Mask → Result (Option (Value Mask t)))
      (g : Adapter Mask → Result (Option Text)) (l : List (Adapter Mask))
      → ((a : Adapter Mask) → Memᴰ a l → g a ≡ reading_text show_mask t (f a))
      → first_value g l ≡ reading_text show_mask t (first_value f l)
  unfolding first_value
  first_value-reading_text show_mask t f g [] h = refl
  first_value-reading_text show_mask t f g (a ∷ l) h =
      rw (h a (Memᴰ.head refl))
        (by_reading (f a) (first_value-reading_text show_mask t f g l (λ b m. h b (Memᴰ.tail m))))
    where
      by_reading :
          (r : Result (Option (Value Mask t)))
          → first_value g l ≡ reading_text show_mask t (first_value f l)
          → (reading_text show_mask t r >>= λ v. elim v [
            | some x ↦ ok (some x)
            | none ↦ first_value g l
          ])
            ≡ reading_text show_mask t
                (r >>= λ v. elim v [ some x ↦ ok (some x) | none ↦ first_value f l ])
      by_reading (ok none) ih = ih
      by_reading (ok (some x)) ih = refl
      by_reading fault ih = refl

  -- Where every adapter that knows the property declares it with the type `t`, `get<std::string>`
  -- returns the text of what `get<t>` returns, and nothing or a fault where that does.
  pub get_string-get :
      (show_mask : Mask → Text) (t : ValueType) (e : GraphElement Mask) (k : Text)
      → ((a : Adapter Mask) (p : BoundProperty Mask)
          → Memᴰ a e.m_adapters
          → property_of k a ≡ some p
          → supports p.type t ≡ true)
      → get_string show_mask e k ≡ reading_text show_mask t (get t e k)
  unfolding get_string
  get_string-get show_mask t e k h =
      rw (get-first_value t e k, get_string_by-first_value (find_key k shared_map) show_mask e k)
        (first_value-reading_text show_mask t (λ a. typed t (property_of k a))
          (λ a. text_of show_mask (property_of k a)) e.m_adapters
          (λ a m. text_of-typed show_mask t (property_of k a) (λ p. h a p m)))
