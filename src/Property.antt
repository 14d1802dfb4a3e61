-- ===== src/Property.antt =====
-- Properties of src/include/yloc/modules/property.h and their value types. A property that is bound
-- to an adapter is the type of its values and the reading that its member function gives there.
use yloc.Prelude.{
  ◌↔◌, ℕ, suc, ◌∷◌, Bool, true, false, Option, none, some, Text, to_string, Result, ok, fault, ℤ,
  pos, negsuc, ◌≡◌, refl,
}

-- The types of the properties that the adapters declare.
pub data ValueType : Type 0 where
  uint64 int64 affinity_mask : ValueType

abbrev pub Value : Type 0 → ValueType → Type 0
Value Mask uint64 = ℕ
Value Mask int64 = ℤ
Value Mask affinity_mask = Mask

-- `property->supports(typeid(RT))`, for a property with values of type `s`.
abbrev pub supports : ValueType → ValueType → Bool
supports uint64 uint64 = true
supports int64 int64 = true
supports affinity_mask affinity_mask = true
supports s t = false

pub record BoundProperty (Mask : Type 0) : Type 0 where
  pub type : ValueType
  pub reading : Result (Option (Value Mask type))

cast_reading :
    (Mask : Type 0) (s t : ValueType)
    → Result (Option (Value Mask s))
    → Result (Option (Value Mask t))
cast_reading Mask uint64 uint64 r = r
cast_reading Mask int64 int64 r = r
cast_reading Mask affinity_mask affinity_mask r = r
cast_reading Mask s t r = fault

module _ {Mask : Type 0} where
  -- `std::dynamic_pointer_cast<Property<RT>>(property)->value(a)`: where the types differ, the cast
  -- gives a null pointer, and the call goes through it.
  unfoldable pub value_as : (t : ValueType) → BoundProperty Mask → Result (Option (Value Mask t))
  unfolding cast_reading
  value_as t p = cast_reading Mask p.type t p.reading

  -- What `<<` writes for a value; `show_mask` is that of dynamic_bitset.
  unfoldable pub value_text : (Mask → Text) → (t : ValueType) → Value Mask t → Text
  value_text show_mask uint64 n = to_string n
  value_text show_mask int64 (pos n) = to_string n
  value_text show_mask int64 (negsuc n) = b'-' ∷ to_string (suc n)
  value_text show_mask affinity_mask m = show_mask m

  abbrev pub option_text : (Mask → Text) → (t : ValueType) → Option (Value Mask t) → Option Text
  option_text show_mask t (some v) = some (value_text show_mask t v)
  option_text show_mask t none = none

  abbrev pub reading_text :
      (Mask → Text) → (t : ValueType) → Result (Option (Value Mask t)) → Result (Option Text)
  reading_text show_mask t (ok v) = ok (option_text show_mask t v)
  reading_text show_mask t fault = fault

  unfoldable pub value_to_string : (Mask → Text) → BoundProperty Mask → Result (Option Text)
  value_to_string show_mask p = reading_text show_mask p.type p.reading

supported_cast :
    {Mask : Type 0} (show_mask : Mask → Text) (s t : ValueType) (r : Result (Option (Value Mask s)))
    → supports s t ≡ true
    → ((cast_reading Mask s t r ≡ fault) ↔ (r ≡ fault))
      × (reading_text show_mask t (cast_reading Mask s t r) ≡ reading_text show_mask s r)
unfolding cast_reading
supported_cast show_mask uint64 uint64 r h = ((λ e. e, λ e. e), refl)
supported_cast show_mask int64 int64 r h = ((λ e. e, λ e. e), refl)
supported_cast show_mask affinity_mask affinity_mask r h = ((λ e. e, λ e. e), refl)
supported_cast show_mask s t r h = absurd (cc h)

-- Behind the test of the type, the cast does not fail: it faults exactly where the reading does, and the
-- value that it gives prints as the property itself does.
pub value_as_supported :
    {Mask : Type 0} (show_mask : Mask → Text) (t : ValueType) (p : BoundProperty Mask)
    → supports p.type t ≡ true
    → ((value_as t p ≡ fault) ↔ (p.reading ≡ fault))
      × (reading_text show_mask t (value_as t p) ≡ value_to_string show_mask p)
unfolding value_as value_to_string
value_as_supported show_mask t p h = supported_cast show_mask p.type t p.reading h
