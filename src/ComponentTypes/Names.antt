-- ===== src/ComponentTypes/Names.antt =====
-- The map from names to component types of src/include/yloc/component_types.h.
use yloc.Prelude.{
  ◌≡◌, refl, sym, ◌∙◌, ap, ◌≢◌, ◌⊎◌, inl, inr, ◌↔◌, List, [], ◌∷◌, none, some, Text, find_key,
  find_key-cons, find_key-nil,
}
use yloc.ComponentTypes.{ComponentType, component, to_string, declared, enter, component_of_name}

name_found : (t : ComponentType) → t ≢ component → component_of_name (to_string t) ≡ some t
unfolding component_of_name
name_found component h = absurd (h refl)
name_found _ h = refl

find_key-enter :
    (n : Text) (ts : List ComponentType) (m : List (Text × ComponentType)) (t : ComponentType)
    → find_key n (enter ts m) ≡ some t
    → (to_string t ≡ n) ⊎ (find_key n m ≡ some t)
unfolding enter
find_key-enter n [] m t h = inr h
find_key-enter n (x ∷ ts) m t h = elim (find_key-enter n ts ((to_string x, x) ∷ m) t h) [
  | inl e ↦ inl e
  | inr e ↦ elim (find_key-cons n (to_string x) x t m e) [
    | inl (k, same) ↦ inl (ap to_string (sym same) ∙ k)
    | inr older ↦ inr older
  ]
]

own_name : (n : Text) (t : ComponentType) → component_of_name n ≡ some t → to_string t ≡ n
unfolding component_of_name
own_name n t h = elim (find_key-enter n declared [] t h) [ inl e ↦ e | inr e ↦ find_key-nil n e ]

no_component : component_of_name (to_string component) ≡ none
unfolding component_of_name
no_component = refl

-- Looking a name up in the map gives a type exactly when the name is that type's own and the type is
-- not the base class `Component`, which is not in the map.
pub component_of_name_iff :
    (n : Text) (t : ComponentType)
    → (component_of_name n ≡ some t) ↔ ((to_string t ≡ n) × (t ≢ component))
component_of_name_iff n t = (
  λ h. (own_name n t h, λ e. cc (no_component, own_name n t h, e, h)),
  λ (e, d). ap component_of_name (sym e) ∙ name_found t d,
)
