-- ===== src/Prelude/Assoc.antt =====
-- std::unordered_map with texts as keys, as a list of entries: a key is looked up from the front.
use mathlib.Core.List.{List, [], ◌∷◌}
use mathlib.Core.Logic.{◌⊎◌, inl, inr}
use mathlib.Core.Option.{Option, none, some}
use mathlib.Core.Path.{◌≡◌}
use yloc.Prelude.Strings.{Text, text_eq, eq_of_text_eq, text_eq_refl}
use yloc.Prelude.Tests.{if◌then◌else◌, Bool-cases, of_some}

module _ {ℓ} {V : Type ℓ} where
  unfoldable pub find_key : Text → List (Text × V) → Option V
  find_key k [] = none
  find_key k ((j, v) ∷ m) = let rest = find_key k m in if text_eq j k then some v else rest

  pub find_key-cons :
      (k j : Text) (v w : V) (m : List (Text × V))
      → find_key k ((j, v) ∷ m) ≡ some w
      → ((j ≡ k) × (v ≡ w)) ⊎ (find_key k m ≡ some w)
  unfolding find_key
  find_key-cons k j v w m h = elim (Bool-cases (text_eq j k)) [
    | inl e ↦ inl (eq_of_text_eq j k e, of_some (rw e at h))
    | inr e ↦ inr (rw e at h)
  ]

  pub find_key-nil {κ} : {A : Type κ} (k : Text) {w : V} → find_key k [] ≡ some w → A
  unfolding find_key
  find_key-nil k h = cc

  pub find_key_self : (k : Text) (v : V) (m : List (Text × V)) → find_key k ((k, v) ∷ m) ≡ some v
  unfolding find_key
  find_key_self k v m = rw (text_eq_refl k)
