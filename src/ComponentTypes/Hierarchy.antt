-- ===== src/ComponentTypes/Hierarchy.antt =====
-- The type test of src/include/yloc/component_types.h against the inheritance relation.
use yloc.Prelude.{
  ℕ, zero, suc, ◌≤◌, ◌<◌, ◌≡◌, refl, sym, ap, ◌∙◌, subst, ◌⊎◌, inl, inr, ◌↔◌, true, Memᴰ, any-Memᴰ,
  any-true_of_Memᴰ, All-Memᴰ, ◌∷◌, some, of_some, arith, All, Bool-cases, get_elem?, ==_iff,
}
use yloc.ComponentTypes.{
  ComponentType, component, bases, index, type_eq, derives_within, levels, is_a, test_component,
  declared,
}

-- `t` is `c`, or one of its base classes derives from `c`.
pub data Derives (c : ComponentType) : ComponentType → Type 0 where
  here : Derives c c
  up : {t : ComponentType} (b : ComponentType) → Memᴰ b (bases t) → Derives c b → Derives c t

-- The longest way from a class up to `Component`.
pub rank : ComponentType → ℕ
rank ComponentType.component = 0
rank ComponentType.unknown_component_type = 1
rank ComponentType.node = 1
rank ComponentType.compute = 1
rank ComponentType.cpu_core = 2
rank ComponentType.logical_core = 3
rank ComponentType.physical_core = 3
rank ComponentType.storage = 1
rank ComponentType.memory = 2
rank ComponentType.cache = 2
rank ComponentType.persistent_storage = 2
rank ComponentType.volatile_memory = 3
rank ComponentType.non_volatile_memory = 3
rank ComponentType.data_cache = 3
rank ComponentType.instruction_cache = 3
rank ComponentType.unified_cache = 4
rank ComponentType.l1_cache = 3
rank ComponentType.l2_cache = 3
rank ComponentType.l3_cache = 3
rank ComponentType.l4_cache = 3
rank ComponentType.l1_data_cache = 4
rank ComponentType.l2_data_cache = 4
rank ComponentType.l3_data_cache = 4
rank ComponentType.l4_data_cache = 4
rank ComponentType.l1_instruction_cache = 4
rank ComponentType.l2_instruction_cache = 4
rank ComponentType.l3_instruction_cache = 4
rank ComponentType.l4_instruction_cache = 4
rank ComponentType.l1_unified_cache = 5
rank ComponentType.l2_unified_cache = 5
rank ComponentType.l3_unified_cache = 5
rank ComponentType.l4_unified_cache = 5
rank ComponentType.solid_state_drive = 3
rank ComponentType.hard_disk_drive = 3
rank ComponentType.pci_device = 1
rank ComponentType.bridge = 1
rank ComponentType.logical_accelerator = 1
rank ComponentType.logical_gpu = 2
rank ComponentType.accelerator = 2
rank ComponentType.gpu = 3
rank ComponentType.fpga = 3
rank ComponentType.gpu_core = 4
rank ComponentType.gpu_memory = 4
rank ComponentType.input_output = 1
rank ComponentType.network_device = 2
rank ComponentType.link = 1
rank ComponentType.bus = 2
rank ComponentType.misc = 1
rank ComponentType.logical_edge_type = 1
rank ComponentType.parent = 2
rank ComponentType.child = 2
rank ComponentType.logical_component = 1
rank ComponentType.mpi_process = 2

-- A base class stands strictly higher than the class.
bases-rank : (t : ComponentType) → All (λ b. rank b < rank t) (bases t)
unfolding bases rank
bases-rank component = tt
bases-rank _ = omega arith

rank-le-levels : (t : ComponentType) → rank t ≤ levels
unfolding rank
rank-le-levels component = omega arith
rank-le-levels _ = omega arith

index-type : (t : ComponentType) → get_elem? (component ∷ declared) (index t) ≡ some t
unfolding index
index-type component = refl
index-type _ = refl

pub type_eq_iff : (s t : ComponentType) → (type_eq s t ≡ true) ↔ (s ≡ t)
type_eq_iff s t = (
  λ e. of_some (
      sym (index-type s)
      ∙ ap (get_elem? (component ∷ declared)) ((==_iff (index s) (index t)).0 e)
      ∙ index-type t),
  λ e. (==_iff (index s) (index t)).1 (ap index e),
)

derives_within-Derives : (n : ℕ) (t c : ComponentType) → derives_within n t c ≡ true → Derives c t
unfolding derives_within
derives_within-Derives zero t c h = subst (λ x. Derives c x) (sym ((type_eq_iff t c).0 h)) here
derives_within-Derives (suc n) t c h = elim (Bool-cases (type_eq t c)) [
  | inl e ↦ subst (λ x. Derives c x) (sym ((type_eq_iff t c).0 e)) here
  | inr e ↦
      let (b, m, d) = any-Memᴰ (λ b. derives_within n b c) (bases t) (ground arith) in
      up b m (derives_within-Derives n b c d)
]

derives_within_self : (n : ℕ) (c : ComponentType) → derives_within n c c ≡ true
unfolding derives_within
derives_within_self zero c = (type_eq_iff c c).1 refl
derives_within_self (suc n) c = rw ((type_eq_iff c c).1 refl)

derives_within_up :
    (n : ℕ) (b t c : ComponentType)
    → Memᴰ b (bases t)
    → derives_within n b c ≡ true
    → derives_within (suc n) t c ≡ true
unfolding derives_within
derives_within_up n b t c m h = elim (Bool-cases (type_eq t c)) [
  | inl e ↦ rw e
  | inr e ↦ rw e (any-true_of_Memᴰ (λ x. derives_within n x c) m h)
]

base_is_higher : (b t : ComponentType) → Memᴰ b (bases t) → rank b < rank t
base_is_higher b t m = All-Memᴰ (λ b. rank b < rank t) m (bases-rank t)

Derives-derives_within :
    {c t : ComponentType} → Derives c t → (n : ℕ) → rank t ≤ n → derives_within n t c ≡ true
Derives-derives_within {c} here n h = derives_within_self n c
Derives-derives_within {t} (up b m d) zero h = absurd (omega (arith, base_is_higher b t m))
Derives-derives_within {c} {t} (up b m d) (suc n) h =
    derives_within_up n b t c m (Derives-derives_within d n (omega (arith, base_is_higher b t m)))

-- The type test is true exactly when the class of the object is the asked class or derives from it,
-- over however many levels.
pub is_a-iff-Derives : (t c : ComponentType) → (is_a t c ≡ true) ↔ Derives c t
unfolding is_a
is_a-iff-Derives t c =
    (derives_within-Derives levels t c, λ d. Derives-derives_within d levels (rank-le-levels t))

Derives_trans : {a b c : ComponentType} → Derives a b → Derives b c → Derives a c
Derives_trans d here = d
Derives_trans d (up x m e) = up x m (Derives_trans d e)

Derives-rank : {c t : ComponentType} → Derives c t → (c ≡ t) ⊎ (rank c < rank t)
Derives-rank here = inl refl
Derives-rank {c} {t} (up b m d) =
    let lt = base_is_higher b t m in
    inr (elim (Derives-rank d) [ inl e ↦ rw e lt | inr l ↦ omega arith ])

-- The type test is a partial order on the component types: it is transitive, and of two types of which
-- the first is of the second type, the second is of the first type exactly when they are the same.
pub is_a_order :
    (s t u : ComponentType)
    → is_a s t ≡ true
    → is_a t u ≡ true
    → (is_a s u ≡ true) × ((is_a t s ≡ true) ↔ (s ≡ t))
is_a_order s t u p q = (
  (is_a-iff-Derives s u).1
      (Derives_trans ((is_a-iff-Derives t u).0 q) ((is_a-iff-Derives s t).0 p)),
  (
    λ q. elim (Derives-rank ((is_a-iff-Derives s t).0 p)) [
      | inl e ↦ sym e
      | inr l ↦ elim (Derives-rank ((is_a-iff-Derives t s).0 q)) [
        | inl e ↦ e
        | inr l' ↦ absurd (omega arith)
      ]
    ],
    λ e. rw e ((is_a-iff-Derives t t).1 here),
  ),
)

is_a-component : (t : ComponentType) → is_a t component ≡ true
unfolding is_a derives_within
is_a-component component = refl
is_a-component _ = refl

Derives-component : (t : ComponentType) → Derives component t
Derives-component t = (is_a-iff-Derives t component).0 (is_a-component t)

-- Every type derives from `Component`, so the override of `test_component` in the base class agrees
-- with the cast: `c->test_component(other)` holds exactly when `other` derives from `c`.
pub test_component-iff-Derives :
    (c other : ComponentType) → (test_component c other ≡ true) ↔ Derives c other
unfolding test_component
test_component-iff-Derives component other = (λ _. Derives-component other, λ _. refl)
test_component-iff-Derives c other = is_a-iff-Derives other c
