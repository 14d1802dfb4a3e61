-- ===== src/Modules/Order.antt =====
-- Which modules init of src/init.cc runs, and in which order.
use mathlib.Core.List.Permᴰ as PermD
use yloc.Prelude.{
  ◌≡◌, refl, ap, ◌∙◌, List, [], ◌∷◌, Bool, true, false, ◌&&◌, ok, ◌>>=◌, Bool-cases, inl, inr, keep,
  count, All, ltb, arith,
}
use yloc.Prelude.Sorting.{Sorting, IsSortedBy, count-Permᴰ, All-Permᴰ}
use yloc.Status.{Status, success}
use yloc.Graph.{BoostGraph, Graph}
use yloc.Graph.WellFormed.{IsWellFormed}
use yloc.Graph.Changes.{Changes, unchanged, Changes-trans}
use yloc.Graph.Invariants.{Changes-IsWellFormed}
use yloc.Modules.{Module, IsSafe, run_modules, init, order_value}

module _ {A : Type 0} (p : A → Bool) where
  All-keep : (xs : List A) → All (λ x. p x ≡ true) (keep p xs)
  All-keep [] = tt
  All-keep (x ∷ xs) = elim (Bool-cases (p x)) [
    | inl e ↦ rw e (e, All-keep xs)
    | inr e ↦ rw e (All-keep xs)
  ]

  count-keep : (q : A → Bool) (xs : List A) → count q (keep p xs) ≡ count (λ x. p x && q x) xs
  count-keep q [] = refl
  count-keep q (x ∷ xs) = elim (Bool-cases (p x)) [
    | inl e ↦ rw e (omega (arith, count-keep q xs))
    | inr e ↦ rw e (omega (arith, count-keep q xs))
  ]

  All-of_keep : (P : A → Type 0) (xs : List A) → All P xs → All P (keep p xs)
  All-of_keep P [] a = tt
  All-of_keep P (x ∷ xs) a = elim (Bool-cases (p x)) [
    | inl e ↦ rw e (a.0, All-of_keep P xs a.1)
    | inr e ↦ rw e (All-of_keep P xs a.1)
  ]

  keep-IsSortedBy :
      (less : A → A → Bool) (xs : List A) → IsSortedBy less xs → IsSortedBy less (keep p xs)
  keep-IsSortedBy less [] s = tt
  keep-IsSortedBy less (x ∷ xs) s = elim (Bool-cases (p x)) [
    | inl e ↦ rw e (All-of_keep (λ y. less y x ≡ false) xs s.0, keep-IsSortedBy less xs s.1)
    | inr e ↦ rw e (keep-IsSortedBy less xs s.1)
  ]

module _ {Mask : Type 0} (boost : BoostGraph Mask) where
  abbrev earlier : Module boost → Module boost → Bool
  earlier a b = ltb (order_value a.m_init_order) (order_value b.m_init_order)

  -- Modules that run one after the other, each on the graph that the one before it left.
  pub data Runs : List (Module boost) → Graph boost → Graph boost → Type 0 where
    finished : (g : Graph boost) → Runs [] g g
    run :
        {m : Module boost} {ms : List (Module boost)} {g h k : Graph boost} (s : Status)
        → m.init_graph g ≡ ok (h, s)
        → Runs ms h k
        → Runs (m ∷ ms) g k

  run_modules-Runs :
      (ms : List (Module boost)) (g : Graph boost)
      → All (IsSafe boost) ms
      → IsWellFormed g
      → (h : Graph boost) × (run_modules boost ms g ≡ ok h)
        × Runs (keep (λ m. m.m_enabled) ms) g h
        × Changes g h
  unfolding run_modules
  run_modules-Runs [] g a w = (g, refl, finished g, unchanged)
  run_modules-Runs (m ∷ ms) g (safe, a) w = elim (Bool-cases m.m_enabled) [
    | inl e ↦
        let (h, s, f, c) = safe g w in
        let (k, f', r, c') = run_modules-Runs ms h a (Changes-IsWellFormed c w) in
        (k, rw (run_modules, e, f) f', rw e (run s f r), Changes-trans c c')
    | inr e ↦ let (k, f, r, c) = run_modules-Runs ms g a w in (k, rw (run_modules, e) f, rw e r, c)
  ]

  -- The modules that ran: the enabled ones, each as often as it is listed, and none of the second order
  -- in front of one of the first.
  pub record IsInOrder (modules ran : List (Module boost)) : Type 0 where
    pub all_enabled : All (λ m. m.m_enabled ≡ true) ran
    pub each_once :
        (p : Module boost → Bool) → count p ran ≡ count (λ m. m.m_enabled && p m) modules
    pub ordered : IsSortedBy earlier ran

  -- On a well-formed graph, where every listed module returns on well-formed graphs and changes them only
  -- by module changes, init returns success whatever the modules return. The modules that it runs
  -- are the enabled ones, each as often as it is listed and none of the second order in front of one of
  -- the first; each runs on the graph that the one before it left. The graph is then well-formed and
  -- was changed only by module changes.
  pub init-Runs :
      (sorting : Sorting (Module boost)) (modules : List (Module boost)) (g : Graph boost)
      → All (IsSafe boost) modules
      → IsWellFormed g
      → (h : Graph boost) × (ran : List (Module boost)) × (init boost sorting modules g
          ≡ ok (h, success))
        × IsInOrder modules ran
        × Runs ran g h
        × IsWellFormed h
        × Changes g h
  unfolding init
  init-Runs sorting modules g safe w =
      let sorter = sorting (λ m. order_value m.m_init_order) in
      let (h, e, r, c) =
        run_modules-Runs (sorter.sort modules) g
          (All-Permᴰ (IsSafe boost) (PermD.symm (sorter.sort-Permᴰ modules)) safe) w in
      (
        h,
        keep (λ m. m.m_enabled) (sorter.sort modules),
        ap (λ r. r >>= λ k. ok (k, success)) e,
        record {
          all_enabled = All-keep (λ m. m.m_enabled) (sorter.sort modules);
          each_once = λ p.
              count-keep (λ m. m.m_enabled) p (sorter.sort modules)
              ∙ count-Permᴰ (λ m. m.m_enabled && p m) (sorter.sort-Permᴰ modules);
          ordered =
              keep-IsSortedBy (λ m. m.m_enabled) earlier (sorter.sort modules)
                (sorter.sort-IsSortedBy modules);
        },
        r,
        Changes-IsWellFormed c w,
        c,
      )
