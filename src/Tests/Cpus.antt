-- ===== src/Tests/Cpus.antt =====
-- Sets of CPUs as lists of their numbers.
use yloc.Prelude.{
  ℕ, ◌≡◌, refl, sym, ◌↔◌, Bool, true, false, List, [], ◌∷◌, some, ◌==◌, ==_iff, if◌then◌else◌, Memᴰ,
  ltb, Bool-cases, inl, inr,
}
use yloc.External.CpuSets.{CpuSet, Bitmap}

abbrev pub holds : List ℕ → ℕ → Bool
holds [] i = false
holds (x ∷ s) i = if x == i then true else holds s i

holds_of_mem : (s : List ℕ) (i : ℕ) → Memᴰ i s → holds s i ≡ true
holds_of_mem [] i m = elim m [ ]
holds_of_mem (x ∷ s) i (Memᴰ.head e) = rw ((==_iff x i).1 (sym e)) refl
holds_of_mem (x ∷ s) i (Memᴰ.tail m) = elim (Bool-cases (x == i)) [
  | inl e ↦ rw e refl
  | inr e ↦ rw e (holds_of_mem s i m)
]

mem_of_holds : (s : List ℕ) (i : ℕ) → holds s i ≡ true → Memᴰ i s
mem_of_holds [] i h = cc h
mem_of_holds (x ∷ s) i h = elim (Bool-cases (x == i)) [
  | inl e ↦ Memᴰ.head (sym ((==_iff x i).0 e))
  | inr e ↦ Memᴰ.tail (mem_of_holds s i (rw e at h))
]

pub mem_iff : (s : List ℕ) (i : ℕ) → Memᴰ i s ↔ (holds s i ≡ true)
mem_iff s i = (holds_of_mem s i, mem_of_holds s i)

abbrev pub cpu_list : CpuSet
cpu_list = record {
  Carrier = List ℕ;
  cpu_zero = [];
  is_set = holds;
  set_bit = λ s i. i ∷ s;
  fits = λ i. ltb i 1024;
  is_set-zero = λ i f. refl;
  is_set-set_bit = λ s i j fi fj. refl;
}

abbrev pub bitmap_list : Bitmap
bitmap_list = record {
  cpus = record {
    Carrier = List ℕ;
    cpu_zero = [];
    is_set = holds;
    set_bit = λ s i. i ∷ s;
    fits = λ _. true;
    is_set-zero = λ i f. refl;
    is_set-set_bit = λ s i j fi fj. refl;
  };
  indices = λ s. s;
  mem-indices_iff = mem_iff;
  alloc = some [];
}
