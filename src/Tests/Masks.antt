-- ===== src/Tests/Masks.antt =====
-- Runs of the affinity masks.
use yloc.Prelude.{
  ℕ, ◌<◌, ◌≤◌, ◌≡◌, ◌↔◌, refl, true, some, ok, fault, List, [], ◌∷◌, ltb, lt→ltb, arith, ◌==◌,
}
use yloc.Affinity.{is_contained_in, is_containing, of_cpu_set, to_cpu_set, of_bitmap, to_bitmap}
use yloc.Affinity.Convert.{of_cpu_set-to_cpu_set}
use yloc.Affinity.Bitmaps.{of_bitmap_online, of_bitmap_offline, of_bitmap-to_bitmap}
use yloc.Affinity.Containment.{is_containing_iff, is_containing-count}
use yloc.Tests.Bits.{BitFun, function_bits}
use yloc.Tests.Cpus.{holds, cpu_list, bitmap_list}

-- Masks over four processors: all, the first two, and the first.
abbrev all_four : BitFun
all_four = record { length = 4; at = λ _. true }

abbrev first_two : BitFun
first_two = record { length = 4; at = λ i. ltb i 2 }

abbrev first_one : BitFun
first_one = record { length = 4; at = λ i. i == 0 }

room : (i : ℕ) → i < 4 → ltb i 1024 ≡ true
room i l = lt→ltb i 1024 (omega (arith, l))

of_cpu_set-to_cpu_set_example :
    function_bits.eq
      (of_cpu_set function_bits 4 cpu_list (to_cpu_set function_bits 4 cpu_list first_two))
      first_two
    ≡ true
of_cpu_set-to_cpu_set_example = of_cpu_set-to_cpu_set function_bits 4 cpu_list first_two room refl

two_cpus_online : (i : ℕ) → holds (0 ∷ 2 ∷ []) i ≡ true → i < 4
two_cpus_online i h = ground arith

of_bitmap_online_example :
    (m : BitFun) × (of_bitmap function_bits 4 bitmap_list (some (0 ∷ 2 ∷ [])) ≡ ok m)
    × (m.length ≡ 4)
    × ((j : ℕ) → j < 4 → m.at j ≡ holds (0 ∷ 2 ∷ []) j)
of_bitmap_online_example = of_bitmap_online function_bits 4 bitmap_list (0 ∷ 2 ∷ []) two_cpus_online

of_bitmap_offline_example : of_bitmap function_bits 4 bitmap_list (some (0 ∷ 7 ∷ [])) ≡ fault
of_bitmap_offline_example =
    of_bitmap_offline function_bits 4 bitmap_list (0 ∷ 7 ∷ []) 7 refl (omega arith)

of_bitmap-to_bitmap_example :
    (mask : List ℕ) × (m' : BitFun) × (to_bitmap function_bits 4 bitmap_list first_two ≡ ok mask)
    × (of_bitmap function_bits 4 bitmap_list (some mask) ≡ ok m')
    × (function_bits.eq m' first_two ≡ true)
of_bitmap-to_bitmap_example =
    of_bitmap-to_bitmap function_bits 4 bitmap_list first_two refl (λ i. refl) refl

contains_two : is_containing function_bits all_four first_two ≡ true
unfolding is_containing is_contained_in
contains_two = refl

is_containing_iff_example :
    ((is_contained_in function_bits first_two all_four ≡ true)
      ↔ ((i : ℕ) → i < 4 → first_two.at i ≡ true → all_four.at i ≡ true))
    × ((is_containing function_bits first_two all_four ≡ true)
        ↔ ((i : ℕ) → i < 4 → all_four.at i ≡ true → first_two.at i ≡ true))
is_containing_iff_example = is_containing_iff function_bits 4 first_two all_four refl refl

is_containing-count_example :
    (function_bits.count first_two ≤ function_bits.count all_four)
    × ((function_bits.count first_two ≡ function_bits.count all_four)
        ↔ (function_bits.eq first_two all_four ≡ true))
is_containing-count_example =
    is_containing-count function_bits 4 all_four first_two refl refl contains_two
