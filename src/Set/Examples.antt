-- ===== src/Set/Examples.antt =====
-- Sets of numbers.
use theapp.Prelude.{ℕ, ◌≡◌, not, ◌&&◌, ◌||◌, [], ◌∷◌, contains, nat_comparable, arith}
use theapp.Set.{Set, has, from_slice, symmetric_difference, len, intersection}
use theapp.Set.Laws.{has-from_slice, has-symmetric_difference, has-intersection}
use theapp.Set.Distinct.{from_slice-IsKeyed, len_unique}

abbrev low : Set ℕ
low = record { entries = 1 ∷ 2 ∷ [] }

abbrev high : Set ℕ
high = record { entries = 2 ∷ 3 ∷ 4 ∷ [] }

has-symmetric_difference_example :
    has (symmetric_difference low high) 2
    ≡ ((has low 2 && not (has high 2)) || (has high 2 && not (has low 2)))
has-symmetric_difference_example = has-symmetric_difference low high 2

has-intersection_example : has (intersection low high) 2 ≡ (has low 2 && has high 2)
has-intersection_example = has-intersection low high 2

same_members : (a : ℕ) → has (from_slice (1 ∷ 2 ∷ 1 ∷ [])) a ≡ has (from_slice (2 ∷ 1 ∷ [])) a
unfolding contains
same_members a = ground (arith, has-from_slice (1 ∷ 2 ∷ 1 ∷ []) a, has-from_slice (2 ∷ 1 ∷ []) a)

len_unique_example :
    ◌≡◌ {A = ℕ} (len {A = ℕ} (from_slice (1 ∷ 2 ∷ 1 ∷ []))) (len {A = ℕ} (from_slice (2 ∷ 1 ∷ [])))
len_unique_example =
    len_unique (from_slice (1 ∷ 2 ∷ 1 ∷ [])) (from_slice (2 ∷ 1 ∷ []))
      (from_slice-IsKeyed (1 ∷ 2 ∷ 1 ∷ [])) (from_slice-IsKeyed (2 ∷ 1 ∷ [])) same_members
