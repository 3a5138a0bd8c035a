-- ===== src/Prelude/Lists.antt =====
-- Lists measured by native numbers, and Go's `slices.Contains`.
use Prim.Native.Nat.{ℕ, suc, ◌+◌}
use mathlib.Core.Path.{◌≡◌, refl}
use mathlib.Core.Bool.{Bool, true, false, ◌&&◌, ◌||◌, not}
use mathlib.Core.List.{List, [], ◌∷◌, ◌++◌}
use native.Mathlib.Omega.{arith}
use theapp.Prelude.Tests.{Comparable, ◌==◌}

module _ {ℓ} {A : Type ℓ} where
  abbrev pub length : List A → ℕ
  length [] = 0
  length (x ∷ xs) = suc (length xs)

  pub length-append : (xs ys : List A) → length (xs ++ ys) ≡ length xs + length ys
  length-append [] ys = omega arith
  length-append (x ∷ xs) ys = omega (arith, length-append xs ys)

module _ {ℓ} {A : Type ℓ} ⦃e : Comparable A⦄ where
  -- slices.Contains
  unfoldable pub contains : List A → A → Bool
  contains [] a = false
  contains (x ∷ xs) a = a == x || contains xs a

  -- No value stands twice in the list.
  abbrev pub IsDistinct : List A → Type 0
  IsDistinct [] = Unit {0}
  IsDistinct (x ∷ xs) = (contains xs x ≡ false) × IsDistinct xs

  -- The executable form of `IsDistinct`.
  unfoldable pub is_distinct : List A → Bool
  unfolding contains
  is_distinct [] = true
  is_distinct (x ∷ xs) = not (contains xs x) && is_distinct xs

  pub is_distinct_sound : (xs : List A) → is_distinct xs ≡ true → IsDistinct xs
  unfolding is_distinct
  is_distinct_sound [] h = tt
  is_distinct_sound (x ∷ xs) h = (ground arith, is_distinct_sound xs (ground arith))

  pub contains-append :
      (xs ys : List A) (a : A) → contains (xs ++ ys) a ≡ (contains xs a || contains ys a)
  unfolding contains
  contains-append [] ys a = refl
  contains-append (x ∷ xs) ys a = ground (arith, contains-append xs ys a)

  pub contains-head : (x : A) (xs : List A) → contains (x ∷ xs) x ≡ true
  unfolding contains
  contains-head x xs = ground (arith, (e.equals_iff x x).1)

  pub contains-tail :
      (x : A) (xs : List A) (a : A) → contains xs a ≡ true → contains (x ∷ xs) a ≡ true
  unfolding contains
  contains-tail x xs a h = ground arith
