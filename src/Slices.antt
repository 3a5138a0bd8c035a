-- ===== src/Slices.antt =====
-- backend/pkg/x/slicesx/slicesx.go, and the loops over a slice that the program writes out.
use theapp.Prelude.{
  ℕ, suc, Bool, true, false, List, [], ◌∷◌, Comparable, ◌≡◌, refl, contains, if◌then◌else◌, arith,
}

module _ {ℓ κ} {A : Type ℓ} {B : Type κ} where
  -- Map
  unfoldable pub map : List A → (A → B) → List B
  map [] f = []
  map (x ∷ xs) f = f x ∷ map xs f

module _ {ℓ} {A : Type ℓ} where
  -- CountFunc
  unfoldable pub count_func : List A → (A → Bool) → ℕ
  count_func [] f = 0
  count_func (x ∷ xs) f = let count = count_func xs f in if f x then suc count else count

  -- Every element passes a test.
  unfoldable pub all : List A → (A → Bool) → Bool
  all [] f = true
  all (x ∷ xs) f = let rest = all xs f in if f x then rest else false

  -- slices.ContainsFunc
  unfoldable pub contains_func : List A → (A → Bool) → Bool
  contains_func [] f = false
  contains_func (x ∷ xs) f = let rest = contains_func xs f in if f x then true else rest

module _ {ℓ} {A : Type ℓ} ⦃e : Comparable A⦄ where
  -- A test that passes on a list passes on each member: a finite range is checked by evaluation.
  pub all_sound :
      (xs : List A) (f : A → Bool) (a : A) → all xs f ≡ true → contains xs a ≡ true → f a ≡ true
  unfolding all contains
  all_sound [] f a h m = cc
  all_sound (x ∷ xs) f a h m = ground (arith, all_sound xs f a, e.equals_iff a x)

  pub map_id : (xs : List A) → map xs (λ x. x) ≡ xs
  unfolding map
  map_id [] = refl
  map_id (x ∷ xs) = cc (map_id xs)
