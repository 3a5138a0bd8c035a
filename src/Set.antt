-- ===== src/Set.antt =====
-- backend/pkg/set/set.go. A Go map with empty values is the list of its keys; Go iterates over a
-- map in no fixed order, so what is stated of `values` never depends on the order of the list.
pub mod Laws
pub mod Distinct
mod Examples
use theapp.Prelude.{
  ℕ, Bool, true, false, List, [], ◌∷◌, Comparable, ◌==◌, ltb, length, contains, if◌then◌else◌,
}

pub record Set {ℓ} (A : Type ℓ) : Type ℓ where
  pub entries : List A

module _ {ℓ} {A : Type ℓ} where
  -- New
  unfoldable pub new : Set A
  new = record { entries = [] }

  -- Len
  unfoldable pub len : Set A → ℕ
  len s = length s.entries

  -- Values
  unfoldable pub values : Set A → List A
  values s = s.entries

module _ {ℓ} {A : Type ℓ} ⦃e : Comparable A⦄ where
  -- s[v] = struct{}{}
  unfoldable pub store : List A → A → List A
  unfolding contains
  store xs v = if contains xs v then xs else v ∷ xs

  -- delete(s, v)
  unfoldable pub delete : List A → A → List A
  delete [] v = []
  delete (x ∷ xs) v = let rest = delete xs v in if v == x then rest else x ∷ rest

  unfoldable pub add_entries : List A → List A → List A
  unfolding store
  add_entries xs [] = xs
  add_entries xs (v ∷ vs) = add_entries (store xs v) vs

  unfoldable pub remove_entries : List A → List A → List A
  unfolding delete
  remove_entries xs [] = xs
  remove_entries xs (v ∷ vs) = remove_entries (delete xs v) vs

  -- Add
  unfoldable pub add : Set A → List A → Set A
  unfolding add_entries
  add s vs = record { entries = add_entries s.entries vs }

  -- Remove
  unfoldable pub remove : Set A → List A → Set A
  unfolding remove_entries
  remove s vs = record { entries = remove_entries s.entries vs }

  -- FromSlice
  unfoldable pub from_slice : List A → Set A
  unfolding add new
  from_slice vs = add new vs

  -- Contains
  unfoldable pub has : Set A → A → Bool
  unfolding contains
  has s v = contains s.entries v

  -- The loop of IsSuperset.
  unfoldable pub holds_all : Set A → List A → Bool
  unfolding has
  holds_all s [] = true
  holds_all s (v ∷ vs) = let rest = holds_all s vs in if has s v then rest else false

  -- IsSuperset
  unfoldable pub is_superset : Set A → Set A → Bool
  unfolding holds_all
  is_superset s other = holds_all s other.entries

  -- Clone: every key is stored into an empty map.
  unfoldable pub clone : Set A → Set A
  unfolding add new
  clone s = add new s.entries

  -- Union
  unfoldable pub union : Set A → Set A → Set A
  unfolding clone
  union s other = add (clone s) other.entries

  -- The loop of Difference.
  unfoldable pub add_missing : Set A → List A → List A → List A
  unfolding has store
  add_missing other acc [] = acc
  add_missing other acc (v ∷ vs) = add_missing other (if has other v then acc else store acc v) vs

  -- Difference
  unfoldable pub difference : Set A → Set A → Set A
  unfolding add_missing new
  difference s other = record { entries = add_missing other (new {A = A}).entries s.entries }

  -- SymmetricDifference
  unfoldable pub symmetric_difference : Set A → Set A → Set A
  unfolding union difference
  symmetric_difference s other = union (difference s other) (difference other s)

  -- The loop of Intersection.
  unfoldable pub add_shared : Set A → List A → List A → List A
  unfolding has store
  add_shared other acc [] = acc
  add_shared other acc (v ∷ vs) = add_shared other (if has other v then store acc v else acc) vs

  -- Intersection: the smaller set is the one that is walked.
  unfoldable pub intersection : Set A → Set A → Set A
  unfolding add_shared len
  intersection s other =
      if ltb (len other) (len s)
      then record { entries = add_shared s [] other.entries }
      else record { entries = add_shared other [] s.entries }
