-- ===== src/Grpc/Permissions/Laws.antt =====
-- The permissions of the model and their numbers on the wire correspond one to one.
use mathlib.Core.Path.{subst₂}
use theapp.Prelude.{
  ℕ, ◌≡◌, refl, sym, ap, Bool, true, false, ◌&&◌, Option, none, some, List, [], ◌∷◌, Comparable,
  ◌==◌, contains, nat_comparable, string_comparable, arith, Bool-cases, inl, inr, eq_iff,
}
use theapp.Slices.{all, all_sound}
use theapp.Permission.{Permission, all_permissions}
use theapp.Grpc.Permissions.{lookup, permission_from_pb_map, permission_to_pb, permission_from_pb}

-- The entry that a key leads to passes any test that the whole map passes.
lookup-all :
    {A B : Type 0} ⦃e : Comparable A⦄ (entries : List (A × B)) (test : A × B → Bool) (k : A) {v : B}
    → all entries test ≡ true
    → lookup entries k ≡ some v
    → test (k, v) ≡ true
unfolding all lookup
lookup-all [] test k a h = ground arith
lookup-all ⦃e⦄ (entry ∷ rest) test k {v = v} a h = elim (Bool-cases (k == entry.0)) [
  | inl same ↦
      let first : test (entry.0, entry.1) ≡ true = ground arith in
      let value : entry.1 ≡ v = ground arith in
      subst₂ (λ x y. test (x, y) ≡ true) (sym ((e.equals_iff k entry.0).0 same)) value first
  | inr other ↦ lookup-all rest test k (ground arith) (ground arith)
]

abbrev is_number : Option ℕ → ℕ → Bool
is_number none n = false
is_number (some m) n = m == n

abbrev is_permission : Option Permission → Permission → Bool
is_permission none p = false
is_permission (some q) p = q == p

abbrev returns_from : Option ℕ → Permission → Bool
returns_from none p = false
returns_from (some n) p = is_permission (permission_from_pb n) p

number_of_returns :
    (o : Option ℕ) (p : Permission)
    → returns_from o p ≡ true
    → (n : ℕ) × (o ≡ some n) × (permission_from_pb n ≡ some p)
number_of_returns none p h = ground arith
number_of_returns (some n) p h = (n, refl, is_permission-some (permission_from_pb n) p h)
  where
    is_permission-some :
        (o : Option Permission) (p : Permission) → is_permission o p ≡ true → o ≡ some p
    is_permission-some none p h = ground arith
    is_permission-some (some q) p h = ap some ((eq_iff q p).0 h)

registry_returns : all all_permissions (λ q. returns_from (permission_to_pb q) q) ≡ true
unfolding all all_permissions permission_to_pb permission_from_pb
registry_returns = refl

-- Every permission of the registry has a number on the wire, and the number leads back to it.
pub permission_roundtrip :
    (p : Permission)
    → contains all_permissions p ≡ true
    → (n : ℕ) × (permission_to_pb p ≡ some n) × (permission_from_pb n ≡ some p)
permission_roundtrip p m =
    number_of_returns (permission_to_pb p) p
      (all_sound all_permissions (λ q. returns_from (permission_to_pb q) q) p registry_returns m)

abbrev entry_test : ℕ × Permission → Bool
entry_test e = is_number (permission_to_pb e.1) e.0 && contains all_permissions e.1

abbrev passes : Option (List (ℕ × Permission)) → Bool
passes none = true
passes (some entries) = all entries entry_test

numbers_pass : passes permission_from_pb_map ≡ true
unfolding all all_permissions permission_to_pb permission_from_pb_map contains
numbers_pass = refl

number_passes :
    (m : Option (List (ℕ × Permission))) (n : ℕ) (p : Permission)
    → passes m ≡ true
    → elim m [ none ↦ none | some map ↦ lookup map n ] ≡ some p
    → entry_test (n, p) ≡ true
number_passes none n p t h = ground arith
number_passes (some entries) n p t h = lookup-all entries entry_test n t h

number_of_test :
    (o : Option ℕ) (n : ℕ) (b : Bool) → (is_number o n && b) ≡ true → (o ≡ some n) × (b ≡ true)
number_of_test none n b h = ground arith
number_of_test (some m) n b h = (ground arith, ground arith)

-- A number that stands for a permission stands for one of the registry, which has that number.
pub number_roundtrip :
    (n : ℕ) (p : Permission)
    → permission_from_pb n ≡ some p
    → (permission_to_pb p ≡ some n) × (contains all_permissions p ≡ true)
unfolding permission_from_pb
number_roundtrip n p h =
    number_of_test (permission_to_pb p) n (contains all_permissions p)
      (number_passes permission_from_pb_map n p numbers_pass h)
