-- ===== src/Pgrbac/Schema/Laws.antt =====
-- What rbac.resolve_permissions has found where it returns a row.
use theapp.Prelude.{
  ℕ, ◌≡◌, refl, sym, ap, ◌∙◌, String, Bool, true, Option, none, some, List, [], ◌∷◌, contains, ◌==◌,
  string_comparable, length, arith, Bool-cases, inl, inr, eq_iff,
}
use theapp.Slices.{contains_func}
use theapp.Set.{from_slice, values}
use theapp.Set.Laws.{contains-values, has-from_slice}
use theapp.Pgrbac.Db.{Db, Postgres, PermissionRow, find}
use theapp.Pgrbac.Schema.{permission_id, prepend, ids_of_names, sorted_names, resolve_permissions}

-- What PostgreSQL documents of ORDER BY: the rows are those that were there, as many times.
pub record IsOrdering (pg : Postgres) : Type 1 where
  pub keeps :
      (A : Type 0) (text : A → String) (number : A → ℕ) (rows : List A) (f : A → Bool)
      → contains_func (pg.order_by A text number rows) f ≡ contains_func rows f
  pub counts :
      (A : Type 0) (text : A → String) (number : A → ℕ) (rows : List A)
      → length (pg.order_by A text number rows) ≡ length rows

contains-contains_func :
    (names : List String) (n : String) → contains names n ≡ contains_func names (λ x. n == x)
unfolding contains contains_func
contains-contains_func [] n = refl
contains-contains_func (x ∷ xs) n = ground (arith, contains-contains_func xs n)

-- Whether a name is registered.
abbrev pub is_registered : Db → String → Bool
is_registered db n = contains_func db.permissions (λ p. p.name == n)

find-contains_func :
    (rows : List PermissionRow) (f : PermissionRow → Bool) {p : PermissionRow}
    → find rows f ≡ some p
    → contains_func rows f ≡ true
unfolding find contains_func
find-contains_func [] f h = ground arith
find-contains_func (x ∷ xs) f h = elim (Bool-cases (f x)) [
  | inl t ↦ ground arith
  | inr o ↦ ground (arith, find-contains_func xs f (rw o at h))
]

permission_id-registered :
    (db : Db) (n : String) {i : ℕ} → permission_id db n ≡ some i → is_registered db n ≡ true
unfolding permission_id
permission_id-registered db n h = go (find db.permissions (λ p. p.name == n)) refl h
  where
    go :
        (o : Option PermissionRow) {i : ℕ}
        → find db.permissions (λ p. p.name == n) ≡ o
        → elim o [ none ↦ none | some p ↦ some p.id ] ≡ some i
        → is_registered db n ≡ true
    go none e k = ground arith
    go (some p) e k = find-contains_func db.permissions _ e

prepend-some :
    (o : Option ℕ) (r : Option (List ℕ)) {ids : List ℕ}
    → prepend o r ≡ some ids
    → (i : ℕ) × (is : List ℕ) × (o ≡ some i) × (r ≡ some is)
prepend-some (some i) (some is) h = (i, is, refl, refl)
prepend-some (some i) none h = ground arith
prepend-some none (some is) h = ground arith
prepend-some none none h = ground arith

ids_of_names-registered :
    (db : Db) (names : List String) {ids : List ℕ}
    → ids_of_names db names ≡ some ids
    → (n : String) → contains names n ≡ true
    → is_registered db n ≡ true
unfolding ids_of_names contains
ids_of_names-registered db [] h n m = ground arith
ids_of_names-registered db (x ∷ xs) h n m =
    let (i, is, found, rest) = prepend-some (permission_id db x) (ids_of_names db xs) h in
    elim (Bool-cases (n == x)) [
      | inl same ↦ ap (is_registered db) ((eq_iff n x).0 same) ∙ permission_id-registered db x found
      | inr other ↦ ids_of_names-registered db xs rest n (ground arith)
    ]

-- Every name that was asked for is registered where they could be resolved.
pub resolve_permissions-registered :
    (pg : Postgres) (db : Db) (requested : List String) {r : List ℕ × List String}
    → IsOrdering pg
    → resolve_permissions pg db requested ≡ some r
    → (n : String) → contains requested n ≡ true
    → is_registered db n ≡ true
unfolding resolve_permissions sorted_names
resolve_permissions-registered pg db requested law h n m =
    let names = sorted_names pg (values (from_slice requested)) in go (ids_of_names db names) refl h
  where
    asked : contains (sorted_names pg (values (from_slice requested))) n ≡ true
    asked =
        contains-contains_func _ n
        ∙ law.keeps String (λ name. name) (λ _. 0) (values (from_slice requested)) (λ x. n == x)
        ∙ sym (contains-contains_func (values (from_slice requested)) n)
        ∙ contains-values (from_slice requested) n
        ∙ has-from_slice requested n
        ∙ m

    go :
        (o : Option (List ℕ)) {r : List ℕ × List String}
        → ids_of_names db (sorted_names pg (values (from_slice requested))) ≡ o
        → elim o [
          | none ↦ none
          | some ids ↦ some (ids, sorted_names pg (values (from_slice requested)))
        ]
          ≡ some r
        → is_registered db n ≡ true
    go none e k = ground arith
    go (some ids) e k = ids_of_names-registered db _ e n asked
