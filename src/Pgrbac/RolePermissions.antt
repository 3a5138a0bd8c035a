-- ===== src/Pgrbac/RolePermissions.antt =====
-- backend/internal/core/pgstores/pgrbac/query_custom_role.go: the queries that change the permissions of
-- a custom role and that delete it.
pub mod Laws
pub mod Modified
use theapp.Prelude.{
  ℕ, String, Bool, true, false, not, ◌&&◌, ◌||◌, Option, none, some, List, [], ◌∷◌, ◌++◌, map,
  nat_beq, string_comparable, nat_comparable, contains, if◌then◌else◌,
}
use theapp.Slices.{contains_func}
use theapp.Errors.{Outcome, ok, err, sentinel, pg_error, no_rows, pg_etag_mismatch}
use theapp.Session.{Uuid}
use theapp.Pgdb.{TypedQuery, expect_one, expect_many, unique_violation}
use theapp.Pgrbac
use theapp.Pgrbac.Db.{Db, Postgres, CustomRoleRow, RolePermissionRow, where', find}
use theapp.Pgrbac.Schema.{ids_of_role, resolve_permissions}
use theapp.Pgrbac.Roles.{owned_role, role_permission, with_version}

abbrev rows : {A : Type 0} → List A → List (Outcome A)
rows xs = map ok xs

-- The ids among `wanted` that the role holds, and those that it does not.
unfoldable pub held_ids : Db → ℕ → List ℕ → List ℕ
unfolding where' contains ids_of_role
held_ids db role_id wanted =
    where' wanted (λ i. contains (ids_of_role db.custom_role_permissions role_id) i)

unfoldable pub missing_ids : Db → ℕ → List ℕ → List ℕ
unfolding where' contains ids_of_role
missing_ids db role_id wanted =
    where' wanted (λ i. not (contains (ids_of_role db.custom_role_permissions role_id) i))

-- The rows of permissions without some of those of one role.
abbrev pub without_ids : ℕ → List ℕ → List RolePermissionRow → List RolePermissionRow
without_ids role_id ids table =
    where' table (λ rp. not (nat_beq rp.role_id role_id && contains ids rp.permission_id))

-- The ids whose names are among some names.
unfoldable pub ids_named : List ℕ → List String → List String → List ℕ
unfolding contains
ids_named (i ∷ is) (name ∷ names) wanted =
    let rest = ids_named is names wanted in if contains wanted name then i ∷ rest else rest
ids_named _ _ wanted = []

abbrev pub is_nonempty : List ℕ → Bool
is_nonempty [] = false
is_nonempty (_ ∷ _) = true

-- Scan of modifyCustomRolePermissionsQuery, on the three columns that it selects.
unfoldable pub scan_modify : Option ℕ → Bool → Bool → Outcome ℕ
scan_modify (some id) is_exists are_permissions_valid = ok id
scan_modify none is_exists are_permissions_valid =
    if not are_permissions_valid
    then err (sentinel no_rows)
    else if is_exists
    then err (sentinel pg_etag_mismatch)
    else err (sentinel no_rows)

module _ (pg : Postgres) where
  abbrev insert_permissions :
      Db → Option CustomRoleRow → Option (List ℕ × List String) → Outcome (List (Outcome ℕ)) × Db
  insert_permissions db none resolved = (ok [], db)
  insert_permissions db (some r) none = (ok [], db)
  insert_permissions db (some r) (some (ids, names)) =
      if is_nonempty (held_ids db r.id ids) then (err (pg_error unique_violation), db) else (
        ok (rows ids),
        record db {
          custom_role_permissions = db.custom_role_permissions ++ map (role_permission r.id) ids;
        },
      )

  -- insertCustomRolePermissionsQuery
  unfoldable pub insert_custom_role_permissions_query : Uuid → List String → TypedQuery Db ℕ
  unfolding find resolve_permissions held_ids
  insert_custom_role_permissions_query role_id permission_names = record {
    statement = λ db.
        insert_permissions db (find db.custom_roles (λ r. nat_beq r.external_id role_id))
          (resolve_permissions pg db permission_names);
    expect = expect_many;
  }

  -- updated_role: the metadata change only where the set of permissions did.
  abbrev pub touched : Db → CustomRoleRow → Bool → Db → Db
  touched db r false db' = db'
  touched db r true db' =
      with_version db'
        (record r { updated_at = some (pg.now db); etag = pg.gen_random_uuid db.draws })

  -- What the statement does to the role that it targets. Its parts see the rows as they were. For a
  -- permission that is added and removed at once PostgreSQL leaves the order of the two parts open, and
  -- this keeps the removal; the validation of requests refuses such a change.
  abbrev pub modified :
      Pgrbac.ModifyCustomRolePermissions → Db → CustomRoleRow → List ℕ → List String → Db
  modified mp db r ids names =
      let removed = held_ids db r.id (ids_named ids names mp.remove_permission_names) in
      let added = missing_ids db r.id (ids_named ids names mp.add_permission_names) in
      touched db r (is_nonempty removed || is_nonempty added) (record db {
        custom_role_permissions =
            without_ids r.id removed db.custom_role_permissions ++ map (role_permission r.id) added;
      })

  abbrev pub modify_target :
      Pgrbac.ModifyCustomRolePermissions
      → Db
      → Bool
      → Option CustomRoleRow
      → Option (List ℕ × List String)
      → Outcome (List (Outcome ℕ)) × Db
  modify_target mp db is_exists target none = (ok (scan_modify none is_exists false ∷ []), db)
  modify_target mp db is_exists none (some _) = (ok (scan_modify none is_exists true ∷ []), db)
  modify_target mp db is_exists (some r) (some (ids, names)) =
      (ok (scan_modify (some r.id) is_exists true ∷ []), modified mp db r ids names)

  -- modifyCustomRolePermissionsQuery
  unfoldable pub modify_custom_role_permissions_query :
      Pgrbac.ModifyCustomRolePermissions → TypedQuery Db ℕ
  unfolding find contains_func resolve_permissions held_ids missing_ids ids_named scan_modify where'
      contains
  modify_custom_role_permissions_query mp = record {
    statement = λ db.
        modify_target mp db (contains_func db.custom_roles (owned_role mp.org_id mp.external_id))
          (find db.custom_roles
            (λ r. owned_role mp.org_id mp.external_id r && nat_beq r.etag mp.etag))
          (resolve_permissions pg db (mp.add_permission_names ++ mp.remove_permission_names));
    expect = expect_one;
  }
