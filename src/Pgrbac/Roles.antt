-- ===== src/Pgrbac/Roles.antt =====
-- backend/internal/core/pgstores/pgrbac/query_custom_role.go: the queries that change the definition of
-- a custom role, as what their statements do to the tables.
use theapp.Prelude.{
  ℕ, ◌+◌, String, Bool, true, false, not, ◌&&◌, ◌||◌, Option, none, some, List, [], ◌∷◌, ◌++◌, map,
  nat_beq, ◌==◌, string_comparable, nat_comparable, contains, if◌then◌else◌,
}
use theapp.Slices.{contains_func}
use theapp.Errors.{Error, Outcome, ok, err, sentinel, pg_error, no_rows, pg_etag_mismatch}
use theapp.Session.{Uuid}
use theapp.Pgdb.{TypedQuery, expect_one, unique_violation, check_violation}
use theapp.Pgrbac
use theapp.Pgrbac.Db.{Db, Postgres, CustomRoleRow, RolePermissionRow, where', find}
use theapp.Pgrbac.Schema.{custom_role_permission_names, resolve_permissions}

-- WHERE org_id = @org_id AND external_id = @role_id
abbrev pub owned_role : ℕ → Uuid → CustomRoleRow → Bool
owned_role org_id role_id r = nat_beq r.org_id org_id && nat_beq r.external_id role_id

abbrev is_admin_key : Option String → Bool
is_admin_key none = true
is_admin_key (some key) = key == "organization_admin"

abbrev same_key : Option String → Option String → Bool
same_key (some a) (some b) = a == b
same_key _ _ = false

abbrev pub role_permission : ℕ → ℕ → RolePermissionRow
role_permission role_id permission_id = record { role_id = role_id; permission_id = permission_id }

-- The database with a new role and its permissions.
abbrev pub with_role : Db → CustomRoleRow → List ℕ → Db
with_role db r ids = record db {
  custom_roles = db.custom_roles ++ (r ∷ []);
  custom_role_permissions = db.custom_role_permissions ++ map (role_permission r.id) ids;
  next_role_id = db.next_role_id + 1;
  draws = db.draws + 2;
}

abbrev pub created_row : CustomRoleRow → List String → Pgrbac.CustomRole
created_row r names = record {
  id = r.id;
  external_id = r.external_id;
  name = r.name;
  managed_key = r.managed_key;
  permission_names = names;
  created_at = r.created_at;
  updated_at = r.updated_at;
  etag = r.etag;
}

abbrev pub replaced : CustomRoleRow → CustomRoleRow → CustomRoleRow
replaced new r = if nat_beq r.id new.id then new else r

-- The database with a new version of one role.
abbrev pub with_version : Db → CustomRoleRow → Db
with_version db new = record db {
  custom_roles = map (replaced new) db.custom_roles;
  draws = db.draws + 1;
}

abbrev pub others : Db → CustomRoleRow → List CustomRoleRow
others db r = where' db.custom_roles (λ o. not (nat_beq o.id r.id))

module _ (pg : Postgres) where
  -- The check constraints of rbac.custom_roles.
  unfoldable pub is_checked : CustomRoleRow → Bool
  is_checked r = not (r.name == "") && r.name == pg.btrim r.name && is_admin_key r.managed_key

  -- The unique constraints and indexes of rbac.custom_roles.
  unfoldable pub clashes : CustomRoleRow → CustomRoleRow → Bool
  clashes new r =
      nat_beq r.id new.id
      || nat_beq r.external_id new.external_id
      || nat_beq r.etag new.etag
      || (nat_beq r.org_id new.org_id
          && (pg.lower r.name == pg.lower new.name || same_key r.managed_key new.managed_key))

  -- The constraint that a new version of a row breaks beside the others.
  unfoldable pub violation : List CustomRoleRow → CustomRoleRow → Option Error
  unfolding contains_func
  violation others new =
      if not (is_checked new)
      then some (pg_error check_violation)
      else if contains_func others (clashes new)
      then some (pg_error unique_violation)
      else none

  abbrev pub custom_role_row : Db → CustomRoleRow → Pgrbac.CustomRole
  custom_role_row db r = record {
    id = r.id;
    external_id = r.external_id;
    name = r.name;
    managed_key = r.managed_key;
    permission_names = custom_role_permission_names pg db r.id;
    created_at = r.created_at;
    updated_at = r.updated_at;
    etag = r.etag;
  }

  abbrev pub new_role : Db → Pgrbac.CreateCustomRole → Option String → CustomRoleRow
  new_role db cr managed_key = record {
    id = db.next_role_id;
    external_id = pg.gen_random_uuid db.draws;
    name = cr.name;
    org_id = cr.org_id;
    managed_key = managed_key;
    created_at = pg.now db;
    updated_at = none;
    etag = pg.gen_random_uuid (db.draws + 1);
  }

  abbrev pub inserted :
      Db
      → CustomRoleRow
      → List ℕ
      → List String
      → Option Error
      → Outcome (List (Outcome Pgrbac.CustomRole)) × Db
  inserted db r ids names (some e) = (err e, db)
  inserted db r ids names none = (ok (ok (created_row r names) ∷ []), with_role db r ids)

  abbrev pub insert_role :
      Pgrbac.CreateCustomRole
      → Option String
      → Db
      → Option (List ℕ × List String)
      → Outcome (List (Outcome Pgrbac.CustomRole)) × Db
  insert_role cr managed_key db none = (ok [], db)
  insert_role cr managed_key db (some (ids, names)) =
      let r = new_role db cr managed_key in
      if contains db.organizations cr.org_id
      then inserted db r ids names (violation db.custom_roles r)
      else (ok [], db)

  -- createCustomRoleQuery
  unfoldable pub create_custom_role_query :
      Pgrbac.CreateCustomRole → Option String → TypedQuery Db Pgrbac.CustomRole
  unfolding violation resolve_permissions contains
  create_custom_role_query cr managed_key = record {
    statement = λ db. insert_role cr managed_key db (resolve_permissions pg db cr.permission_names);
    expect = expect_one;
  }

  -- Scan of updateCustomRoleQuery.
  unfoldable pub scan_update : ℕ → Bool → Bool → Outcome ℕ
  scan_update id is_updated is_etag_matched =
      if not is_etag_matched
      then err (sentinel pg_etag_mismatch)
      else if not is_updated
      then err (sentinel no_rows)
      else ok id

  abbrev pub updated_role : Db → Pgrbac.UpdateCustomRole → CustomRoleRow → CustomRoleRow
  updated_role db ur r = record r {
    name = if ur.fields.name then ur.name else r.name;
    updated_at = some (pg.now db);
    etag = pg.gen_random_uuid db.draws;
  }

  abbrev pub written : Db → CustomRoleRow → Option Error → Outcome (List (Outcome ℕ)) × Db
  written db new (some e) = (err e, db)
  written db new none = (ok (scan_update new.id true true ∷ []), with_version db new)

  -- Whether the complete set of permissions is known, where it is to be replaced.
  unfoldable pub is_resolved : Db → Pgrbac.UpdateCustomRole → Bool
  unfolding resolve_permissions
  is_resolved db ur =
      if ur.fields.permission_names
      then elim (resolve_permissions pg db ur.permission_names) [ none ↦ false | some _ ↦ true ]
      else true

  abbrev pub update_owned :
      Pgrbac.UpdateCustomRole → Db → Option CustomRoleRow → Outcome (List (Outcome ℕ)) × Db
  update_owned ur db none = (ok [], db)
  update_owned ur db (some r) =
      let is_etag_matched = nat_beq r.etag ur.etag in
      let new = updated_role db ur r in
      if is_etag_matched && is_resolved db ur
      then written db new (violation (others db r) new)
      else (ok (scan_update r.id false is_etag_matched ∷ []), db)

  -- updateCustomRoleQuery
  unfoldable pub update_custom_role_query : Pgrbac.UpdateCustomRole → TypedQuery Db ℕ
  unfolding find where' is_resolved violation scan_update
  update_custom_role_query ur = record {
    statement =
        λ db. update_owned ur db (find db.custom_roles (owned_role ur.org_id ur.external_id));
    expect = expect_one;
  }
