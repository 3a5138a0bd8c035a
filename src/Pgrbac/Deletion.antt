-- ===== src/Pgrbac/Deletion.antt =====
-- backend/internal/core/pgstores/pgrbac/query_custom_role.go: the queries that delete a custom role and
-- the rows that refer to it.
pub mod Laws
use theapp.Prelude.{
  ℕ, String, Bool, not, ◌||◌, Option, none, some, List, [], ◌∷◌, map, nat_beq, string_comparable,
  nat_comparable, if◌then◌else◌,
}
use theapp.Slices.{contains_func}
use theapp.Errors.{Outcome, ok, err, pg_error}
use theapp.Session.{Uuid}
use theapp.Pgdb.{TypedQuery, expect_one, expect_many}
use theapp.Pgrbac.Db.{
  Db, CustomRoleRow, RolePermissionRow, ProjectAssignmentRow, OrgAssignmentRow, where', find,
}
use theapp.Pgrbac.Schema.{ids_of_role}
use theapp.Pgrbac.Roles.{owned_role}

abbrev foreign_key_violation : String
foreign_key_violation = "23503"

abbrev rows : {A : Type 0} → List A → List (Outcome A)
rows xs = map ok xs

-- A foreign key of another table refers to the role.
unfoldable pub is_referenced : Db → ℕ → Bool
unfolding contains_func
is_referenced db id =
    contains_func db.custom_role_permissions (λ rp. nat_beq rp.role_id id)
    || contains_func db.project_role_assignments (λ a. nat_beq a.role_id id)
    || contains_func db.org_role_assignments (λ a. nat_beq a.role_id id)

abbrev pub delete_owned : Db → Option CustomRoleRow → Outcome (List (Outcome ℕ)) × Db
delete_owned db none = (ok [], db)
delete_owned db (some r) =
    if is_referenced db r.id then (err (pg_error foreign_key_violation), db) else (
      ok (ok r.id ∷ []),
      record db { custom_roles = where' db.custom_roles (λ o. not (nat_beq o.id r.id)) },
    )

-- deleteCustomRoleQuery
unfoldable pub delete_custom_role_query : ℕ → Uuid → TypedQuery Db ℕ
unfolding find is_referenced where'
delete_custom_role_query org_id role_id = record {
  statement = λ db. delete_owned db (find db.custom_roles (owned_role org_id role_id));
  expect = expect_one;
}

-- The rows of permissions without those of one role.
abbrev pub without_role : ℕ → List RolePermissionRow → List RolePermissionRow
without_role role_id table = where' table (λ rp. not (nat_beq rp.role_id role_id))

abbrev pub delete_permissions : Db → Option CustomRoleRow → Outcome (List (Outcome ℕ)) × Db
delete_permissions db none = (ok [], db)
delete_permissions db (some r) = (
  ok (rows (ids_of_role db.custom_role_permissions r.id)),
  record db { custom_role_permissions = without_role r.id db.custom_role_permissions },
)

-- deleteCustomRolePermissionsQuery
unfoldable pub delete_custom_role_permissions_query : ℕ → Uuid → TypedQuery Db ℕ
unfolding find ids_of_role where'
delete_custom_role_permissions_query org_id role_id = record {
  statement = λ db. delete_permissions db (find db.custom_roles (owned_role org_id role_id));
  expect = expect_many;
}

abbrev pub delete_project_assignments : Db → Option CustomRoleRow → Outcome (List (Outcome ℕ)) × Db
delete_project_assignments db none = (ok [], db)
delete_project_assignments db (some r) = (
  ok (
      rows (
        map (λ (a : ProjectAssignmentRow). a.user_id)
          (where' db.project_role_assignments (λ a. nat_beq a.role_id r.id)))),
  record db {
    project_role_assignments =
        where' db.project_role_assignments (λ a. not (nat_beq a.role_id r.id));
  },
)

-- deleteCustomRoleProjectAssignmentsQuery
unfoldable pub delete_custom_role_project_assignments_query : ℕ → Uuid → TypedQuery Db ℕ
unfolding find where'
delete_custom_role_project_assignments_query org_id role_id = record {
  statement =
      λ db. delete_project_assignments db (find db.custom_roles (owned_role org_id role_id));
  expect = expect_many;
}

abbrev pub delete_org_assignments : Db → Option CustomRoleRow → Outcome (List (Outcome ℕ)) × Db
delete_org_assignments db none = (ok [], db)
delete_org_assignments db (some r) = (
  ok (
      rows (
        map (λ (a : OrgAssignmentRow). a.user_id)
          (where' db.org_role_assignments (λ a. nat_beq a.role_id r.id)))),
  record db {
    org_role_assignments = where' db.org_role_assignments (λ a. not (nat_beq a.role_id r.id));
  },
)

-- deleteCustomRoleOrgAssignmentsQuery
unfoldable pub delete_custom_role_org_assignments_query : ℕ → Uuid → TypedQuery Db ℕ
unfolding find where'
delete_custom_role_org_assignments_query org_id role_id = record {
  statement = λ db. delete_org_assignments db (find db.custom_roles (owned_role org_id role_id));
  expect = expect_many;
}
