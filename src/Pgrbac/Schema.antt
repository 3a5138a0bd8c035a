-- ===== src/Pgrbac/Schema.antt =====
-- backend/internal/data/pgschema/schema.sql: the functions of the schema rbac, and the aggregates over
-- permissions that the queries of the store share.
pub mod Laws
use theapp.Prelude.{
  ℕ, String, ◌&&◌, Option, none, some, List, [], ◌∷◌, ◌++◌, map, nat_beq, ◌==◌, string_comparable,
  nat_comparable,
}
use theapp.Set.{from_slice, values}
use theapp.Pgrbac.Db.{Db, Postgres, PermissionRow, RolePermissionRow, where', find, join}

-- The permission ids of a role, in one of the two tables of role permissions.
unfoldable pub ids_of_role : List RolePermissionRow → ℕ → List ℕ
unfolding where'
ids_of_role table role_id =
    map (λ (rp : RolePermissionRow). rp.permission_id)
      (where' table (λ rp. nat_beq rp.role_id role_id))

-- SELECT DISTINCT, and the UNION of two selections.
unfoldable pub distinct : List ℕ → List ℕ
unfolding from_slice values
distinct ids = values (from_slice ids)

-- JOIN rbac.permissions AS p ON p.id = …: the names under some permission ids.
unfoldable pub names_under : Db → List ℕ → List String
unfolding join where'
names_under db ids =
    join ids
      (λ i. map (λ (p : PermissionRow). p.name) (where' db.permissions (λ p. nat_beq p.id i)))

-- rbac.system_permission_ids
unfoldable pub system_permission_ids : Db → ℕ → List ℕ
unfolding distinct join where' ids_of_role
system_permission_ids db user_id = distinct (
    join (where' db.system_role_assignments (λ a. nat_beq a.user_id user_id))
      (λ a. ids_of_role db.system_role_permissions a.role_id))

-- rbac.org_permission_ids
unfoldable pub org_permission_ids : Db → ℕ → ℕ → List ℕ
unfolding distinct join where' ids_of_role system_permission_ids
org_permission_ids db user_id org_id = distinct (
    join
      (where' db.org_role_assignments (λ a. nat_beq a.user_id user_id && nat_beq a.org_id org_id))
      (λ a. ids_of_role db.custom_role_permissions a.role_id)
    ++ system_permission_ids db user_id)

-- rbac.project_permission_ids
unfoldable pub project_permission_ids : Db → ℕ → ℕ → List ℕ
unfolding distinct join where' ids_of_role org_permission_ids
project_permission_ids db user_id project_id = distinct (
    join
      (where' db.project_role_assignments
        (λ a. nat_beq a.user_id user_id && nat_beq a.project_id project_id))
      (λ a. ids_of_role db.custom_role_permissions a.role_id)
    ++ join (where' db.projects (λ p. nat_beq p.id project_id))
        (λ p. org_permission_ids db user_id p.org_id))

-- The id under a permission name, which is unique.
unfoldable pub permission_id : Db → String → Option ℕ
unfolding find
permission_id db name = elim (find db.permissions (λ p. p.name == name)) [
  | none ↦ none
  | some p ↦ some p.id
]

abbrev prepend : Option ℕ → Option (List ℕ) → Option (List ℕ)
prepend (some i) (some is) = some (i ∷ is)
prepend _ _ = none

-- The id of each name, or nothing where a name is unknown.
unfoldable pub ids_of_names : Db → List String → Option (List ℕ)
unfolding permission_id
ids_of_names db [] = some []
ids_of_names db (name ∷ names) = prepend (permission_id db name) (ids_of_names db names)

module _ (pg : Postgres) where
  -- array_agg(p.name ORDER BY p.name)
  unfoldable pub sorted_names : List String → List String
  sorted_names names = pg.order_by String (λ name. name) (λ _. 0) names

  -- COALESCE(array_agg(p.name ORDER BY p.name) FILTER (…), '{}'), over the permissions of a role.
  unfoldable pub custom_role_permission_names : Db → ℕ → List String
  unfolding sorted_names names_under ids_of_role
  custom_role_permission_names db role_id =
      sorted_names (names_under db (ids_of_role db.custom_role_permissions role_id))

  unfoldable pub system_role_permission_names : Db → ℕ → List String
  unfolding sorted_names names_under ids_of_role
  system_role_permission_names db role_id =
      sorted_names (names_under db (ids_of_role db.system_role_permissions role_id))

  -- rbac.resolve_permissions: the distinct names in their order with the ids, or no row where a name is
  -- unknown.
  unfoldable pub resolve_permissions : Db → List String → Option (List ℕ × List String)
  unfolding from_slice values sorted_names ids_of_names
  resolve_permissions db requested =
      let names = sorted_names (values (from_slice requested)) in
      elim (ids_of_names db names) [ none ↦ none | some ids ↦ some (ids, names) ]
