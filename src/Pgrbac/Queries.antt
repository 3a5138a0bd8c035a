-- ===== src/Pgrbac/Queries.antt =====
-- backend/internal/core/pgstores/pgrbac/query_custom_role.go and query.go: the queries that read custom
-- roles and the permissions of a user.
pub mod Laws
use theapp.Prelude.{
  ℕ, String, Bool, true, ◌&&◌, Option, none, some, List, [], ◌∷◌, ◌++◌, map, length, nat_beq,
}
use theapp.Slices.{contains_func}
use theapp.Errors.{Outcome, ok}
use theapp.Session.{Uuid}
use theapp.Pgdb.{TypedQuery, expect_one, expect_many}
use theapp.Pgrbac
use theapp.Pgrbac.Db.{
  Db, Postgres, UserRow, MembershipRow, ProjectRow, CustomRoleRow, ProjectAssignmentRow,
  OrgAssignmentRow, where', find, join, page, to_list, and_then,
}
use theapp.Pgrbac.Schema.{
  names_under, sorted_names, system_permission_ids, org_permission_ids, project_permission_ids,
  custom_role_permission_names, distinct,
}
use theapp.Pgrbac.Roles.{owned_role, custom_role_row}

-- A statement that only reads, and whose rows Scan accepts.
abbrev pub reads : {A : Type 0} → (Db → List A) → Db → Outcome (List (Outcome A)) × Db
reads f db = (ok (map ok (f db)), db)

-- The user, project and role under their keys, which are unique.
unfoldable pub user_of : Db → Uuid → Option UserRow
unfolding find
user_of db user_id = find db.users (λ u. nat_beq u.external_id user_id)

unfoldable pub project_of : Db → ℕ → Option ProjectRow
unfolding find
project_of db project_id = find db.projects (λ p. nat_beq p.id project_id)

unfoldable pub role_of : Db → Uuid → Option CustomRoleRow
unfolding find
role_of db role_id = find db.custom_roles (λ r. nat_beq r.external_id role_id)

unfoldable pub is_member : Db → ℕ → ℕ → Bool
unfolding contains_func
is_member db user_id org_id =
    contains_func db.memberships (λ m. nat_beq m.user_id user_id && nat_beq m.org_id org_id)

-- The user, where they are a member of the organization.
unfoldable pub member_of : Db → Uuid → ℕ → Option UserRow
unfolding and_then user_of is_member find
member_of db user_id org_id =
    and_then (user_of db user_id) (λ u. find (u ∷ []) (λ v. is_member db v.id org_id))

module _ (pg : Postgres) where
  -- ORDER BY r.name, with the number of the row behind it.
  unfoldable pub by_name : List CustomRoleRow → List CustomRoleRow
  by_name rs = pg.order_by CustomRoleRow (λ r. r.name) (λ r. r.id) rs

  -- ORDER BY r.name alone.
  unfoldable pub by_name_alone : List CustomRoleRow → List CustomRoleRow
  by_name_alone rs = pg.order_by CustomRoleRow (λ r. r.name) (λ _. 0) rs

  -- customRolesQuery
  unfoldable pub custom_roles_query : ℕ → ℕ → ℕ → TypedQuery Db Pgrbac.CustomRole
  unfolding by_name_alone where'
  custom_roles_query org_id page_size page_offset = record {
    statement = reads λ db. map (custom_role_row pg db) (
        page page_size page_offset
          (by_name_alone (where' db.custom_roles (λ r. nat_beq r.org_id org_id))));
    expect = expect_many;
  }

  -- customRoleByExternalIDQuery
  unfoldable pub custom_role_by_external_id_query : ℕ → Uuid → TypedQuery Db Pgrbac.CustomRole
  unfolding find to_list
  custom_role_by_external_id_query org_id role_id = record {
    statement = reads λ db.
        map (custom_role_row pg db) (to_list (find db.custom_roles (owned_role org_id role_id)));
    expect = expect_one;
  }

  -- The roles that a user has in a project, and the roles of a user across an organization.
  unfoldable pub project_roles_of : Db → Uuid → ℕ → List CustomRoleRow
  unfolding join to_list project_of member_of where'
  project_roles_of db user_id project_id = join (to_list (project_of db project_id)) (λ p.
      join (to_list (member_of db user_id p.org_id)) (λ u.
        join
          (where' db.project_role_assignments
            (λ a. nat_beq a.user_id u.id && nat_beq a.project_id p.id))
          (λ a. where' db.custom_roles (λ r. nat_beq r.id a.role_id && nat_beq r.org_id p.org_id))))

  unfoldable pub org_roles_of : Db → Uuid → ℕ → List CustomRoleRow
  unfolding join to_list member_of where'
  org_roles_of db user_id org_id = join (to_list (member_of db user_id org_id)) (λ u.
      join (where' db.org_role_assignments (λ a. nat_beq a.user_id u.id && nat_beq a.org_id org_id))
        (λ a. where' db.custom_roles (λ r. nat_beq r.id a.role_id && nat_beq r.org_id org_id)))

  -- userProjectCustomRolesQuery
  unfoldable pub user_project_custom_roles_query :
      Uuid → ℕ → ℕ → ℕ → TypedQuery Db Pgrbac.CustomRole
  unfolding by_name project_roles_of
  user_project_custom_roles_query user_id project_id page_size page_offset = record {
    statement = reads λ db.
        map (custom_role_row pg db)
          (page page_size page_offset (by_name (project_roles_of db user_id project_id)));
    expect = expect_many;
  }

  -- userOrgCustomRolesQuery
  unfoldable pub user_org_custom_roles_query : Uuid → ℕ → ℕ → ℕ → TypedQuery Db Pgrbac.CustomRole
  unfolding by_name org_roles_of
  user_org_custom_roles_query user_id org_id page_size page_offset = record {
    statement = reads λ db.
        map (custom_role_row pg db)
          (page page_size page_offset (by_name (org_roles_of db user_id org_id)));
    expect = expect_many;
  }

  -- projectPermissionsQuery
  unfoldable pub project_permissions_query : Uuid → ℕ → TypedQuery Db Pgrbac.ProjectPermissions
  unfolding join to_list project_of user_of sorted_names names_under project_permission_ids
  project_permissions_query user_id project_id = record {
    statement = reads λ db. join (to_list (project_of db project_id)) (λ p.
        map
          (λ (u : UserRow). record {
            org_id = p.org_id;
            permission_names =
                sorted_names pg (names_under db (project_permission_ids db u.id p.id));
          })
          (to_list (user_of db user_id)));
    expect = expect_one;
  }

  -- orgPermissionsByProjectIDQuery
  unfoldable pub org_permissions_by_project_id_query :
      Uuid → ℕ → TypedQuery Db Pgrbac.OrgPermissions
  unfolding join to_list project_of user_of sorted_names names_under org_permission_ids
  org_permissions_by_project_id_query user_id project_id = record {
    statement = reads λ db. join (to_list (project_of db project_id)) (λ p.
        map
          (λ (u : UserRow). record {
            org_id = p.org_id;
            permission_names =
                sorted_names pg (names_under db (org_permission_ids db u.id p.org_id));
          })
          (to_list (user_of db user_id)));
    expect = expect_one;
  }

-- customRoleHasProjectAssignmentsQuery
unfoldable pub custom_role_has_project_assignments_query : Uuid → TypedQuery Db Bool
unfolding to_list role_of contains_func
custom_role_has_project_assignments_query role_id = record {
  statement = reads λ db.
      map
        (λ (r : CustomRoleRow).
          contains_func db.project_role_assignments (λ a. nat_beq a.role_id r.id))
        (to_list (role_of db role_id));
  expect = expect_one;
}

-- customRoleCountQuery
unfoldable pub custom_role_count_query : ℕ → TypedQuery Db ℕ
unfolding where'
custom_role_count_query org_id = record {
  statement = reads λ db. length (where' db.custom_roles (λ r. nat_beq r.org_id org_id)) ∷ [];
  expect = expect_one;
}

-- userProjectCustomRoleCountQuery
unfoldable pub user_project_custom_role_count_query : Uuid → ℕ → TypedQuery Db ℕ
unfolding join to_list project_of member_of where'
user_project_custom_role_count_query user_id project_id = record {
  statement = reads λ db. join (to_list (project_of db project_id)) (λ p.
      map
        (λ (u : UserRow). length (
          where' db.project_role_assignments
            (λ a. nat_beq a.user_id u.id && nat_beq a.project_id p.id)))
        (to_list (member_of db user_id p.org_id)));
  expect = expect_one;
}

-- userOrgCustomRoleCountQuery
unfoldable pub user_org_custom_role_count_query : Uuid → ℕ → TypedQuery Db ℕ
unfolding to_list member_of where'
user_org_custom_role_count_query user_id org_id = record {
  statement = reads λ db.
      map
        (λ (u : UserRow).
          length (
            where' db.org_role_assignments
              (λ a. nat_beq a.user_id u.id && nat_beq a.org_id org_id)))
        (to_list (member_of db user_id org_id));
  expect = expect_one;
}
