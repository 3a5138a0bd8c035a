-- ===== src/Pgrbac/System.antt =====
-- backend/internal/core/pgstores/pgrbac/query_system_role.go: system roles and who holds them.
pub mod Laws
use theapp.Prelude.{
  ℕ, String, Bool, true, false, not, ◌&&◌, Option, none, some, List, [], ◌∷◌, ◌++◌, map, length,
  nat_beq, ◌==◌, string_comparable, nat_comparable, if◌then◌else◌,
}
use theapp.Slices.{contains_func}
use theapp.Set.{from_slice, values}
use theapp.Errors.{Outcome, ok, err, pg_error}
use theapp.Session.{Uuid}
use theapp.Pgdb.{TypedQuery, expect_one, expect_many, unique_violation}
use theapp.Pgrbac
use theapp.Pgrbac.Db.{
  Db, Postgres, UserRow, PermissionRow, SystemRoleRow, SystemAssignmentRow, RolePermissionRow,
  where', find, join, page, to_list,
}
use theapp.Pgrbac.Schema.{
  ids_of_role, names_under, sorted_names, distinct, system_permission_ids,
  system_role_permission_names,
}
use theapp.Pgrbac.Queries.{reads, user_of}

-- The system role under a name, which is unique.
unfoldable pub system_role_of : Db → String → Option SystemRoleRow
unfolding find
system_role_of db name = find db.system_roles (λ r. r.name == name)

abbrev pub same_assignment : SystemAssignmentRow → SystemAssignmentRow → Bool
same_assignment a b = nat_beq a.user_id b.user_id && nat_beq a.role_id b.role_id

module _ (pg : Postgres) where
  abbrev system_role_row : Db → SystemRoleRow → Pgrbac.SystemRole
  system_role_row db r = record {
    name = r.name;
    permission_names = system_role_permission_names pg db r.id;
  }

  unfoldable pub by_role_name : List SystemRoleRow → List SystemRoleRow
  by_role_name rs = pg.order_by SystemRoleRow (λ r. r.name) (λ _. 0) rs

  -- systemRolesQuery
  unfoldable pub system_roles_query : ℕ → ℕ → TypedQuery Db Pgrbac.SystemRole
  unfolding by_role_name
  system_roles_query page_size page_offset = record {
    statement =
        reads λ db.
          map (system_role_row db) (page page_size page_offset (by_role_name db.system_roles));
    expect = expect_many;
  }

  -- systemRoleByNameQuery
  unfoldable pub system_role_by_name_query : String → TypedQuery Db Pgrbac.SystemRole
  unfolding to_list system_role_of
  system_role_by_name_query name = record {
    statement = reads λ db. map (system_role_row db) (to_list (system_role_of db name));
    expect = expect_one;
  }

  -- userSystemRolesByExternalIDQuery
  unfoldable pub user_system_roles_by_external_id_query :
      Uuid → ℕ → ℕ → TypedQuery Db Pgrbac.SystemRole
  unfolding by_role_name join to_list user_of where'
  user_system_roles_by_external_id_query user_id page_size page_offset = record {
    statement = reads λ db. map (system_role_row db) (
        page page_size page_offset (
          by_role_name (
            join (to_list (user_of db user_id)) (λ u.
              join (where' db.system_role_assignments (λ a. nat_beq a.user_id u.id))
                (λ a. where' db.system_roles (λ r. nat_beq r.id a.role_id))))));
    expect = expect_many;
  }

  -- systemPermissionNamesQuery
  unfoldable pub system_permission_names_query : Uuid → TypedQuery Db (List String)
  unfolding to_list user_of sorted_names from_slice values names_under system_permission_ids
  system_permission_names_query user_id = record {
    statement = reads λ db.
        map
          (λ (u : UserRow).
            sorted_names pg (values (from_slice (names_under db (system_permission_ids db u.id)))))
          (to_list (user_of db user_id));
    expect = expect_one;
  }

-- systemRoleCountQuery
unfoldable pub system_role_count_query : TypedQuery Db ℕ
system_role_count_query = record {
  statement = reads λ db. length db.system_roles ∷ [];
  expect = expect_one;
}

-- userSystemRoleCountByExternalIDQuery
unfoldable pub user_system_role_count_by_external_id_query : Uuid → TypedQuery Db ℕ
unfolding to_list user_of where'
user_system_role_count_by_external_id_query user_id = record {
  statement = reads λ db.
      map
        (λ (u : UserRow). length (where' db.system_role_assignments (λ a. nat_beq a.user_id u.id)))
        (to_list (user_of db user_id));
  expect = expect_one;
}

-- The assignments but one: WHERE (sra.user_id, sra.role_id) != (…).
unfoldable pub assignments_but : Db → SystemAssignmentRow → List SystemAssignmentRow
unfolding where'
assignments_but db excluded =
    where' db.system_role_assignments (λ a. not (same_assignment a excluded))

-- The permissions that a user has by some assignments: one group of the subquery.
unfoldable pub granted_ids : Db → List SystemAssignmentRow → ℕ → List ℕ
unfolding join where' ids_of_role
granted_ids db assignments user_id =
    join (where' assignments (λ a. nat_beq a.user_id user_id))
      (λ a. ids_of_role db.system_role_permissions a.role_id)

-- HAVING COUNT(DISTINCT rp.permission_id) = (SELECT COUNT(*) FROM rbac.permissions), in a group that
-- has a row.
unfoldable pub is_fully_privileged : Db → List ℕ → Bool
unfolding distinct
is_fully_privileged db [] = false
is_fully_privileged db (i ∷ is) = nat_beq (length (distinct (i ∷ is))) (length db.permissions)

unfoldable pub fully_privileged_user_remains : Db → List SystemAssignmentRow → Bool
unfolding contains_func is_fully_privileged granted_ids
fully_privileged_user_remains db assignments =
    contains_func assignments (λ a. is_fully_privileged db (granted_ids db assignments a.user_id))

-- excluded_assignment
unfoldable pub excluded_assignments : Db → Uuid → String → List SystemAssignmentRow
unfolding join to_list user_of system_role_of where'
excluded_assignments db user_id role_name = join (to_list (user_of db user_id)) (λ u.
    join (to_list (system_role_of db role_name)) (λ r.
      where' db.system_role_assignments (λ a. nat_beq a.user_id u.id && nat_beq a.role_id r.id)))

-- fullyPrivilegedUserRemainsAfterSystemRoleUnassignQuery
unfoldable pub fully_privileged_user_remains_query : Uuid → String → TypedQuery Db Bool
unfolding excluded_assignments assignments_but fully_privileged_user_remains
fully_privileged_user_remains_query user_id role_name = record {
  statement = reads λ db.
      map
        (λ (excluded : SystemAssignmentRow).
          fully_privileged_user_remains db (assignments_but db excluded))
        (excluded_assignments db user_id role_name);
  expect = expect_one;
}

abbrev pub insert_system_assignment : Db → SystemAssignmentRow → Outcome (List (Outcome ℕ)) × Db
insert_system_assignment db a =
    if contains_func db.system_role_assignments (same_assignment a)
    then (err (pg_error unique_violation), db)
    else (
      ok (ok a.role_id ∷ []),
      record db { system_role_assignments = db.system_role_assignments ++ (a ∷ []) },
    )

abbrev pub assign_system :
    Db → Option UserRow → Option SystemRoleRow → Outcome (List (Outcome ℕ)) × Db
assign_system db (some u) (some r) =
    insert_system_assignment db (record { user_id = u.id; role_id = r.id })
assign_system db _ _ = (ok [], db)

-- assignSystemRoleQuery
unfoldable pub assign_system_role_query : Uuid → String → TypedQuery Db ℕ
unfolding user_of system_role_of contains_func
assign_system_role_query user_id role_name = record {
  statement = λ db. assign_system db (user_of db user_id) (system_role_of db role_name);
  expect = expect_one;
}

abbrev pub unassign_system :
    Db → Option UserRow → Option SystemRoleRow → Outcome (List (Outcome ℕ)) × Db
unassign_system db (some u) (some r) =
    let target : SystemAssignmentRow = record { user_id = u.id; role_id = r.id } in
    (
      ok (
          map (λ (a : SystemAssignmentRow). ok a.role_id)
            (where' db.system_role_assignments (λ a. same_assignment a target))),
      record db { system_role_assignments = assignments_but db target },
    )
unassign_system db _ _ = (ok [], db)

-- unassignSystemRoleQuery
unfoldable pub unassign_system_role_query : Uuid → String → TypedQuery Db ℕ
unfolding user_of system_role_of where' assignments_but
unassign_system_role_query user_id role_name = record {
  statement = λ db. unassign_system db (user_of db user_id) (system_role_of db role_name);
  expect = expect_one;
}
