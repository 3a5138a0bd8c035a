-- ===== src/Pgrbac/Assignments.antt =====
-- backend/internal/core/pgstores/pgrbac/query_custom_role.go: the queries that assign custom roles and
-- take them away.
pub mod Laws
use theapp.Prelude.{
  ℕ, Bool, not, ◌&&◌, Option, none, some, List, [], ◌∷◌, ◌++◌, map, nat_beq, if◌then◌else◌,
}
use theapp.Slices.{contains_func}
use theapp.Errors.{Outcome, ok, err, pg_error}
use theapp.Session.{Uuid}
use theapp.Pgdb.{TypedQuery, expect_one, unique_violation}
use theapp.Pgrbac.Db.{
  Db, UserRow, ProjectRow, CustomRoleRow, ProjectAssignmentRow, OrgAssignmentRow, where', find,
}
use theapp.Pgrbac.Roles.{owned_role}
use theapp.Pgrbac.Queries.{user_of, project_of, role_of, is_member, member_of}

-- A primary key that is a whole row.
abbrev pub same_project_assignment : ProjectAssignmentRow → ProjectAssignmentRow → Bool
same_project_assignment a b =
    nat_beq a.user_id b.user_id && nat_beq a.project_id b.project_id && nat_beq a.role_id b.role_id

abbrev pub same_org_assignment : OrgAssignmentRow → OrgAssignmentRow → Bool
same_org_assignment a b =
    nat_beq a.user_id b.user_id && nat_beq a.org_id b.org_id && nat_beq a.role_id b.role_id

abbrev pub project_assignment : UserRow → ProjectRow → CustomRoleRow → ProjectAssignmentRow
project_assignment u p r = record {
  user_id = u.id;
  project_id = p.id;
  role_id = r.id;
  org_id = p.org_id;
}

abbrev pub insert_project_assignment : Db → ProjectAssignmentRow → Outcome (List (Outcome ℕ)) × Db
insert_project_assignment db a =
    if contains_func db.project_role_assignments (same_project_assignment a)
    then (err (pg_error unique_violation), db)
    else (
      ok (ok a.role_id ∷ []),
      record db { project_role_assignments = db.project_role_assignments ++ (a ∷ []) },
    )

abbrev pub assign_project :
    Db → Option UserRow → Option CustomRoleRow → Option ProjectRow → Outcome (List (Outcome ℕ)) × Db
assign_project db (some u) (some r) (some p) =
    if nat_beq r.org_id p.org_id && is_member db u.id p.org_id
    then insert_project_assignment db (project_assignment u p r)
    else (ok [], db)
assign_project db _ _ _ = (ok [], db)

-- assignCustomRoleToProjectQuery
unfoldable pub assign_custom_role_to_project_query : Uuid → Uuid → ℕ → TypedQuery Db ℕ
unfolding user_of role_of project_of is_member contains_func
assign_custom_role_to_project_query user_id role_id project_id = record {
  statement =
      λ db. assign_project db (user_of db user_id) (role_of db role_id) (project_of db project_id);
  expect = expect_one;
}

abbrev pub unassign_project :
    Db → ℕ → Option UserRow → Option CustomRoleRow → Outcome (List (Outcome ℕ)) × Db
unassign_project db project_id (some u) (some r) =
    let is_target = λ (a : ProjectAssignmentRow).
      nat_beq a.user_id u.id && nat_beq a.role_id r.id && nat_beq a.project_id project_id in
    (
      ok (
          map (λ (a : ProjectAssignmentRow). ok a.role_id)
            (where' db.project_role_assignments is_target)),
      record db {
        project_role_assignments = where' db.project_role_assignments (λ a. not (is_target a));
      },
    )
unassign_project db project_id _ _ = (ok [], db)

abbrev pub unassign_in : Db → Uuid → Uuid → ℕ → Option ProjectRow → Outcome (List (Outcome ℕ)) × Db
unassign_in db user_id role_id project_id none = (ok [], db)
unassign_in db user_id role_id project_id (some p) =
    unassign_project db project_id (member_of db user_id p.org_id)
      (find db.custom_roles (owned_role p.org_id role_id))

-- unassignCustomRoleFromProjectQuery
unfoldable pub unassign_custom_role_from_project_query : Uuid → Uuid → ℕ → TypedQuery Db ℕ
unfolding project_of member_of find where'
unassign_custom_role_from_project_query user_id role_id project_id = record {
  statement = λ db. unassign_in db user_id role_id project_id (project_of db project_id);
  expect = expect_one;
}

abbrev insert_org_assignment : Db → OrgAssignmentRow → Outcome (List (Outcome ℕ)) × Db
insert_org_assignment db a =
    if contains_func db.org_role_assignments (same_org_assignment a)
    then (err (pg_error unique_violation), db)
    else (
      ok (ok a.role_id ∷ []),
      record db { org_role_assignments = db.org_role_assignments ++ (a ∷ []) },
    )

abbrev assign_org : Db → ℕ → Option UserRow → Option CustomRoleRow → Outcome (List (Outcome ℕ)) × Db
assign_org db org_id (some u) (some r) =
    insert_org_assignment db (record { user_id = u.id; org_id = org_id; role_id = r.id })
assign_org db org_id _ _ = (ok [], db)

-- assignCustomRoleToOrgQuery
unfoldable pub assign_custom_role_to_org_query : Uuid → Uuid → ℕ → TypedQuery Db ℕ
unfolding member_of find contains_func
assign_custom_role_to_org_query user_id role_id org_id = record {
  statement = λ db.
      assign_org db org_id (member_of db user_id org_id)
        (find db.custom_roles (owned_role org_id role_id));
  expect = expect_one;
}

abbrev unassign_org :
    Db → ℕ → Option UserRow → Option CustomRoleRow → Outcome (List (Outcome ℕ)) × Db
unassign_org db org_id (some u) (some r) =
    let is_target = λ (a : OrgAssignmentRow).
      nat_beq a.user_id u.id && nat_beq a.role_id r.id && nat_beq a.org_id org_id in
    (
      ok (map (λ (a : OrgAssignmentRow). ok a.role_id) (where' db.org_role_assignments is_target)),
      record db { org_role_assignments = where' db.org_role_assignments (λ a. not (is_target a)) },
    )
unassign_org db org_id _ _ = (ok [], db)

-- unassignCustomRoleFromOrgQuery
unfoldable pub unassign_custom_role_from_org_query : Uuid → Uuid → ℕ → TypedQuery Db ℕ
unfolding member_of find where'
unassign_custom_role_from_org_query user_id role_id org_id = record {
  statement = λ db.
      unassign_org db org_id (member_of db user_id org_id)
        (find db.custom_roles (owned_role org_id role_id));
  expect = expect_one;
}
