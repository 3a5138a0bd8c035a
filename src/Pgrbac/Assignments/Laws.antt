-- ===== src/Pgrbac/Assignments/Laws.antt =====
-- Assigning a role and taking it away again.
use mathlib.Core.Path.{subst}
use theapp.Prelude.{
  ℕ, ◌≡◌, refl, sym, ap, ◌∙◌, true, false, ◌&&◌, Option, none, some, [], ◌∷◌, ◌++◌, nat_beq,
  nat_beq_iff, arith,
}
use theapp.Slices.{contains_func}
use theapp.Errors.{ok}
use theapp.Session.{Uuid}
use theapp.Pgrbac.Db.{Db, UserRow, ProjectRow, CustomRoleRow, ProjectAssignmentRow, find, and_then}
use theapp.Pgrbac.Db.Laws.{find-narrow, find-passes, contains_func-narrow, where'-inserted}
use theapp.Pgrbac.Roles.{owned_role}
use theapp.Pgrbac.Queries.{user_of, project_of, role_of, is_member, member_of}
use theapp.Pgrbac.Assignments.{
  assign_project, project_assignment, same_project_assignment, assign_custom_role_to_project_query,
  unassign_custom_role_from_project_query, unassign_in, unassign_project,
}
use theapp.Pgrbac.Store.{assign_custom_role_to_project, unassign_custom_role_from_project}
use theapp.Pgrbac.Store.Laws.{sink-ok, sink-run}

-- What an assignment in a project found and wrote.
pub record ProjectAssigned (w w' : Db) (user_id role_id : Uuid) (project_id : ℕ) : Type 0 where
  pub user : UserRow
  pub role : CustomRoleRow
  pub project : ProjectRow
  pub user_found : user_of w user_id ≡ some user
  pub role_found : role_of w role_id ≡ some role
  pub project_found : project_of w project_id ≡ some project
  pub same_org : nat_beq role.org_id project.org_id ≡ true
  pub member : is_member w user.id project.org_id ≡ true
  pub fresh :
      contains_func w.project_role_assignments
        (same_project_assignment (project_assignment user project role))
      ≡ false
  pub written : w' ≡ record w {
    project_role_assignments =
        w.project_role_assignments ++ project_assignment user project role ∷ [];
  }

assign_project-ok :
    (w : Db) (user : Option UserRow) (role : Option CustomRoleRow) (project : Option ProjectRow)
    {id : ℕ} {w' : Db}
    → assign_project w user role project ≡ (ok (ok id ∷ []), w')
    → (u : UserRow) × (r : CustomRoleRow) × (p : ProjectRow) × (user ≡ some u)
      × (role ≡ some r)
      × (project ≡ some p)
      × (nat_beq r.org_id p.org_id ≡ true)
      × (is_member w u.id p.org_id ≡ true)
      × (contains_func w.project_role_assignments
            (same_project_assignment (project_assignment u p r))
          ≡ false)
      × (w' ≡ record w {
        project_role_assignments = w.project_role_assignments ++ project_assignment u p r ∷ [];
      })
assign_project-ok w (some u) (some r) (some p) h =
    (u, r, p, refl, refl, refl, ground arith, ground arith, ground arith, ground arith)
assign_project-ok w none r p h = ground arith
assign_project-ok w (some u) none p h = ground arith
assign_project-ok w (some u) (some r) none h = ground arith

pub assign_custom_role_to_project-ok :
    (user_id role_id : Uuid) (project_id : ℕ) (w w' : Db)
    → assign_custom_role_to_project user_id role_id project_id w ≡ (ok tt, w')
    → ProjectAssigned w w' user_id role_id project_id
unfolding assign_custom_role_to_project assign_custom_role_to_project_query
assign_custom_role_to_project-ok user_id role_id project_id w w' h =
    let (id, e) =
      sink-ok "assign custom role to project"
        (assign_custom_role_to_project_query user_id role_id project_id) w h in
    let (u, r, p, fu, fr, fp, s, m, f, k) = assign_project-ok w _ _ _ e in
    record {
      user = u;
      role = r;
      project = p;
      user_found = fu;
      role_found = fr;
      project_found = fp;
      same_org = s;
      member = m;
      fresh = f;
      written = k;
    }

member_of-found :
    (w : Db) (user_id : Uuid) (org_id : ℕ) (u : UserRow)
    → user_of w user_id ≡ some u
    → is_member w u.id org_id ≡ true
    → member_of w user_id org_id ≡ some u
unfolding member_of and_then find
member_of-found w user_id org_id u found m = ground arith

-- What an unassignment in a project does to a table that ends with the assignment.
unassign_inserted :
    (w : Db) (project_id : ℕ) (u : UserRow) (p : ProjectRow) (r : CustomRoleRow)
    → p.id ≡ project_id
    → contains_func w.project_role_assignments (same_project_assignment (project_assignment u p r))
      ≡ false
    → let w1 = record w {
      project_role_assignments = w.project_role_assignments ++ project_assignment u p r ∷ [];
    } in
      unassign_project w1 project_id (some u) (some r) ≡ (ok (ok r.id ∷ []), w)
unassign_inserted w project_id u p r same fresh =
    let target = λ (a : ProjectAssignmentRow).
      nat_beq a.user_id u.id && nat_beq a.role_id r.id && nat_beq a.project_id project_id in
    let a = project_assignment u p r in
    let none_yet =
      contains_func-narrow w.project_role_assignments (same_project_assignment a) target fresh
        (λ b t. ground (arith, nat_beq_iff b.user_id u.id, nat_beq_iff u.id b.user_id)) in
    let (one, rest) = where'-inserted w.project_role_assignments target a none_yet (ground arith) in
    cc (one, rest)

-- A role that was assigned in a project can be taken away again, by the same ids, and the tables of
-- users, projects, roles, permissions and assignments are then as they were before. What the audit
-- triggers log of the two statements stays, and is no part of these tables.
pub project_assignment_roundtrip :
    (user_id role_id : Uuid) (project_id : ℕ) (w w' : Db)
    → assign_custom_role_to_project user_id role_id project_id w ≡ (ok tt, w')
    → unassign_custom_role_from_project user_id role_id project_id w' ≡ (ok tt, w)
unfolding unassign_custom_role_from_project unassign_custom_role_from_project_query project_of
    role_of
project_assignment_roundtrip user_id role_id project_id w w' h =
    let d = assign_custom_role_to_project-ok user_id role_id project_id w w' h in
    let w1 : Db = record w {
      project_role_assignments =
          w.project_role_assignments ++ project_assignment d.user d.project d.role ∷ [];
    } in
    let id : d.project.id ≡ project_id =
      (nat_beq_iff _ _).0 (find-passes w.projects (λ p. nat_beq p.id project_id) d.project_found) in
    let named = find-passes w.custom_roles (λ r. nat_beq r.external_id role_id) d.role_found in
    let owner =
      find-narrow w.custom_roles (λ r. nat_beq r.external_id role_id)
        (owned_role d.project.org_id role_id) d.role_found (ground (arith, named, d.same_org))
        (λ r t. ground arith) in
    let member = member_of-found w1 user_id d.project.org_id d.user d.user_found d.member in
    let back = unassign_inserted w project_id d.user d.project d.role id d.fresh in
    let run : unassign_in w1 user_id role_id project_id (project_of w1 project_id)
        ≡ (ok (ok d.role.id ∷ []), w) =
      ap (unassign_in w1 user_id role_id project_id) d.project_found
      ∙ ap
          (λ u.
            unassign_project w1 project_id u
              (find w1.custom_roles (owned_role d.project.org_id role_id)))
          member
      ∙ ap (unassign_project w1 project_id (some d.user)) owner
      ∙ back in
    subst (λ v. unassign_custom_role_from_project user_id role_id project_id v ≡ (ok tt, w))
      (sym d.written)
      (sink-run "unassign custom role from project"
        (λ db. unassign_in db user_id role_id project_id (project_of db project_id)) w1 run)
