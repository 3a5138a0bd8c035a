-- ===== src/Rbac/Grants.antt =====
-- Nobody hands out, or takes away, authority that they do not hold: the methods that assign and
-- unassign custom roles.
pub mod Request
pub mod Perms
pub mod Changes
pub mod Edits
pub mod Owners
pub mod System
use theapp.Prelude.{
  ℕ, ◌≤◌, ◌≡◌, refl, ap, ◌∙◌, Bool, true, Option, none, some, contains, string_comparable, arith,
  leb, inl, inr,
}
use theapp.Errors.{Error, ok, err, wrapped}
use theapp.Action.{Action, ◌>>=◌, ◌on_error◌}
use theapp.Action.Laws.{
  bind-ok, on_error-ok, step-ok, or_panic-ok, guard-ok, session-ok, project-ok,
}
use theapp.Permission.{
  Permission, AssignmentScope, rank, permission_assignment_scope, minimum_assignment_scope,
  is_permission_superset,
}
use theapp.Permission.Scopes.{is_permission_superset_iff, minimum_assignment_scope_least}
use theapp.Session.{Uuid, AuthSession, AuthProject}
use theapp.Pgrbac
use theapp.Transactor.{Transactor, IsAtomic}
use theapp.Rbac.Storer.{RoleStorer}
use theapp.Rbac.Grants.Request.{Selected}
use theapp.Rbac.Conv.{permissions_from_pg}
use theapp.Rbac.Assign.{
  assign_to_project_body, assign_custom_role_to_project, assign_to_org_body,
  assign_custom_role_to_org, unassign_from_org_body, unassign_custom_role_from_org,
}

-- What held when a role was granted in a project.
pub record ProjectGrant {W : Type 0} (st : RoleStorer W) (actor target role_id : Uuid)
    (project_id : ℕ) (w w' : W) : Type 0 where
  pub perms : Pgrbac.ProjectPermissions
  pub role : Pgrbac.CustomRole
  pub at_perms : W
  pub at_lock : W
  pub at_role : W
  pub perms_read : st.project_permissions actor project_id w ≡ (ok perms, at_perms)
  pub locked : st.lock_custom_role role_id at_perms ≡ (ok tt, at_lock)
  pub role_read : st.custom_role_by_external_id perms.org_id role_id at_lock ≡ (ok role, at_role)
  pub held :
      (p : Permission)
      → contains (permissions_from_pg role.permission_names) p ≡ true
      → (contains (permissions_from_pg perms.permission_names) p ≡ true)
        × (permission_assignment_scope p ≡ some AssignmentScope.project)
  pub stored : st.assign_custom_role_to_project target role_id project_id at_role ≡ (ok tt, w')

scope_of_bounds :
    (s u : AssignmentScope)
    → leb (rank u) (rank AssignmentScope.project) ≡ true
    → rank s ≤ rank u
    → s ≡ AssignmentScope.project
scope_of_bounds s u h k = ground arith

module _ {W : Type 0} (st : RoleStorer W) where
  assign_to_project_body-ok :
      (actor target role_id : Uuid) (project_id : ℕ) (w w' : W)
      → assign_to_project_body st actor project_id target role_id w ≡ (ok tt, w')
      → ProjectGrant st actor target role_id project_id w w'
  unfolding assign_to_project_body
  assign_to_project_body-ok actor target role_id project_id w w' h =
      let (perms, w1, e1, h1) = step-ok _ _ _ w h in
      let (_, w2, e2, h2) = step-ok _ _ _ w1 h1 in
      let (role, w3, e3, h3) = step-ok _ _ _ w2 h2 in
      let (scope, e4, h4) = or_panic-ok _ _ w3 h3 in
      let (e5, h5) = guard-ok _ _ _ w3 h4 in
      let (e6, h6) = guard-ok _ _ _ w3 h5 in
      record {
        perms = perms;
        role = role;
        at_perms = w1;
        at_lock = w2;
        at_role = w3;
        perms_read = e1;
        locked = e2;
        role_read = e3;
        held = λ p m.
            let (s, f, below) = (minimum_assignment_scope_least _ scope e4).0.at_member p m in
            (
              (is_permission_superset_iff _ _).0 e6 p m,
              f ∙ ap some (scope_of_bounds s scope e5 below),
            );
        stored = on_error-ok _ _ w3 h6;
      }

-- What held when the actor, with the permissions `perms`, changed who holds the role.
pub record OrgGrant {W : Type 0} (st : RoleStorer W) (actor role_id : Uuid) (project_id : ℕ)
    (store : ℕ → Action W Unit) (w w' : W) : Type 0 where
  pub perms : Pgrbac.OrgPermissions
  pub role : Pgrbac.CustomRole
  pub at_perms : W
  pub at_role : W
  pub perms_read : st.org_permissions_by_project_id actor project_id w ≡ (ok perms, at_perms)
  pub role_read : st.custom_role_by_external_id perms.org_id role_id at_perms ≡ (ok role, at_role)
  pub held :
      (p : Permission)
      → contains (permissions_from_pg role.permission_names) p ≡ true
      → contains (permissions_from_pg perms.permission_names) p ≡ true
  pub stored : store perms.org_id at_role ≡ (ok tt, w')

module _ {W : Type 0} (st : RoleStorer W) where
  assign_to_org_body-ok :
      (actor target role_id : Uuid) (project_id : ℕ) (w w' : W)
      → assign_to_org_body st actor project_id target role_id w ≡ (ok tt, w')
      → OrgGrant st actor role_id project_id (st.assign_custom_role_to_org target role_id) w w'
  unfolding assign_to_org_body
  assign_to_org_body-ok actor target role_id project_id w w' h =
      let (perms, w1, e1, h1) = step-ok _ _ _ w h in
      let (role, w2, e2, h2) = step-ok _ _ _ w1 h1 in
      let (e3, h3) = guard-ok _ _ _ w2 h2 in
      record {
        perms = perms;
        role = role;
        at_perms = w1;
        at_role = w2;
        perms_read = e1;
        role_read = e2;
        held = (is_permission_superset_iff _ _).0 e3;
        stored = on_error-ok _ _ w2 h3;
      }

  unassign_from_org_body-ok :
      (actor target role_id : Uuid) (project_id : ℕ) (w w' : W)
      → unassign_from_org_body st actor project_id target role_id w ≡ (ok tt, w')
      → OrgGrant st actor role_id project_id (st.unassign_custom_role_from_org target role_id) w w'
  unfolding unassign_from_org_body
  unassign_from_org_body-ok actor target role_id project_id w w' h =
      let (perms, w1, e1, h1) = step-ok _ _ _ w h in
      let (role, w2, e2, h2) = step-ok _ _ _ w1 h1 in
      let (e3, h3) = guard-ok _ _ _ w2 h2 in
      record {
        perms = perms;
        role = role;
        at_perms = w1;
        at_role = w2;
        perms_read = e1;
        role_read = e2;
        held = (is_permission_superset_iff _ _).0 e3;
        stored = on_error-ok _ _ w2 h3;
      }

module _ {W : Type 0} (st : RoleStorer W) (tr : Transactor W) (atomic : IsAtomic tr) where
  -- A role that was granted in a project was read after its lock was taken, every permission of it
  -- may be assigned at project scope, and the caller holds each of them in that project; what the
  -- method stored is that one assignment.
  pub assign_custom_role_to_project-ProjectGrant :
      (ctx : Option AuthSession) (target role_id : Uuid) (w w' : W)
      → assign_custom_role_to_project st tr ctx target role_id w ≡ (ok tt, w')
      → (s : Selected ctx) × ProjectGrant st s.sess.user.user_id target role_id s.selected.id w w'
  unfolding assign_custom_role_to_project
  assign_custom_role_to_project-ProjectGrant ctx target role_id w w' h =
      let (sess, e, h1) = session-ok ctx _ w h in
      let (selected, f, h2) = project-ok _ _ w h1 in
      let body = atomic.returns Unit _ w w' tt (on_error-ok _ _ w h2) in
      (
        record { sess = sess; selected = selected; has_session = e; has_project = f },
        assign_to_project_body-ok st _ target role_id _ w w' body,
      )

  -- A role that was granted across an organization belongs to the organization of the selected
  -- project, and the caller holds each of its permissions at organization scope.
  pub assign_custom_role_to_org-OrgGrant :
      (ctx : Option AuthSession) (target role_id : Uuid) (w w' : W)
      → assign_custom_role_to_org st tr ctx target role_id w ≡ (ok tt, w')
      → (s : Selected ctx) × OrgGrant st s.sess.user.user_id role_id s.selected.id
          (st.assign_custom_role_to_org target role_id)
          w
          w'
  unfolding assign_custom_role_to_org
  assign_custom_role_to_org-OrgGrant ctx target role_id w w' h =
      let (sess, e, h1) = session-ok ctx _ w h in
      let (selected, f, h2) = project-ok _ _ w h1 in
      let body = atomic.returns Unit _ w w' tt (on_error-ok _ _ w h2) in
      (
        record { sess = sess; selected = selected; has_session = e; has_project = f },
        assign_to_org_body-ok st _ target role_id _ w w' body,
      )

  -- A role that was taken away across an organization belongs to the organization of the selected
  -- project, and the caller holds each of its permissions at organization scope.
  pub unassign_custom_role_from_org-OrgGrant :
      (ctx : Option AuthSession) (target role_id : Uuid) (w w' : W)
      → unassign_custom_role_from_org st tr ctx target role_id w ≡ (ok tt, w')
      → (s : Selected ctx) × OrgGrant st s.sess.user.user_id role_id s.selected.id
          (st.unassign_custom_role_from_org target role_id)
          w
          w'
  unfolding unassign_custom_role_from_org
  unassign_custom_role_from_org-OrgGrant ctx target role_id w w' h =
      let (sess, e, h1) = session-ok ctx _ w h in
      let (selected, f, h2) = project-ok _ _ w h1 in
      let body = atomic.returns Unit _ w w' tt (on_error-ok _ _ w h2) in
      (
        record { sess = sess; selected = selected; has_session = e; has_project = f },
        unassign_from_org_body-ok st _ target role_id _ w w' body,
      )
