-- ===== src/Rbac/Grants/Owners.antt =====
-- Who may create or delete a custom role.
use theapp.Prelude.{ℕ, ◌≡◌, ap, sym, ◌∙◌, true, Option, none, some, contains, string_comparable}
use theapp.Errors.{ok}
use theapp.Action.Laws.{
  on_error-ok, step-ok, guard-ok, session-ok, project-ok, check_valid-ok, convert-ok,
}
use theapp.Permission.{Permission}
use theapp.Permission.Scopes.{is_permission_superset_iff}
use theapp.Session.{Uuid, AuthSession}
use theapp.Pgrbac
use theapp.Role
use theapp.Role.{validate_create}
use theapp.Transactor.{Transactor, IsAtomic}
use theapp.Rbac.Storer.{RoleStorer}
use theapp.Rbac.Conv.{permissions_from_pg, custom_role_from_pg}
use theapp.Rbac.Conv.Laws.{permissions_from_pg-same, create_custom_role_to_pg_lem}
use theapp.Rbac.Edit.{create_body, delete_body, create_custom_role, delete_custom_role}
use theapp.Rbac.Grants.Request.{Selected}
use theapp.Rbac.Grants.Changes.{ChangeContext, context-ok, unmanaged_of_test}

-- What held when the actor created a role with the permissions `next`.
pub record Creation {W : Type 0} (st : RoleStorer W) (actor : Uuid) (project_id : ℕ)
    (cr : Role.CreateCustomRole) (w w' : W) (row : Pgrbac.CustomRole) : Type 0 where
  pub perms : Pgrbac.OrgPermissions
  pub at_perms : W
  pub perms_read : st.org_permissions_by_project_id actor project_id w ≡ (ok perms, at_perms)
  pub held :
      (p : Permission) → contains cr.permissions p ≡ true → contains perms.permission_names p ≡ true
  pub stored :
      st.create_custom_role
        (record { org_id = perms.org_id; name = cr.name; permission_names = cr.permissions })
        at_perms
      ≡ (ok row, w')

-- What held when the actor deleted a role.
pub record Deletion {W : Type 0} (st : RoleStorer W) (actor role_id : Uuid) (project_id : ℕ)
    (w w' : W) : Type 0 where
  pub perms : Pgrbac.OrgPermissions
  pub role : Pgrbac.CustomRole
  pub at_role : W
  pub context : ChangeContext st actor role_id project_id w at_role perms role
  pub unmanaged : role.managed_key ≡ none
  pub held :
      (p : Permission)
      → contains (permissions_from_pg role.permission_names) p ≡ true
      → contains (permissions_from_pg perms.permission_names) p ≡ true
  pub stored : st.delete_custom_role perms.org_id role_id at_role ≡ (ok tt, w')

module _ {W : Type 0} (st : RoleStorer W) where
  create_body-ok :
      (actor : Uuid) (project_id : ℕ) (cr : Role.CreateCustomRole) (w w' : W)
      (row : Pgrbac.CustomRole)
      → create_body st actor project_id cr w ≡ (ok row, w')
      → Creation st actor project_id cr w w' row
  unfolding create_body
  create_body-ok actor project_id cr w w' row h =
      let (perms, w1, e1, h1) = step-ok _ _ _ w h in
      let (s, h2) = guard-ok _ _ _ w1 h1 in
      record {
        perms = perms;
        at_perms = w1;
        perms_read = e1;
        held =
            (is_permission_superset_iff perms.permission_names cr.permissions).0
              (rw (permissions_from_pg-same perms.permission_names) at s);
        stored =
            ap (λ x. st.create_custom_role x w1)
              (sym (create_custom_role_to_pg_lem cr perms.org_id))
            ∙ on_error-ok _ _ w1 h2;
      }

  delete_body-ok :
      (actor role_id : Uuid) (project_id : ℕ) (w w' : W)
      → delete_body st actor project_id role_id w ≡ (ok tt, w')
      → Deletion st actor role_id project_id w w'
  unfolding delete_body
  delete_body-ok actor role_id project_id w w' h =
      let ((perms, role), w1, e1, h1) = step-ok _ _ _ w h in
      let (m, h2) = guard-ok _ _ _ w1 h1 in
      let (s, h3) = guard-ok _ _ _ w1 h2 in
      record {
        perms = perms;
        role = role;
        at_role = w1;
        context = context-ok st actor role_id project_id w w1 (perms, role) e1;
        unmanaged = unmanaged_of_test role m;
        held = (is_permission_superset_iff _ _).0 s;
        stored = on_error-ok _ _ w1 h3;
      }

module _ {W : Type 0} (st : RoleStorer W) (tr : Transactor W) (atomic : IsAtomic tr) where
  -- A role that was created is valid, and one transaction created it: it was stored, with the name and
  -- the permissions that were asked for, under the organization whose permissions were read for the
  -- selected project, and its creator holds every one of its permissions there.
  pub creations_are_held :
      (ctx : Option AuthSession) (cr : Role.CreateCustomRole) (w w' : W) (a : Role.CustomRole)
      → create_custom_role st tr ctx cr w ≡ (ok a, w')
      → (s : Selected ctx) × (row : Pgrbac.CustomRole) × (validate_create cr ≡ none)
        × (tr.run_tx Pgrbac.CustomRole (create_body st s.sess.user.user_id s.selected.id cr) w
            ≡ (ok row, w'))
        × Creation st s.sess.user.user_id s.selected.id cr w w' row
        × (custom_role_from_pg row ≡ some a)
  unfolding create_custom_role
  creations_are_held ctx cr w w' a h =
      let (sess, e, h1) = session-ok ctx _ w h in
      let (selected, f, h2) = project-ok _ _ w h1 in
      let (v, h3) = check_valid-ok _ _ w h2 in
      let (row, w1, t, h4) = step-ok _ _ _ w h3 in
      let (c, q) = convert-ok _ w1 h4 in
      let ran = rw q at t in
      let body = atomic.returns Pgrbac.CustomRole _ w w' row ran in
      (
        record { sess = sess; selected = selected; has_session = e; has_project = f },
        row,
        v,
        ran,
        create_body-ok st _ _ cr w w' row body,
        c,
      )

  -- A role that was deleted was locked before it was read, is not managed, and had only permissions
  -- that the caller holds across the organization.
  pub deletions_are_held :
      (ctx : Option AuthSession) (role_id : Uuid) (w w' : W)
      → delete_custom_role st tr ctx role_id w ≡ (ok tt, w')
      → (s : Selected ctx) × Deletion st s.sess.user.user_id role_id s.selected.id w w'
  unfolding delete_custom_role
  deletions_are_held ctx role_id w w' h =
      let (sess, e, h1) = session-ok ctx _ w h in
      let (selected, f, h2) = project-ok _ _ w h1 in
      let body = atomic.returns Unit _ w w' tt (on_error-ok _ _ w h2) in
      (
        record { sess = sess; selected = selected; has_session = e; has_project = f },
        delete_body-ok st _ role_id _ w w' body,
      )
