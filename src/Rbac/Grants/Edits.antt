-- ===== src/Rbac/Grants/Edits.antt =====
-- The methods that change a role: nobody edits authority that they do not hold.
use theapp.Prelude.{
  ◌≡◌, not, ◌&&◌, ◌||◌, List, contains, true, Option, none, some, string_comparable,
}
use theapp.Errors.{ok}
use theapp.Action.Laws.{step-ok, session-ok, project-ok, then-ok, check_valid-ok, convert-ok}
use theapp.Session.{AuthSession}
use theapp.Pgrbac
use theapp.Role
use theapp.Role.{validate_create, validate_update, validate_modify}
use theapp.Transactor.{Transactor, IsAtomic}
use theapp.Rbac.Storer.{RoleStorer}
use theapp.Rbac.Grants.Request.{Selected}
use theapp.Rbac.Conv.{custom_role_from_pg}
use theapp.Rbac.Edit.{
  next_perms, update_body, modify_body, update_custom_role, modify_custom_role_permissions,
}
use theapp.Permission.{Permission}
use theapp.Rbac.Grants.Perms.{contains-next_perms}
use theapp.Rbac.Grants.Changes.{RoleEdit, update_body-ok, modify_body-ok}

module _ {W : Type 0} (st : RoleStorer W) (tr : Transactor W) (atomic : IsAtomic tr) where
  -- An update that selects the permissions and returns a role was asked by a session with a project,
  -- is valid, and ran in one transaction: the role was locked before it was read, it is not managed,
  -- the caller holds, across the organization, every permission that the update adds or takes away,
  -- and permissions broader than a project are only given to a role without assignments in projects.
  -- The store was given what the request asked for, and the answer is the row that it wrote.
  pub updates_are_held :
      (ctx : Option AuthSession) (ur : Role.UpdateCustomRole) (w w' : W) (a : Role.CustomRole)
      → ur.fields.permissions ≡ true
      → update_custom_role st tr ctx ur w ≡ (ok a, w')
      → (s : Selected ctx) × (row : Pgrbac.CustomRole) × (validate_update ur ≡ none)
        × (tr.run_tx Pgrbac.CustomRole (update_body st s.sess.user.user_id s.selected.id ur) w
            ≡ (ok row, w'))
        × RoleEdit st s.sess.user.user_id ur.id s.selected.id
            (λ _. ur.permissions)
            w
            w'
            row
            (λ org_id. st.update_custom_role (record {
              org_id = org_id;
              external_id = ur.id;
              etag = ur.etag;
              fields = record { name = ur.fields.name; permission_names = ur.fields.permissions };
              name = ur.name;
              permission_names = ur.permissions;
            }))
        × (custom_role_from_pg row ≡ some a)
  unfolding update_custom_role
  updates_are_held ctx ur w w' a p h =
      let (sess, e, h1) = session-ok ctx _ w h in
      let (selected, f, h2) = project-ok _ _ w h1 in
      let (v, h3) = check_valid-ok _ _ w h2 in
      let (row, w1, t, h4) = step-ok _ _ _ w (then-ok ur.fields.permissions _ _ w p h3) in
      let (c, q) = convert-ok _ w1 h4 in
      let ran = rw q at t in
      let body = atomic.returns Pgrbac.CustomRole _ w w' row ran in
      (
        record { sess = sess; selected = selected; has_session = e; has_project = f },
        row,
        v,
        ran,
        update_body-ok st _ _ ur w w' row body,
        c,
      )

  -- A modification that returns a role was valid and was checked as an update is: the lock comes
  -- before the read, the role is not managed, the caller holds every permission whose membership the
  -- modification changes, and the scope that results is allowed. A permission is in the result if it
  -- is not removed and was added or held. All of it ran in one transaction, and the store was given
  -- what the request asked for.
  pub modifications_are_held :
      (ctx : Option AuthSession) (mrp : Role.ModifyCustomRolePermissions) (w w' : W)
      (a : Role.CustomRole)
      → modify_custom_role_permissions st tr ctx mrp w ≡ (ok a, w')
      → (s : Selected ctx) × (row : Pgrbac.CustomRole) × (next : List Permission → List Permission)
        × ((curr : List Permission) (p : Permission)
            → contains (next curr) p ≡ (
                not (contains mrp.remove_permissions p)
                && (contains mrp.add_permissions p || contains curr p)))
        × (validate_modify mrp ≡ none)
        × (tr.run_tx Pgrbac.CustomRole (modify_body st s.sess.user.user_id s.selected.id mrp) w
            ≡ (ok row, w'))
        × RoleEdit st s.sess.user.user_id mrp.id s.selected.id next w w' row (λ org_id.
          st.modify_custom_role_permissions (record {
            org_id = org_id;
            external_id = mrp.id;
            etag = mrp.etag;
            add_permission_names = mrp.add_permissions;
            remove_permission_names = mrp.remove_permissions;
          }))
        × (custom_role_from_pg row ≡ some a)
  unfolding modify_custom_role_permissions
  modifications_are_held ctx mrp w w' a h =
      let (sess, e, h1) = session-ok ctx _ w h in
      let (selected, f, h2) = project-ok _ _ w h1 in
      let (v, h3) = check_valid-ok _ _ w h2 in
      let (row, w1, t, h4) = step-ok _ _ _ w h3 in
      let (c, q) = convert-ok _ w1 h4 in
      let ran = rw q at t in
      let body = atomic.returns Pgrbac.CustomRole _ w w' row ran in
      (
        record { sess = sess; selected = selected; has_session = e; has_project = f },
        row,
        λ curr. next_perms curr mrp,
        λ curr p. contains-next_perms curr mrp p,
        v,
        ran,
        modify_body-ok st _ _ mrp w w' row body,
        c,
      )
