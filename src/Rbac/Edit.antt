-- ===== src/Rbac/Edit.antt =====
-- The methods of backend/internal/core/rbac/custom_role.go that change a role's definition.
use theapp.Prelude.{
  ℕ, Bool, true, false, not, Option, none, some, List, nat_beq, string_comparable, if◌then◌else◌,
}
use theapp.Set.{from_slice, add, remove, values, symmetric_difference}
use theapp.Errors.{wrapped, sentinel, permission_denied, managed_role, invalid_assignment_scope}
use theapp.Action.{Action, check_valid, ◌on_error◌, ◌>>=◌, ◌>>◌, or_panic, pure, guard, done}
use theapp.Permission.{
  Permission, AssignmentScope, rank, minimum_assignment_scope, is_permission_superset,
}
use theapp.Session.{Uuid, AuthSession, require_session, require_project}
use theapp.Pgrbac
use theapp.Role
use theapp.Role.{validate_create, validate_update, validate_modify}
use theapp.Transactor.{Transactor}
use theapp.Rbac.Storer.{RoleStorer}
use theapp.Rbac.Conv.{
  permissions_from_pg, custom_role_from_pg, create_custom_role_to_pg, update_custom_role_to_pg,
  modify_custom_role_permissions_to_pg,
}
use theapp.Rbac.Errors.{
  no_rows_as_not_found, create_error, update_with_permissions_error, update_error, modify_error,
}

-- changedPerms
unfoldable pub changed_perms : List Permission → List Permission → List Permission
changed_perms curr next = values (symmetric_difference (from_slice curr) (from_slice next))

-- The set that ModifyCustomRolePermissions computes.
unfoldable pub next_perms : List Permission → Role.ModifyCustomRolePermissions → List Permission
next_perms curr mrp =
    values (remove (add (from_slice curr) mrp.add_permissions) mrp.remove_permissions)

-- ManagedKey == nil
abbrev pub is_unmanaged : Pgrbac.CustomRole → Bool
is_unmanaged role = elim role.managed_key [ none ↦ true | some _ ↦ false ]

module _ {W : Type 0} (st : RoleStorer W) where
  -- customRolePermChangeContext
  unfoldable pub custom_role_perm_change_context :
      Uuid → ℕ → Uuid → Action W (Pgrbac.OrgPermissions × Pgrbac.CustomRole)
  custom_role_perm_change_context actor project_id role_id = do
    perms ←
        st.org_permissions_by_project_id actor project_id
        on_error wrapped "get actor organization permissions"
    st.lock_custom_role role_id on_error wrapped "lock custom role"
    role ← st.custom_role_by_external_id perms.org_id role_id on_error wrapped "get custom role"
    pure (perms, role)

  -- validateCustomRoleAssignmentScope
  unfoldable pub validate_custom_role_assignment_scope : Uuid → List Permission → Action W Unit
  validate_custom_role_assignment_scope role_id permissions = do
    scope ← or_panic (minimum_assignment_scope permissions)
    if nat_beq (rank scope) (rank AssignmentScope.project) then done else do
      has_project_assignments ←
          st.custom_role_has_project_assignments role_id
          on_error wrapped "check custom role project assignments"
      guard (not has_project_assignments) (sentinel invalid_assignment_scope)

  -- The transaction of CreateCustomRole.
  unfoldable pub create_body : Uuid → ℕ → Role.CreateCustomRole → Action W Pgrbac.CustomRole
  create_body actor project_id cr = do
    perms ←
        st.org_permissions_by_project_id actor project_id
        on_error no_rows_as_not_found "get actor organization permissions"
    guard (is_permission_superset (permissions_from_pg perms.permission_names) cr.permissions)
        (sentinel permission_denied)
    st.create_custom_role (create_custom_role_to_pg cr perms.org_id) on_error create_error

  -- The transaction of UpdateCustomRole where the permissions are among the selected fields.
  unfoldable pub update_body : Uuid → ℕ → Role.UpdateCustomRole → Action W Pgrbac.CustomRole
  update_body actor project_id ur = do
    (perms, role) ←
        custom_role_perm_change_context actor project_id ur.id
        on_error no_rows_as_not_found "get permission change context"
    guard (is_unmanaged role) (sentinel managed_role)
    guard
        (is_permission_superset (permissions_from_pg perms.permission_names)
          (changed_perms (permissions_from_pg role.permission_names) ur.permissions))
        (sentinel permission_denied)
    validate_custom_role_assignment_scope ur.id ur.permissions
        on_error wrapped "validate custom role assignment scope"
    st.update_custom_role (update_custom_role_to_pg ur perms.org_id)
        on_error update_with_permissions_error

  -- The transaction of ModifyCustomRolePermissions.
  unfoldable pub modify_body :
      Uuid → ℕ → Role.ModifyCustomRolePermissions → Action W Pgrbac.CustomRole
  modify_body actor project_id mrp = do
    (perms, role) ←
        custom_role_perm_change_context actor project_id mrp.id
        on_error no_rows_as_not_found "get permission change context"
    guard (is_unmanaged role) (sentinel managed_role)
    let curr = permissions_from_pg role.permission_names
    let next = next_perms curr mrp
    guard
        (is_permission_superset (permissions_from_pg perms.permission_names)
          (changed_perms curr next))
        (sentinel permission_denied)
    validate_custom_role_assignment_scope mrp.id next
        on_error wrapped "validate custom role assignment scope"
    st.modify_custom_role_permissions (modify_custom_role_permissions_to_pg mrp perms.org_id)
        on_error modify_error

  -- The transaction of DeleteCustomRole.
  unfoldable pub delete_body : Uuid → ℕ → Uuid → Action W Unit
  delete_body actor project_id role_id = do
    (perms, role) ←
        custom_role_perm_change_context actor project_id role_id
        on_error no_rows_as_not_found "get permission change context"
    guard (is_unmanaged role) (sentinel managed_role)
    guard
        (is_permission_superset (permissions_from_pg perms.permission_names)
          (permissions_from_pg role.permission_names))
        (sentinel permission_denied)
    st.delete_custom_role perms.org_id role_id on_error wrapped "delete custom role"

module _ {W : Type 0} (st : RoleStorer W) (tr : Transactor W) where
  -- CreateCustomRole
  unfoldable pub create_custom_role :
      Option AuthSession → Role.CreateCustomRole → Action W Role.CustomRole
  create_custom_role ctx cr = do
    sess ← require_session ctx
    project ← require_project sess.project
    check_valid (validate_create cr)
    role ←
        tr.run_tx Pgrbac.CustomRole (create_body st sess.user.user_id project.id cr)
        on_error wrapped "run tx"
    or_panic (custom_role_from_pg role)

  -- UpdateCustomRole
  unfoldable pub update_custom_role :
      Option AuthSession → Role.UpdateCustomRole → Action W Role.CustomRole
  update_custom_role ctx ur = do
    sess ← require_session ctx
    project ← require_project sess.project
    check_valid (validate_update ur)
    if ur.fields.permissions
        then (do
          role ←
              tr.run_tx Pgrbac.CustomRole (update_body st sess.user.user_id project.id ur)
              on_error wrapped "run tx"
          or_panic (custom_role_from_pg role))
        else do
          role ←
              st.update_custom_role (update_custom_role_to_pg ur project.org_id)
              on_error update_error
          or_panic (custom_role_from_pg role)

  -- ModifyCustomRolePermissions
  unfoldable pub modify_custom_role_permissions :
      Option AuthSession → Role.ModifyCustomRolePermissions → Action W Role.CustomRole
  modify_custom_role_permissions ctx mrp = do
    sess ← require_session ctx
    project ← require_project sess.project
    check_valid (validate_modify mrp)
    role ←
        tr.run_tx Pgrbac.CustomRole (modify_body st sess.user.user_id project.id mrp)
        on_error wrapped "run tx"
    or_panic (custom_role_from_pg role)

  -- DeleteCustomRole
  unfoldable pub delete_custom_role : Option AuthSession → Uuid → Action W Unit
  delete_custom_role ctx role_id = do
    sess ← require_session ctx
    project ← require_project sess.project
    tr.run_tx Unit (delete_body st sess.user.user_id project.id role_id) on_error wrapped "run tx"
