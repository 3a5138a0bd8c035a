-- ===== src/Rbac/Assign.antt =====
-- The methods of backend/internal/core/rbac/custom_role.go that grant and revoke custom roles.
use theapp.Prelude.{ℕ, Option, leb, string_comparable}
use theapp.Errors.{wrapped, sentinel, permission_denied, invalid_assignment_scope}
use theapp.Action.{Action, ◌on_error◌, ◌>>=◌, ◌>>◌, or_panic, guard}
use theapp.Permission.{AssignmentScope, rank, minimum_assignment_scope, is_permission_superset}
use theapp.Session.{Uuid, AuthSession, require_session, require_project}
use theapp.Transactor.{Transactor}
use theapp.Rbac.Storer.{RoleStorer}
use theapp.Rbac.Conv.{permissions_from_pg}
use theapp.Rbac.Errors.{no_rows_as_not_found, no_rows_as_bare_not_found, assign_error}

module _ {W : Type 0} (st : RoleStorer W) where
  -- The transaction of AssignCustomRoleToProject.
  unfoldable pub assign_to_project_body : Uuid → ℕ → Uuid → Uuid → Action W Unit
  assign_to_project_body actor project_id target role_id = do
    perms ←
        st.project_permissions actor project_id
        on_error no_rows_as_bare_not_found "get actor project permissions"
    st.lock_custom_role role_id on_error wrapped "lock custom role"
    role ←
        st.custom_role_by_external_id perms.org_id role_id
        on_error no_rows_as_not_found "get custom role"
    scope ← or_panic (minimum_assignment_scope (permissions_from_pg role.permission_names))
    guard (leb (rank scope) (rank AssignmentScope.project)) (sentinel invalid_assignment_scope)
    guard
        (is_permission_superset (permissions_from_pg perms.permission_names)
          (permissions_from_pg role.permission_names))
        (sentinel permission_denied)
    st.assign_custom_role_to_project target role_id project_id
        on_error assign_error "assign custom role to project"

  -- The transaction of UnassignCustomRoleFromProject.
  unfoldable pub unassign_from_project_body : Uuid → ℕ → Uuid → Uuid → Action W Unit
  unassign_from_project_body actor project_id target role_id = do
    perms ←
        st.project_permissions actor project_id
        on_error no_rows_as_bare_not_found "get actor project permissions"
    role ←
        st.custom_role_by_external_id perms.org_id role_id
        on_error no_rows_as_not_found "get custom role"
    guard
        (is_permission_superset (permissions_from_pg perms.permission_names)
          (permissions_from_pg role.permission_names))
        (sentinel permission_denied)
    st.unassign_custom_role_from_project target role_id project_id
        on_error no_rows_as_not_found "unassign custom role from project"

  -- The transaction of AssignCustomRoleToOrg.
  unfoldable pub assign_to_org_body : Uuid → ℕ → Uuid → Uuid → Action W Unit
  assign_to_org_body actor project_id target role_id = do
    perms ←
        st.org_permissions_by_project_id actor project_id
        on_error no_rows_as_bare_not_found "get actor organization permissions"
    role ←
        st.custom_role_by_external_id perms.org_id role_id
        on_error no_rows_as_not_found "get custom role"
    guard
        (is_permission_superset (permissions_from_pg perms.permission_names)
          (permissions_from_pg role.permission_names))
        (sentinel permission_denied)
    st.assign_custom_role_to_org target role_id perms.org_id
        on_error assign_error "assign custom role to org"

  -- The transaction of UnassignCustomRoleFromOrg.
  unfoldable pub unassign_from_org_body : Uuid → ℕ → Uuid → Uuid → Action W Unit
  unassign_from_org_body actor project_id target role_id = do
    perms ←
        st.org_permissions_by_project_id actor project_id
        on_error no_rows_as_bare_not_found "get actor organization permissions"
    role ←
        st.custom_role_by_external_id perms.org_id role_id
        on_error no_rows_as_not_found "get custom role"
    guard
        (is_permission_superset (permissions_from_pg perms.permission_names)
          (permissions_from_pg role.permission_names))
        (sentinel permission_denied)
    st.unassign_custom_role_from_org target role_id perms.org_id
        on_error no_rows_as_not_found "unassign custom role from org"

module _ {W : Type 0} (st : RoleStorer W) (tr : Transactor W) where
  -- AssignCustomRoleToProject
  unfoldable pub assign_custom_role_to_project : Option AuthSession → Uuid → Uuid → Action W Unit
  assign_custom_role_to_project ctx target role_id = do
    sess ← require_session ctx
    project ← require_project sess.project
    tr.run_tx Unit (assign_to_project_body st sess.user.user_id project.id target role_id)
        on_error wrapped "run tx"

  -- UnassignCustomRoleFromProject
  unfoldable pub unassign_custom_role_from_project :
      Option AuthSession → Uuid → Uuid → Action W Unit
  unassign_custom_role_from_project ctx target role_id = do
    sess ← require_session ctx
    project ← require_project sess.project
    tr.run_tx Unit (unassign_from_project_body st sess.user.user_id project.id target role_id)
        on_error wrapped "run tx"

  -- AssignCustomRoleToOrg
  unfoldable pub assign_custom_role_to_org : Option AuthSession → Uuid → Uuid → Action W Unit
  assign_custom_role_to_org ctx target role_id = do
    sess ← require_session ctx
    project ← require_project sess.project
    tr.run_tx Unit (assign_to_org_body st sess.user.user_id project.id target role_id)
        on_error wrapped "run tx"

  -- UnassignCustomRoleFromOrg
  unfoldable pub unassign_custom_role_from_org : Option AuthSession → Uuid → Uuid → Action W Unit
  unassign_custom_role_from_org ctx target role_id = do
    sess ← require_session ctx
    project ← require_project sess.project
    tr.run_tx Unit (unassign_from_org_body st sess.user.user_id project.id target role_id)
        on_error wrapped "run tx"
