-- ===== src/Rbac/SystemRole.antt =====
-- backend/internal/core/rbac/system_role.go
use theapp.Prelude.{ℕ, String, Option, List, ltb, nat_beq, if◌then◌else◌}
use theapp.Errors.{wrapped, sentinel, permission_denied, last_fully_privileged_system_admin}
use theapp.Action.{Action, ◌on_error◌, ◌>>=◌, ◌>>◌, pure, guard, done}
use theapp.Permission.{is_permission_superset}
use theapp.Session.{Uuid, AuthSession, require_session}
use theapp.Pgrbac
use theapp.Role.{SystemRole}
use theapp.Transactor.{Transactor}
use theapp.Rbac.Storer.{RoleStorer}
use theapp.Rbac.Conv.{permissions_from_pg, system_roles_from_pg}
use theapp.Rbac.Errors.{no_rows_as_not_found, no_rows_as_bare_not_found, assign_error}

module _ {W : Type 0} (st : RoleStorer W) where
  -- SystemRoles
  unfoldable pub system_roles : ℕ → ℕ → Action W (List SystemRole × ℕ)
  unfolding system_roles_from_pg
  system_roles page_size page_offset = do
    page ← st.system_roles page_size page_offset on_error wrapped "system roles"
    pure (system_roles_from_pg page.0, page.1)

  -- UserSystemRoles
  unfoldable pub user_system_roles : Uuid → ℕ → ℕ → Action W (List SystemRole × ℕ)
  unfolding system_roles_from_pg
  user_system_roles user_id page_size page_offset = do
    page ←
        st.user_system_roles_by_external_id user_id page_size page_offset
        on_error no_rows_as_bare_not_found "user system roles"
    pure (system_roles_from_pg page.0, page.1)

  -- Locks two users in the order given, and one user once.
  unfoldable pub lock_in_order : Uuid → Uuid → Action W Unit
  lock_in_order first second = do
    st.lock_system_role_user first on_error wrapped "lock first user"
    if nat_beq first second
        then done
        else st.lock_system_role_user second on_error wrapped "lock second user"

  -- lockSystemRoleUsers
  unfoldable pub lock_system_role_users : Uuid → Uuid → Action W Unit
  unfolding lock_in_order
  lock_system_role_users actor target =
      if ltb target actor then lock_in_order target actor else lock_in_order actor target

  -- authorizeSystemRoleChange
  unfoldable pub authorize_system_role_change : Uuid → String → Action W Pgrbac.SystemRole
  authorize_system_role_change actor role_name = do
    role ← st.system_role_by_name role_name on_error wrapped "system role"
    actor_perms ← st.system_permissions actor on_error wrapped "actor system permissions"
    guard
        (is_permission_superset (permissions_from_pg actor_perms)
          (permissions_from_pg role.permission_names))
        (sentinel permission_denied)
    pure role

  -- ensureFullyPrivilegedSystemUserRemains
  unfoldable pub ensure_fully_privileged_system_user_remains : Uuid → String → Action W Unit
  ensure_fully_privileged_system_user_remains target role_name = do
    remains ←
        st.fully_privileged_user_remains_after_system_role_unassign target role_name
        on_error wrapped "fully privileged system user after unassign"
    guard remains (sentinel last_fully_privileged_system_admin)

  -- The transaction of AssignSystemRole.
  unfoldable pub assign_system_role_body : Uuid → Uuid → String → Action W Unit
  assign_system_role_body actor target role_name = do
    lock_system_role_users actor target on_error wrapped "lock users"
    authorize_system_role_change actor role_name
        on_error no_rows_as_not_found "authorize system role change"
    st.assign_system_role target role_name on_error assign_error "assign system role"

  -- The transaction of UnassignSystemRole.
  unfoldable pub unassign_system_role_body : Uuid → Uuid → String → Action W Unit
  unassign_system_role_body actor target role_name = do
    st.lock_system_role_management on_error wrapped "lock system role management"
    lock_system_role_users actor target on_error wrapped "lock users"
    role ←
        authorize_system_role_change actor role_name
        on_error no_rows_as_not_found "authorize system role change"
    ensure_fully_privileged_system_user_remains target role.name
        on_error no_rows_as_not_found "ensure fully privileged system user remains"
    st.unassign_system_role target role_name on_error no_rows_as_not_found "unassign system role"

  -- The transaction of BootstrapAssignSystemRole.
  unfoldable pub bootstrap_body : Uuid → String → Action W Unit
  bootstrap_body user_id role_name = do
    st.lock_system_role_user user_id on_error wrapped "lock user"
    st.assign_system_role user_id role_name on_error assign_error "assign system role"

module _ {W : Type 0} (st : RoleStorer W) (tr : Transactor W) where
  -- AssignSystemRole
  unfoldable pub assign_system_role : Option AuthSession → Uuid → String → Action W Unit
  assign_system_role ctx target role_name = do
    sess ← require_session ctx
    tr.run_tx Unit (assign_system_role_body st sess.user.user_id target role_name)
        on_error wrapped "run tx"

  -- UnassignSystemRole
  unfoldable pub unassign_system_role : Option AuthSession → Uuid → String → Action W Unit
  unassign_system_role ctx target role_name = do
    sess ← require_session ctx
    tr.run_tx Unit (unassign_system_role_body st sess.user.user_id target role_name)
        on_error wrapped "run tx"

  -- BootstrapAssignSystemRole
  unfoldable pub bootstrap_assign_system_role : Uuid → String → Action W Unit
  bootstrap_assign_system_role user_id role_name =
      tr.run_tx Unit (bootstrap_body st user_id role_name) on_error wrapped "run tx"
