-- ===== src/Pgrbac/Store/Access.antt =====
-- backend/internal/core/pgstores/pgrbac/store.go and store_system_role.go: the methods of the store on
-- permissions and on system roles.
use theapp.Prelude.{ℕ, String, Bool, List}
use theapp.Errors.{wrapped}
use theapp.Action.{Action, ◌>>=◌, ◌on_error◌, pure}
use theapp.Session.{Uuid}
use theapp.Pgdb.{queue, queue_many, ◌then◌, run_batch, run_exec}
use theapp.Pgrbac
use theapp.Pgrbac.Db.{Db, Postgres}
use theapp.Pgrbac.Queries.{project_permissions_query, org_permissions_by_project_id_query}
use theapp.Pgrbac.System.{
  system_roles_query, system_role_by_name_query, user_system_roles_by_external_id_query,
  system_permission_names_query, system_role_count_query,
  user_system_role_count_by_external_id_query, fully_privileged_user_remains_query,
  assign_system_role_query, unassign_system_role_query,
}
use theapp.Pgrbac.Store.{one, many, sink, advisory_lock}

module _ (pg : Postgres) where
  -- PermissionsByScope
  unfoldable pub permissions_by_scope : Uuid → ℕ → Action Db Pgrbac.PermissionsByScope
  unfolding queue run_batch ◌>>=◌ pure project_permissions_query org_permissions_by_project_id_query
      system_permission_names_query
  permissions_by_scope user_id project_id =
      run_batch (
        one "permissions by scope project permissions"
          (project_permissions_query pg user_id project_id)
        then one "permissions by scope organization permissions"
            (org_permissions_by_project_id_query pg user_id project_id)
        then one "permissions by scope system permissions"
            (system_permission_names_query pg user_id))
      >>= λ ((project_perms, org_perms), system_perm_names). pure (record {
        project_permission_names = project_perms.permission_names;
        org_permission_names = org_perms.permission_names;
        system_permission_names = system_perm_names;
      })

  -- ProjectPermissions
  unfoldable pub project_permissions : Uuid → ℕ → Action Db Pgrbac.ProjectPermissions
  unfolding queue run_batch project_permissions_query
  project_permissions user_id project_id =
      run_batch (one "project permissions" (project_permissions_query pg user_id project_id))

  -- OrgPermissionsByProjectID
  unfoldable pub org_permissions_by_project_id : Uuid → ℕ → Action Db Pgrbac.OrgPermissions
  unfolding queue run_batch org_permissions_by_project_id_query
  org_permissions_by_project_id user_id project_id = run_batch (
      one "organization permissions by project id"
        (org_permissions_by_project_id_query pg user_id project_id))

  -- SystemRoles
  unfoldable pub system_roles : ℕ → ℕ → Action Db (List Pgrbac.SystemRole × ℕ)
  unfolding queue queue_many run_batch ◌>>=◌ pure system_roles_query system_role_count_query
  system_roles page_size page_offset = run_batch (
      many "system roles" (system_roles_query pg page_size page_offset)
      then one "system role count" system_role_count_query)

  -- SystemRoleByName
  unfoldable pub system_role_by_name : String → Action Db Pgrbac.SystemRole
  unfolding queue run_batch system_role_by_name_query
  system_role_by_name name = run_batch (one "system role" (system_role_by_name_query pg name))

  -- UserSystemRolesByExternalID
  unfoldable pub user_system_roles_by_external_id :
      Uuid → ℕ → ℕ → Action Db (List Pgrbac.SystemRole × ℕ)
  unfolding queue queue_many run_batch ◌>>=◌ pure user_system_roles_by_external_id_query
      user_system_role_count_by_external_id_query
  user_system_roles_by_external_id user_id page_size page_offset = run_batch (
      many "user system roles"
        (user_system_roles_by_external_id_query pg user_id page_size page_offset)
      then one "user system role count" (user_system_role_count_by_external_id_query user_id))

  -- SystemPermissions
  unfoldable pub system_permissions : Uuid → Action Db (List String)
  unfolding queue run_batch system_permission_names_query
  system_permissions user_id =
      run_batch (one "system permissions" (system_permission_names_query pg user_id))

-- LockSystemRoleManagement
unfoldable pub lock_system_role_management : Action Db Unit
unfolding run_exec ◌on_error◌ pure
lock_system_role_management = run_exec advisory_lock on_error wrapped "lock system-role management"

-- LockSystemRoleUser
unfoldable pub lock_system_role_user : Uuid → Action Db Unit
unfolding run_exec ◌on_error◌ pure
lock_system_role_user user_id = run_exec advisory_lock on_error wrapped "lock system-role user"

-- FullyPrivilegedUserRemainsAfterSystemRoleUnassign
unfoldable pub fully_privileged_user_remains_after_system_role_unassign :
    Uuid → String → Action Db Bool
unfolding queue run_batch fully_privileged_user_remains_query
fully_privileged_user_remains_after_system_role_unassign user_id role_name = run_batch (
    one "fully privileged system user remains after unassign"
      (fully_privileged_user_remains_query user_id role_name))

-- AssignSystemRole
unfoldable pub assign_system_role : Uuid → String → Action Db Unit
unfolding queue run_batch ◌>>=◌ pure assign_system_role_query
assign_system_role user_id role_name =
    sink (run_batch (one "assign system role" (assign_system_role_query user_id role_name)))

-- UnassignSystemRole
unfoldable pub unassign_system_role : Uuid → String → Action Db Unit
unfolding queue run_batch ◌>>=◌ pure unassign_system_role_query
unassign_system_role user_id role_name =
    sink (run_batch (one "unassign system role" (unassign_system_role_query user_id role_name)))
