-- ===== src/Pgrbac/Store.antt =====
-- backend/internal/core/pgstores/pgrbac/store_custom_role.go: the methods of the store on custom roles.
-- A method of the store sends its queries in one batch.
pub mod Access
pub mod Laws
use theapp.Prelude.{ℕ, String, Bool, true, false, Option, none, some, List, [], if◌then◌else◌}
use theapp.Errors.{wrapped, ok}
use theapp.Action.{Action, ◌>>=◌, ◌>>◌, ◌on_error◌, pure, done}
use theapp.Session.{Uuid}
use theapp.Pgdb.{
  Batch, TypedQuery, queue, queue_many, queue_error, ◌then◌, run_batch, run_batch_tx, run_exec,
}
use theapp.Pgrbac
use theapp.Pgrbac.Db.{Db, Postgres}
use theapp.Pgrbac.Roles.{create_custom_role_query, update_custom_role_query}
use theapp.Pgrbac.RolePermissions.{
  insert_custom_role_permissions_query, modify_custom_role_permissions_query,
}
use theapp.Pgrbac.Deletion.{
  delete_custom_role_query, delete_custom_role_permissions_query,
  delete_custom_role_project_assignments_query, delete_custom_role_org_assignments_query,
}
use theapp.Pgrbac.Queries.{
  custom_roles_query, custom_role_by_external_id_query, user_project_custom_roles_query,
  user_org_custom_roles_query, project_permissions_query, org_permissions_by_project_id_query,
  custom_role_has_project_assignments_query, custom_role_count_query,
  user_project_custom_role_count_query, user_org_custom_role_count_query,
}
use theapp.Pgrbac.Assignments.{
  assign_custom_role_to_project_query, unassign_custom_role_from_project_query,
  assign_custom_role_to_org_query, unassign_custom_role_from_org_query,
}

-- A query whose one row is awaited, or whose rows are, under the name that the method gives it.
abbrev pub one : {A : Type 0} → String → TypedQuery Db A → Batch Db A
one m q = queue_error m (queue q)

abbrev pub many : {A : Type 0} → String → TypedQuery Db A → Batch Db (List A)
many m q = queue_error m (queue_many q)

-- The result sinks are dropped.
abbrev pub sink : {A : Type 0} → Action Db A → Action Db Unit
sink m = m >> done

-- pg_advisory_xact_lock: what it waits for is no part of one caller's run.
abbrev pub advisory_lock : Action Db Unit
advisory_lock = done

module _ (pg : Postgres) where
  -- CreateCustomRole
  unfoldable pub create_custom_role : Pgrbac.CreateCustomRole → Action Db Pgrbac.CustomRole
  unfolding queue run_batch_tx create_custom_role_query
  create_custom_role cr =
      run_batch_tx (one "create custom role" (create_custom_role_query pg cr none))

  -- CreateOrganizationAdminRole
  unfoldable pub create_organization_admin_role : ℕ → List String → Action Db Pgrbac.CustomRole
  unfolding queue run_batch create_custom_role_query
  create_organization_admin_role org_id permission_names =
      let cr : Pgrbac.CreateCustomRole = record {
        org_id = org_id;
        name = "Organization Administrator";
        permission_names = permission_names;
      } in
      run_batch (
        one "create organization administrator role"
          (create_custom_role_query pg cr (some "organization_admin")))

  -- The queries that replace the permissions, queued where they are selected.
  abbrev pub replace_permissions : Pgrbac.UpdateCustomRole → Bool → Batch Db (List ℕ × List ℕ)
  replace_permissions ur true =
      many "delete custom role permissions"
        (delete_custom_role_permissions_query ur.org_id ur.external_id)
      then many "insert custom role permissions"
          (insert_custom_role_permissions_query pg ur.external_id ur.permission_names)
  replace_permissions ur false = ok (pure ([], []))

  -- The batches of UpdateCustomRole and of ModifyCustomRolePermissions.
  abbrev pub update_batch :
      Pgrbac.UpdateCustomRole → Batch Db ((ℕ × (List ℕ × List ℕ)) × Pgrbac.CustomRole)
  update_batch ur =
      one "update custom role" (update_custom_role_query pg ur)
      then replace_permissions ur ur.fields.permission_names
      then one "updated custom role" (custom_role_by_external_id_query pg ur.org_id ur.external_id)

  abbrev pub modify_batch : Pgrbac.ModifyCustomRolePermissions → Batch Db (ℕ × Pgrbac.CustomRole)
  modify_batch mp =
      one "modify custom role permissions" (modify_custom_role_permissions_query pg mp)
      then one "modified custom role" (custom_role_by_external_id_query pg mp.org_id mp.external_id)

  -- UpdateCustomRole
  unfoldable pub update_custom_role : Pgrbac.UpdateCustomRole → Action Db Pgrbac.CustomRole
  unfolding queue queue_many run_batch_tx ◌>>=◌ pure update_custom_role_query
      delete_custom_role_permissions_query insert_custom_role_permissions_query
      custom_role_by_external_id_query
  update_custom_role ur = run_batch_tx (update_batch ur) >>= λ results. pure results.1

  -- ModifyCustomRolePermissions
  unfoldable pub modify_custom_role_permissions :
      Pgrbac.ModifyCustomRolePermissions → Action Db Pgrbac.CustomRole
  unfolding queue run_batch_tx ◌>>=◌ pure modify_custom_role_permissions_query
      custom_role_by_external_id_query
  modify_custom_role_permissions mp = run_batch_tx (modify_batch mp) >>= λ results. pure results.1

  -- CustomRoles
  unfoldable pub custom_roles : ℕ → ℕ → ℕ → Action Db (List Pgrbac.CustomRole × ℕ)
  unfolding queue queue_many run_batch ◌>>=◌ pure custom_roles_query custom_role_count_query
  custom_roles org_id page_size page_offset = run_batch (
      many "custom roles" (custom_roles_query pg org_id page_size page_offset)
      then one "custom role count" (custom_role_count_query org_id))

  -- CustomRoleByExternalID
  unfoldable pub custom_role_by_external_id : ℕ → Uuid → Action Db Pgrbac.CustomRole
  unfolding queue run_batch custom_role_by_external_id_query
  custom_role_by_external_id org_id role_id =
      run_batch (one "custom role" (custom_role_by_external_id_query pg org_id role_id))

  -- UserProjectCustomRoles
  unfoldable pub user_project_custom_roles :
      Uuid → ℕ → ℕ → ℕ → Action Db (List Pgrbac.CustomRole × ℕ)
  unfolding queue queue_many run_batch ◌>>=◌ pure user_project_custom_roles_query
      user_project_custom_role_count_query
  user_project_custom_roles user_id project_id page_size page_offset = run_batch (
      many "user project custom roles"
        (user_project_custom_roles_query pg user_id project_id page_size page_offset)
      then one "user project custom role count"
          (user_project_custom_role_count_query user_id project_id))

  -- UserOrgCustomRoles
  unfoldable pub user_org_custom_roles : Uuid → ℕ → ℕ → ℕ → Action Db (List Pgrbac.CustomRole × ℕ)
  unfolding queue queue_many run_batch ◌>>=◌ pure user_org_custom_roles_query
      user_org_custom_role_count_query
  user_org_custom_roles user_id org_id page_size page_offset = run_batch (
      many "user organization custom roles"
        (user_org_custom_roles_query pg user_id org_id page_size page_offset)
      then one "user organization custom role count"
          (user_org_custom_role_count_query user_id org_id))

-- The batch of DeleteCustomRole.
abbrev pub delete_batch : ℕ → Uuid → Batch Db (((List ℕ × List ℕ) × List ℕ) × ℕ)
delete_batch org_id role_id =
    many "delete custom role project assignments"
      (delete_custom_role_project_assignments_query org_id role_id)
    then many "delete custom role org assignments"
        (delete_custom_role_org_assignments_query org_id role_id)
    then many "delete custom role permissions" (delete_custom_role_permissions_query org_id role_id)
    then one "delete custom role" (delete_custom_role_query org_id role_id)

-- DeleteCustomRole
unfoldable pub delete_custom_role : ℕ → Uuid → Action Db Unit
unfolding queue queue_many run_batch_tx ◌>>=◌ pure delete_custom_role_project_assignments_query
    delete_custom_role_org_assignments_query delete_custom_role_permissions_query
    delete_custom_role_query
delete_custom_role org_id role_id = sink (run_batch_tx (delete_batch org_id role_id))

-- CustomRoleHasProjectAssignments
unfoldable pub custom_role_has_project_assignments : Uuid → Action Db Bool
unfolding queue run_batch custom_role_has_project_assignments_query
custom_role_has_project_assignments role_id =
    run_batch (
      one "custom role has project assignments" (custom_role_has_project_assignments_query role_id))

-- LockCustomRole
unfoldable pub lock_custom_role : Uuid → Action Db Unit
unfolding run_exec ◌on_error◌ pure
lock_custom_role role_id = run_exec advisory_lock on_error wrapped "lock custom role"

-- AssignCustomRoleToProject
unfoldable pub assign_custom_role_to_project : Uuid → Uuid → ℕ → Action Db Unit
unfolding queue run_batch ◌>>=◌ pure assign_custom_role_to_project_query
assign_custom_role_to_project user_id role_id project_id = sink (
    run_batch (
      one "assign custom role to project"
        (assign_custom_role_to_project_query user_id role_id project_id)))

-- UnassignCustomRoleFromProject
unfoldable pub unassign_custom_role_from_project : Uuid → Uuid → ℕ → Action Db Unit
unfolding queue run_batch ◌>>=◌ pure unassign_custom_role_from_project_query
unassign_custom_role_from_project user_id role_id project_id = sink (
    run_batch (
      one "unassign custom role from project"
        (unassign_custom_role_from_project_query user_id role_id project_id)))

-- AssignCustomRoleToOrg
unfoldable pub assign_custom_role_to_org : Uuid → Uuid → ℕ → Action Db Unit
unfolding queue run_batch ◌>>=◌ pure assign_custom_role_to_org_query
assign_custom_role_to_org user_id role_id org_id = sink (
    run_batch
      (one "assign custom role to org" (assign_custom_role_to_org_query user_id role_id org_id)))

-- UnassignCustomRoleFromOrg
unfoldable pub unassign_custom_role_from_org : Uuid → Uuid → ℕ → Action Db Unit
unfolding queue run_batch ◌>>=◌ pure unassign_custom_role_from_org_query
unassign_custom_role_from_org user_id role_id org_id = sink (
    run_batch (
      one "unassign custom role from org"
        (unassign_custom_role_from_org_query user_id role_id org_id)))
