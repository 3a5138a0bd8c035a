-- ===== src/Rbac/Database.antt =====
-- backend/internal/core/pgstores/pgrbac: the store over PostgreSQL as the role store of the core.
pub mod SystemAdmins
mod Examples
use theapp.Pgrbac.Db.{Db, Postgres}
use theapp.Pgrbac.Store
use theapp.Pgrbac.Store.Access
use theapp.Rbac.Storer.{RoleStorer}

abbrev pub database_store : Postgres → RoleStorer Db
database_store pg = record {
  create_custom_role = Store.create_custom_role pg;
  update_custom_role = Store.update_custom_role pg;
  modify_custom_role_permissions = Store.modify_custom_role_permissions pg;
  delete_custom_role = Store.delete_custom_role;
  custom_role_by_external_id = Store.custom_role_by_external_id pg;
  custom_role_has_project_assignments = Store.custom_role_has_project_assignments;
  lock_custom_role = Store.lock_custom_role;
  custom_roles = Store.custom_roles pg;
  user_project_custom_roles = Store.user_project_custom_roles pg;
  user_org_custom_roles = Store.user_org_custom_roles pg;
  org_permissions_by_project_id = Access.org_permissions_by_project_id pg;
  project_permissions = Access.project_permissions pg;
  assign_custom_role_to_project = Store.assign_custom_role_to_project;
  unassign_custom_role_from_project = Store.unassign_custom_role_from_project;
  assign_custom_role_to_org = Store.assign_custom_role_to_org;
  unassign_custom_role_from_org = Store.unassign_custom_role_from_org;
  lock_system_role_management = Access.lock_system_role_management;
  lock_system_role_user = Access.lock_system_role_user;
  system_roles = Access.system_roles pg;
  system_role_by_name = Access.system_role_by_name pg;
  user_system_roles_by_external_id = Access.user_system_roles_by_external_id pg;
  system_permissions = Access.system_permissions pg;
  fully_privileged_user_remains_after_system_role_unassign =
      Access.fully_privileged_user_remains_after_system_role_unassign;
  assign_system_role = Access.assign_system_role;
  unassign_system_role = Access.unassign_system_role;
}
