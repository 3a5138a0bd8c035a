-- ===== src/Rbac/Storer.antt =====
-- backend/internal/core/rbac/rbac.go: the interface of the role store. `W` is the database, and each
-- method is an action on it.
use theapp.Prelude.{ℕ, String, Bool, List}
use theapp.Action.{Action}
use theapp.Session.{Uuid}
use theapp.Pgrbac

pub record RoleStorer (W : Type 0) : Type 0 where
  pub create_custom_role : Pgrbac.CreateCustomRole → Action W Pgrbac.CustomRole
  pub update_custom_role : Pgrbac.UpdateCustomRole → Action W Pgrbac.CustomRole
  pub modify_custom_role_permissions :
      Pgrbac.ModifyCustomRolePermissions → Action W Pgrbac.CustomRole
  pub delete_custom_role : ℕ → Uuid → Action W Unit
  pub custom_role_by_external_id : ℕ → Uuid → Action W Pgrbac.CustomRole
  pub custom_role_has_project_assignments : Uuid → Action W Bool
  pub lock_custom_role : Uuid → Action W Unit
  pub custom_roles : ℕ → ℕ → ℕ → Action W (List Pgrbac.CustomRole × ℕ)
  pub user_project_custom_roles : Uuid → ℕ → ℕ → ℕ → Action W (List Pgrbac.CustomRole × ℕ)
  pub user_org_custom_roles : Uuid → ℕ → ℕ → ℕ → Action W (List Pgrbac.CustomRole × ℕ)
  pub org_permissions_by_project_id : Uuid → ℕ → Action W Pgrbac.OrgPermissions
  pub project_permissions : Uuid → ℕ → Action W Pgrbac.ProjectPermissions
  pub assign_custom_role_to_project : Uuid → Uuid → ℕ → Action W Unit
  pub unassign_custom_role_from_project : Uuid → Uuid → ℕ → Action W Unit
  pub assign_custom_role_to_org : Uuid → Uuid → ℕ → Action W Unit
  pub unassign_custom_role_from_org : Uuid → Uuid → ℕ → Action W Unit
  pub lock_system_role_management : Action W Unit
  pub lock_system_role_user : Uuid → Action W Unit
  pub system_roles : ℕ → ℕ → Action W (List Pgrbac.SystemRole × ℕ)
  pub system_role_by_name : String → Action W Pgrbac.SystemRole
  pub user_system_roles_by_external_id : Uuid → ℕ → ℕ → Action W (List Pgrbac.SystemRole × ℕ)
  pub system_permissions : Uuid → Action W (List String)
  pub fully_privileged_user_remains_after_system_role_unassign : Uuid → String → Action W Bool
  pub assign_system_role : Uuid → String → Action W Unit
  pub unassign_system_role : Uuid → String → Action W Unit
