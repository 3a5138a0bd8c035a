-- ===== src/Server.antt =====
-- backend/internal/api/grpc/server.go: which methods there are, and what each requires of a call.
pub mod Tables
pub mod Numbers
pub mod Interceptors
pub mod Guards
pub mod Gate
mod Examples
pub mod Projects
pub mod Denial
use theapp.Prelude.{
  String, Bool, true, Option, none, some, List, [], ◌∷◌, ◌==◌, string_comparable, if◌then◌else◌,
}
use theapp.Set.{Set, has}
use theapp.Slices.{contains_func}
use theapp.Permission.{
  Permission, org_create, org_user_create, org_user_read, user_read, user_create, user_update,
  system_role_read, system_role_assign, system_role_unassign, custom_role_create, custom_role_read,
  custom_role_update, custom_role_delete, custom_role_assign_project, custom_role_unassign_project,
  custom_role_assign_org, custom_role_unassign_org, custom_role_read_project_assignments,
  custom_role_read_org_assignments,
}

unfoldable pub public_methods : Set String
public_methods = record {
  entries =
      "/theapp.v1.AuthService/RequestMagicLink" ∷ "/theapp.v1.AuthService/VerifyMagicLink"
      ∷ "/theapp.v1.AuthService/RefreshAccessToken" ∷ "/theapp.v1.AuthService/RevokeRefreshToken"
      ∷ [];
}

unfoldable pub no_project_methods : Set String
no_project_methods = record {
  entries =
      "/theapp.v1.AuthService/RevokeAllSessions" ∷ "/theapp.v1.ProjectService/ListProjects"
      ∷ "/theapp.v1.UserService/GetUser" ∷ "/theapp.v1.UserService/ListUsers"
      ∷ "/theapp.v1.UserService/CreateUser" ∷ "/theapp.v1.UserService/UpdateUser" ∷ [];
}

unfoldable pub org_scoped_permissions : Set Permission
org_scoped_permissions = record {
  entries =
      custom_role_create ∷ custom_role_update ∷ custom_role_delete
      ∷ custom_role_read_org_assignments ∷ custom_role_assign_org ∷ custom_role_unassign_org ∷ [];
}

unfoldable pub system_control_project_methods : Set String
system_control_project_methods = record {
  entries =
      "/theapp.v1.OrgService/CreateOrganization" ∷ "/theapp.v1.SystemRoleService/ListSystemRoles"
      ∷ "/theapp.v1.SystemRoleService/AssignSystemRole"
      ∷ "/theapp.v1.SystemRoleService/UnassignSystemRole"
      ∷ "/theapp.v1.SystemRoleService/ListSystemRoleAssignments" ∷ [];
}

unfoldable pub org_control_project_methods : Set String
org_control_project_methods = record {
  entries =
      "/theapp.v1.OrgService/CreateOrganizationUser" ∷ "/theapp.v1.OrgService/ListOrganizationUsers"
      ∷ [];
}

pub record Registration : Type 0 where
  pub method : String
  pub required : List Permission

abbrev entry : String → List Permission → Registration
entry m ps = record { method = m; required = ps }

-- permissionRegistry
unfoldable pub permission_registry : List Registration
permission_registry =
    entry "/theapp.v1.AuthService/RevokeAllSessions" []
    ∷ entry "/theapp.v1.AuthService/GetAuthContext" []
    ∷ entry "/theapp.v1.ProjectService/ListProjects" []
    ∷ entry "/theapp.v1.OrgService/CreateOrganization" (org_create ∷ [])
    ∷ entry "/theapp.v1.OrgService/CreateOrganizationUser" (org_user_create ∷ [])
    ∷ entry "/theapp.v1.OrgService/ListOrganizationUsers" (org_user_read ∷ [])
    ∷ entry "/theapp.v1.UserService/GetUser" (user_read ∷ [])
    ∷ entry "/theapp.v1.UserService/ListUsers" (user_read ∷ [])
    ∷ entry "/theapp.v1.UserService/CreateUser" (user_create ∷ [])
    ∷ entry "/theapp.v1.UserService/UpdateUser" (user_update ∷ [])
    ∷ entry "/theapp.v1.SystemRoleService/ListSystemRoles" (system_role_read ∷ [])
    ∷ entry "/theapp.v1.SystemRoleService/AssignSystemRole" (system_role_assign ∷ [])
    ∷ entry "/theapp.v1.SystemRoleService/UnassignSystemRole" (system_role_unassign ∷ [])
    ∷ entry "/theapp.v1.SystemRoleService/ListSystemRoleAssignments" (system_role_read ∷ [])
    ∷ entry "/theapp.v1.RoleService/CreateRole" (custom_role_create ∷ [])
    ∷ entry "/theapp.v1.RoleService/GetRole" (custom_role_read ∷ [])
    ∷ entry "/theapp.v1.RoleService/ListRoles" (custom_role_read ∷ [])
    ∷ entry "/theapp.v1.RoleService/ListProjectRoleAssignments"
        (custom_role_read_project_assignments ∷ [])
    ∷ entry "/theapp.v1.RoleService/ListOrganizationRoleAssignments"
        (custom_role_read_org_assignments ∷ [])
    ∷ entry "/theapp.v1.RoleService/UpdateRole" (custom_role_update ∷ [])
    ∷ entry "/theapp.v1.RoleService/ModifyRolePermissions" (custom_role_update ∷ [])
    ∷ entry "/theapp.v1.RoleService/DeleteRole" (custom_role_delete ∷ [])
    ∷ entry "/theapp.v1.RoleService/AssignRoleToProject" (custom_role_assign_project ∷ [])
    ∷ entry "/theapp.v1.RoleService/UnassignRoleFromProject" (custom_role_unassign_project ∷ [])
    ∷ entry "/theapp.v1.RoleService/AssignRoleToOrganization" (custom_role_assign_org ∷ [])
    ∷ entry "/theapp.v1.RoleService/UnassignRoleFromOrganization" (custom_role_unassign_org ∷ [])
    ∷ entry "/theapp.v1.PermissionService/ListPermissions" (custom_role_read ∷ [])
    ∷ []

-- required, ok := registry[method]
unfoldable pub registered : List Registration → String → Option (List Permission)
registered [] method = none
registered (r ∷ rs) method =
    let rest = registered rs method in if r.method == method then some r.required else rest

-- registry[method], which is nil for a method that is missing.
abbrev pub or_nil : Option (List Permission) → List Permission
or_nil none = []
or_nil (some ps) = ps

unfoldable pub method_requires_organization_scope : String → Bool
unfolding contains_func org_scoped_permissions permission_registry registered
method_requires_organization_scope method =
    contains_func (or_nil (registered permission_registry method)) (has org_scoped_permissions)
