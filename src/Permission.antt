-- ===== src/Permission.antt =====
-- backend/internal/core/mdl/permission.go: the closed registry of permissions and the scope at which
-- each may be assigned. A panic is `none`.
pub mod Registry
pub mod Scopes
mod Examples
use theapp.Prelude.{
  ℕ, ltb, String, Bool, Option, none, some, List, [], ◌∷◌, map, contains, string_comparable,
  if◌then◌else◌,
}
use theapp.Set.{from_slice, is_superset}

abbrev pub Permission : Type 0
Permission = String

-- Declared from the narrowest to the broadest; Go numbers them from 1.
pub data AssignmentScope : Type 0 where
  project organization system : AssignmentScope

abbrev pub rank : AssignmentScope → ℕ
rank project = 1
rank organization = 2
rank system = 3

pub record PermissionDescriptor : Type 0 where
  pub permission : Permission
  pub minimum_assignment_scope : AssignmentScope

abbrev pub user_read : Permission
user_read = "user:read"

abbrev pub user_create : Permission
user_create = "user:create"

abbrev pub user_update : Permission
user_update = "user:update"

abbrev pub system_role_read : Permission
system_role_read = "system-role:read"

abbrev pub system_role_assign : Permission
system_role_assign = "system-role:assign"

abbrev pub system_role_unassign : Permission
system_role_unassign = "system-role:unassign"

abbrev pub project_discover_all : Permission
project_discover_all = "project:discover-all"

abbrev pub org_create : Permission
org_create = "org:create"

abbrev pub project_create : Permission
project_create = "project:create"

abbrev pub org_user_create : Permission
org_user_create = "org:user-create"

abbrev pub org_user_read : Permission
org_user_read = "org:user-read"

abbrev pub custom_role_create : Permission
custom_role_create = "custom-role:create"

abbrev pub custom_role_read : Permission
custom_role_read = "custom-role:read"

abbrev pub custom_role_update : Permission
custom_role_update = "custom-role:update"

abbrev pub custom_role_delete : Permission
custom_role_delete = "custom-role:delete"

abbrev pub custom_role_assign_project : Permission
custom_role_assign_project = "custom-role:assign-project"

abbrev pub custom_role_unassign_project : Permission
custom_role_unassign_project = "custom-role:unassign-project"

abbrev pub custom_role_assign_org : Permission
custom_role_assign_org = "custom-role:assign-org"

abbrev pub custom_role_unassign_org : Permission
custom_role_unassign_org = "custom-role:unassign-org"

abbrev pub custom_role_read_project_assignments : Permission
custom_role_read_project_assignments = "custom-role:read-project-assignments"

abbrev pub custom_role_read_org_assignments : Permission
custom_role_read_org_assignments = "custom-role:read-org-assignments"

unfoldable pub all_permissions : List Permission
all_permissions =
    user_read ∷ user_create ∷ user_update ∷ system_role_read ∷ system_role_assign
    ∷ system_role_unassign ∷ project_discover_all ∷ org_create ∷ project_create ∷ org_user_create
    ∷ org_user_read ∷ custom_role_create ∷ custom_role_read ∷ custom_role_update
    ∷ custom_role_delete ∷ custom_role_assign_project ∷ custom_role_unassign_project
    ∷ custom_role_assign_org ∷ custom_role_unassign_org ∷ custom_role_read_project_assignments
    ∷ custom_role_read_org_assignments ∷ []

unfoldable pub system_only_permissions : List Permission
system_only_permissions =
    user_read ∷ user_create ∷ user_update ∷ system_role_read ∷ system_role_assign
    ∷ system_role_unassign ∷ project_discover_all ∷ []

unfoldable pub permissions_assignable_to_custom_roles : List Permission
permissions_assignable_to_custom_roles =
    custom_role_create ∷ custom_role_read ∷ custom_role_update ∷ custom_role_delete
    ∷ custom_role_assign_project ∷ custom_role_unassign_project ∷ custom_role_assign_org
    ∷ custom_role_unassign_org ∷ custom_role_read_project_assignments
    ∷ custom_role_read_org_assignments ∷ org_create ∷ project_create ∷ org_user_create
    ∷ org_user_read ∷ []

unfoldable pub organization_admin_permissions : List Permission
organization_admin_permissions =
    project_create ∷ org_user_create ∷ org_user_read ∷ custom_role_create ∷ custom_role_read
    ∷ custom_role_update ∷ custom_role_delete ∷ custom_role_assign_project
    ∷ custom_role_unassign_project ∷ custom_role_assign_org ∷ custom_role_unassign_org
    ∷ custom_role_read_project_assignments ∷ custom_role_read_org_assignments ∷ []

-- The two case lists of the `switch` in PermissionAssignmentScope.
abbrev pub organization_cases : List Permission
organization_cases =
    custom_role_create ∷ custom_role_read ∷ custom_role_update ∷ custom_role_delete
    ∷ custom_role_assign_org ∷ custom_role_unassign_org ∷ custom_role_read_org_assignments
    ∷ project_create ∷ org_user_create ∷ org_user_read ∷ []

abbrev pub project_cases : List Permission
project_cases =
    custom_role_assign_project ∷ custom_role_unassign_project ∷ custom_role_read_project_assignments
    ∷ org_create ∷ []

unfoldable pub permission_assignment_scope : Permission → Option AssignmentScope
permission_assignment_scope p =
    if contains system_only_permissions p
    then some system
    else if contains organization_cases p
    then some organization
    else if contains project_cases p
    then some project
    else none

-- Go's `max` on the scopes' numbers.
abbrev pub max_scope : AssignmentScope → AssignmentScope → AssignmentScope
max_scope s t = if ltb (rank s) (rank t) then t else s

-- One round of the loop of MinimumAssignmentScope.
abbrev pub broaden : AssignmentScope → Option AssignmentScope → Option AssignmentScope
broaden s none = none
broaden s (some t) = some (max_scope s t)

unfoldable pub broadest_scope : AssignmentScope → List Permission → Option AssignmentScope
broadest_scope scope [] = some scope
broadest_scope scope (p ∷ ps) = elim (broaden scope (permission_assignment_scope p)) [
  | none ↦ none
  | some scope' ↦ broadest_scope scope' ps
]

unfoldable pub minimum_assignment_scope : List Permission → Option AssignmentScope
unfolding broadest_scope
minimum_assignment_scope ps = broadest_scope project ps

-- The closure that CustomRolePermissionDescriptors maps over the registry.
abbrev pub describe : Permission → Option AssignmentScope → Option PermissionDescriptor
describe p none = none
describe p (some s) = some (record { permission = p; minimum_assignment_scope = s })

-- A panic in one round ends the whole map.
abbrev pub append_to {ℓ} : {A : Type ℓ} → Option A → Option (List A) → Option (List A)
append_to (some x) (some xs) = some (x ∷ xs)
append_to _ _ = none

unfoldable pub describe_all : List Permission → Option (List PermissionDescriptor)
describe_all [] = some []
describe_all (p ∷ ps) = append_to (describe p (permission_assignment_scope p)) (describe_all ps)

unfoldable pub custom_role_permission_descriptors : Option (List PermissionDescriptor)
unfolding describe_all
custom_role_permission_descriptors = describe_all permissions_assignable_to_custom_roles

unfoldable pub is_permission_superset : List Permission → List Permission → Bool
unfolding is_superset from_slice
is_permission_superset held required = is_superset (from_slice held) (from_slice required)
