-- ===== src/Permission/Registry.antt =====
-- The lists of the registry agree with one another and with the scopes.
use theapp.Prelude.{
  ◌≡◌, refl, ◌↔◌, Bool, true, false, ◌&&◌, ◌||◌, not, Option, none, some, string_comparable,
  contains, is_distinct, is_distinct_sound, IsDistinct, arith,
}
use theapp.Slices
use theapp.Slices.{all_sound}
use theapp.Permission.{
  Permission, AssignmentScope, system, all_permissions, system_only_permissions,
  permissions_assignable_to_custom_roles, organization_admin_permissions, organization_cases,
  project_cases, permission_assignment_scope,
}

abbrev has_scope : Option AssignmentScope → Bool
has_scope none = false
has_scope (some _) = true

abbrev is_system : Option AssignmentScope → Bool
is_system (some system) = true
is_system _ = false

all_pass : Slices.all all_permissions (λ p. has_scope (permission_assignment_scope p)) ≡ true
unfolding Slices.all all_permissions permission_assignment_scope contains system_only_permissions
all_pass = refl

system_pass : Slices.all system_only_permissions (contains all_permissions) ≡ true
unfolding Slices.all all_permissions contains system_only_permissions
system_pass = refl

organization_pass : Slices.all organization_cases (contains all_permissions) ≡ true
unfolding Slices.all all_permissions contains
organization_pass = refl

project_pass : Slices.all project_cases (contains all_permissions) ≡ true
unfolding Slices.all all_permissions contains
project_pass = refl

scope_of_has_scope :
    (o : Option AssignmentScope) → has_scope o ≡ true → (s : AssignmentScope) × (o ≡ some s)
scope_of_has_scope (some s) h = (s, refl)
scope_of_has_scope none h = cc

registered_of_scope :
    (p : Permission) (s : AssignmentScope)
    → permission_assignment_scope p ≡ some s
    → contains all_permissions p ≡ true
unfolding permission_assignment_scope
registered_of_scope p s h = ground (
  arith,
  all_sound system_only_permissions (contains all_permissions) p system_pass,
  all_sound organization_cases (contains all_permissions) p organization_pass,
  all_sound project_cases (contains all_permissions) p project_pass,
)

-- The scope of a permission is defined, with no panic, exactly when the permission is registered.
pub scope_defined_iff :
    (p : Permission)
    → (contains all_permissions p ≡ true)
      ↔ ((s : AssignmentScope) × (permission_assignment_scope p ≡ some s))
scope_defined_iff p = (
  λ h. scope_of_has_scope _ (all_sound all_permissions _ p all_pass h),
  λ h. registered_of_scope p h.0 h.1,
)

-- A permission has system scope exactly when it is system-only.
pub system_scope_iff :
    (p : Permission)
    → (permission_assignment_scope p ≡ some system) ↔ (contains system_only_permissions p ≡ true)
unfolding permission_assignment_scope
system_scope_iff p = (λ h. ground arith, λ h. ground arith)

assignable_pass :
    Slices.all all_permissions
      (λ p. contains system_only_permissions p || contains permissions_assignable_to_custom_roles p)
    ≡ true
unfolding Slices.all all_permissions contains system_only_permissions
    permissions_assignable_to_custom_roles
assignable_pass = refl

assignable_registered :
    Slices.all permissions_assignable_to_custom_roles
      (λ p. contains all_permissions p && not (contains system_only_permissions p))
    ≡ true
unfolding Slices.all all_permissions contains system_only_permissions
    permissions_assignable_to_custom_roles
assignable_registered = refl

-- The permissions that custom roles may hold are the registered ones that are not system-only.
pub assignable-eq :
    (p : Permission)
    → contains permissions_assignable_to_custom_roles p
      ≡ (contains all_permissions p && not (contains system_only_permissions p))
assignable-eq p = ground (
  arith,
  all_sound all_permissions _ p assignable_pass,
  all_sound permissions_assignable_to_custom_roles _ p assignable_registered,
)

-- No permission is registered twice.
pub all_permissions-IsDistinct : IsDistinct all_permissions
all_permissions-IsDistinct = is_distinct_sound all_permissions checked
  where
    checked : is_distinct all_permissions ≡ true
    checked = unfold is_distinct contains all_permissions in refl

admin_pass :
    Slices.all organization_admin_permissions (contains permissions_assignable_to_custom_roles)
    ≡ true
unfolding Slices.all contains organization_admin_permissions permissions_assignable_to_custom_roles
admin_pass = refl

-- What an organization administrator's role holds, a custom role may hold.
pub admin_assignable :
    (p : Permission)
    → contains organization_admin_permissions p ≡ true
    → contains permissions_assignable_to_custom_roles p ≡ true
admin_assignable p h = all_sound organization_admin_permissions _ p admin_pass h
