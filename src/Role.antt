-- ===== src/Role.antt =====
-- backend/internal/core/mdl/role.go: roles and the requests that change them. Validate returns `none`
-- for a nil error.
pub mod Laws
mod Examples
use Prim.Native.String.{◌++◌}
use theapp.Prelude.{
  ℕ, String, Bool, true, false, not, Option, none, some, List, [], ◌∷◌, ◌==◌, string_comparable,
  nat_beq, contains, if◌then◌else◌,
}
use mathlib.Core.List
use theapp.Set.{from_slice, intersection, len}
use theapp.Errors.{Error, wrapped, validation_error}
use theapp.Permission.{
  Permission, AssignmentScope, organization, system_only_permissions, minimum_assignment_scope,
}
use theapp.Session.{Uuid, Time, nil_uuid}
use theapp.Text.{trim_space}

pub record SystemRole : Type 0 where
  pub name : String
  pub permissions : List Permission

-- RoleKindCustom and RoleKindOrganizationAdmin
pub data RoleKind : Type 0 where
  custom organization_admin : RoleKind

pub record CustomRole : Type 0 where
  pub id : Uuid
  pub name : String
  pub kind : RoleKind
  pub permissions : List Permission
  pub created_at : Time
  pub updated_at : Option Time
  pub etag : Uuid

-- ManagedRoleKeyOrganizationAdmin
abbrev pub managed_role_key_organization_admin : String
managed_role_key_organization_admin = "organization_admin"

abbrev pub scope_of_kind : RoleKind → List Permission → Option AssignmentScope
scope_of_kind custom permissions = minimum_assignment_scope permissions
scope_of_kind organization_admin permissions = some organization

-- CustomRole.MinimumAssignmentScope
unfoldable pub role_minimum_assignment_scope : CustomRole → Option AssignmentScope
role_minimum_assignment_scope cr = scope_of_kind cr.kind cr.permissions

-- validateCustomRolePerms. The permission is in the registry where it is quoted, so %q puts it
-- between quotation marks and escapes nothing.
unfoldable pub validate_custom_role_perms : List Permission → Option Error
validate_custom_role_perms [] = none
validate_custom_role_perms (perm ∷ perms) =
    let rest = validate_custom_role_perms perms in
    if contains system_only_permissions perm
    then some (validation_error ("\"" ++ perm ++ "\" is system-only"))
    else rest

abbrev pub wrap_error : String → Option Error → Option Error
wrap_error m none = none
wrap_error m (some e) = some (wrapped m e)

-- The two tests of a role's name that the requests share.
unfoldable pub validate_role_name : String → Option Error
validate_role_name name =
    let trimmed_name = trim_space name in
    if trimmed_name == ""
    then some (validation_error "name required")
    else if not (trimmed_name == name)
    then some (validation_error "name must not have leading or trailing whitespace")
    else none

-- if err := …; err != nil { return err }
abbrev pub or_else : Option Error → Option Error → Option Error
or_else (some e) next = some e
or_else none next = next

pub record CreateCustomRole : Type 0 where
  pub name : String
  pub permissions : List Permission

unfoldable pub validate_create : CreateCustomRole → Option Error
unfolding validate_role_name
validate_create cr =
    or_else (validate_role_name cr.name)
      (wrap_error "validate permissions" (validate_custom_role_perms cr.permissions))

pub record CustomRoleUpdateFields : Type 0 where
  pub name : Bool
  pub permissions : Bool

pub record UpdateCustomRole : Type 0 where
  pub id : Uuid
  pub etag : Uuid
  pub fields : CustomRoleUpdateFields
  pub name : String
  pub permissions : List Permission

unfoldable pub validate_update : UpdateCustomRole → Option Error
unfolding validate_role_name
validate_update ur =
    if nat_beq ur.etag nil_uuid
    then some (validation_error "etag invalid")
    else or_else (if ur.fields.name then validate_role_name ur.name else none) (
        if ur.fields.permissions
        then wrap_error "validate permissions" (validate_custom_role_perms ur.permissions)
        else none)

pub record ModifyCustomRolePermissions : Type 0 where
  pub id : Uuid
  pub etag : Uuid
  pub add_permissions : List Permission
  pub remove_permissions : List Permission

unfoldable pub validate_modify : ModifyCustomRolePermissions → Option Error
validate_modify mrp =
    if nat_beq mrp.etag nil_uuid
    then some (validation_error "etag must be a valid UUID")
    else if not (
        nat_beq
          (len (intersection (from_slice mrp.add_permissions) (from_slice mrp.remove_permissions)))
          0)
    then some (validation_error "permission cannot be both added and removed")
    else wrap_error "validate permissions"
        (validate_custom_role_perms (List.◌++◌ mrp.add_permissions mrp.remove_permissions))
