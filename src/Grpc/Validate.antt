-- ===== src/Grpc/Validate.antt =====
-- backend/internal/api/grpc/internal/validate/validate.go and custom_role.go: the tests of the requests of
-- the role service, less those that page. `none` is a nil error; of a violation the field is kept.
pub mod Laws
pub mod Modify
use theapp.Prelude.{
  ℕ, suc, String, Bool, not, Option, none, some, List, [], ◌∷◌, ◌++◌, ◌==◌, string_comparable,
  nat_comparable, contains, if◌then◌else◌,
}
use theapp.Errors.{Error, status}
use theapp.Status.{GrpcCode, invalid_argument}
use theapp.Permission.{Permission, system_only_permissions}
use theapp.Text.{trim_space}
use theapp.Grpc.{
  RoleInput, CreateRoleRequest, UpdateRoleRequest, ModifyRolePermissionsRequest, RoleIdRequest,
  AssignmentRequest, Uuids,
}
use theapp.Grpc.Permissions.{permission_from_pb}

-- A field, with the index where it repeats.
pub record Violation : Type 0 where
  pub field : String
  pub index : Option ℕ

abbrev pub violation : String → Violation
violation field = record { field = field; index = none }

abbrev pub violation_at : String → ℕ → Violation
violation_at field i = record { field = field; index = some i }

-- invalidArgument, whatever the violations, and requiredRequest
abbrev pub refused : Option Error
refused = some (status invalid_argument)

-- if len(violations) > 0 { return invalidArgument(violations...) }
abbrev pub unless_empty : List Violation → Option Error
unless_empty [] = none
unless_empty (_ ∷ _) = refused

-- validUUID
abbrev pub valid_uuid : {A : Type 0} → Option A → Option Error
valid_uuid none = refused
valid_uuid (some _) = none

-- if err := …; err != nil { return err }
abbrev pub or_next : Option Error → Option Error → Option Error
or_next none next = next
or_next (some e) next = some e

abbrev pub when : Bool → List Violation → List Violation
when b vs = if b then vs else []

-- The two tests of a role's name.
unfoldable pub name_violations : String → List Violation
unfolding trim_space
name_violations name =
    let trimmed_name = trim_space name in
    if trimmed_name == ""
    then violation "role.name" ∷ []
    else when (not (trimmed_name == name)) (violation "role.name" ∷ [])

abbrev pub permission_violation : String → ℕ → Option Permission → List Violation
permission_violation field i none = violation_at field i ∷ []
permission_violation field i (some p) =
    when (contains system_only_permissions p) (violation_at field i ∷ [])

-- permissionViolations, from an index on.
unfoldable pub permission_violations : String → ℕ → List ℕ → List Violation
unfolding permission_from_pb contains system_only_permissions
permission_violations field i [] = []
permission_violations field i (perm ∷ perms) =
    permission_violation field i (permission_from_pb perm)
    ++ permission_violations field (suc i) perms

-- The loop over the permissions to add that are also to be removed.
unfoldable pub overlap_violations : List ℕ → ℕ → List ℕ → List Violation
unfolding contains
overlap_violations removed i [] = []
overlap_violations removed i (perm ∷ perms) =
    when (contains removed perm) (violation_at "add_permissions" i ∷ [])
    ++ overlap_violations removed (suc i) perms

-- The loop over the paths of the mask.
unfoldable pub mask_violations : List String → List Violation
unfolding contains
mask_violations [] = []
mask_violations (path ∷ paths) =
    when (not (contains ("name" ∷ "permissions" ∷ []) path)) (violation "update_mask" ∷ [])
    ++ mask_violations paths

-- CreateRole, of a request with a role.
unfoldable pub role_violations : RoleInput → List Violation
unfolding name_violations permission_violations
role_violations role =
    name_violations role.name ++ permission_violations "role.permissions" 0 role.permissions

abbrev create_role_input : Option RoleInput → Option Error
create_role_input none = refused
create_role_input (some role) = unless_empty (role_violations role)

-- CreateRole
unfoldable pub create_role : Option CreateRoleRequest → Option Error
unfolding role_violations
create_role none = refused
create_role (some req) = create_role_input req.role

abbrev some_paths : List String → Option Error
some_paths [] = refused
some_paths (_ ∷ _) = none

module _ (uuid : Uuids) where
  -- GetRole and DeleteRole
  unfoldable pub role_id : Option RoleIdRequest → Option Error
  role_id none = refused
  role_id (some req) = valid_uuid (uuid.parse req.id)

  abbrev update_role_input : Option RoleInput → List String → Option Error
  update_role_input none paths = refused
  update_role_input (some role) paths = or_next (valid_uuid (uuid.parse role.id)) (
      or_next (valid_uuid (uuid.parse role.etag)) (
        or_next (some_paths paths) (
          unless_empty (
            mask_violations paths
            ++ when (contains paths "name") (name_violations role.name)
            ++ when (contains paths "permissions")
                (permission_violations "role.permissions" 0 role.permissions)))))

  -- UpdateRole
  unfoldable pub update_role : Option UpdateRoleRequest → Option Error
  unfolding mask_violations name_violations permission_violations contains
  update_role none = refused
  update_role (some req) = update_role_input req.role req.update_mask

  -- ModifyRolePermissions
  unfoldable pub modify_role_permissions : Option ModifyRolePermissionsRequest → Option Error
  unfolding overlap_violations permission_violations
  modify_role_permissions none = refused
  modify_role_permissions (some req) = or_next (valid_uuid (uuid.parse req.id)) (
      or_next (valid_uuid (uuid.parse req.etag)) (
        unless_empty (
          overlap_violations req.remove_permissions 0 req.add_permissions
          ++ permission_violations "add_permissions" 0 req.add_permissions
          ++ permission_violations "remove_permissions" 0 req.remove_permissions)))

  abbrev uuid_violation : {A : Type 0} → String → Option A → List Violation
  uuid_violation field none = violation field ∷ []
  uuid_violation field (some _) = []

  -- roleAssignment, which the four requests that assign and unassign share.
  unfoldable pub role_assignment : Option AssignmentRequest → Option Error
  role_assignment none = refused
  role_assignment (some req) = unless_empty (
      uuid_violation "role_id" (uuid.parse req.role_id)
      ++ uuid_violation "user_id" (uuid.parse req.user_id))
