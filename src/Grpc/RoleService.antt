-- ===== src/Grpc/RoleService.antt =====
-- backend/internal/api/grpc/custom_role.go: the handlers of the role service, less those that page.
pub mod Laws
use theapp.Prelude.{ℕ, String, Option, none, some, List, if◌then◌else◌}
use theapp.Errors.{
  Error, Sentinel, is, message, wrapped, status, not_found, already_exists, etag_mismatch,
  permission_denied, managed_role, invalid_assignment_scope, validation,
}
use theapp.Status
use theapp.Status.{GrpcCode}
use theapp.Action.{Action, ◌>>=◌, ◌>>◌, ◌on_error◌, pure, fail, or_panic, panic, done}
use theapp.Session.{Uuid, AuthSession}
use theapp.Role
use theapp.Grpc.{
  RoleInput, RoleOutput, CreateRoleRequest, UpdateRoleRequest, ModifyRolePermissionsRequest,
  RoleIdRequest, AssignmentRequest, Uuids,
}
use theapp.Grpc.RoleConv.{
  custom_role_to_pb, create_custom_role_from_pb, update_custom_role_from_pb,
  modify_custom_role_permissions_from_pb,
}
use theapp.Grpc.Statuses.{
  create_error, get_error, update_error, modify_error, delete_error, assign_to_project_error,
  assign_to_organization_error, unassign_error,
}
use theapp.Grpc.Validate

-- CustomRoleCore. A context carries the session; a page is asked for by its size and its offset.
pub record CustomRoleCore (W : Type 0) : Type 0 where
  pub custom_roles : Option AuthSession → ℕ → ℕ → Action W (List Role.CustomRole × ℕ)
  pub user_project_custom_roles :
      Option AuthSession → Uuid → ℕ → ℕ → Action W (List Role.CustomRole × ℕ)
  pub user_org_custom_roles :
      Option AuthSession → Uuid → ℕ → ℕ → Action W (List Role.CustomRole × ℕ)
  pub custom_role_by_id : Option AuthSession → Uuid → Action W Role.CustomRole
  pub create_custom_role : Option AuthSession → Role.CreateCustomRole → Action W Role.CustomRole
  pub update_custom_role : Option AuthSession → Role.UpdateCustomRole → Action W Role.CustomRole
  pub modify_custom_role_permissions :
      Option AuthSession → Role.ModifyCustomRolePermissions → Action W Role.CustomRole
  pub delete_custom_role : Option AuthSession → Uuid → Action W Unit
  pub assign_custom_role_to_project : Option AuthSession → Uuid → Uuid → Action W Unit
  pub unassign_custom_role_from_project : Option AuthSession → Uuid → Uuid → Action W Unit
  pub assign_custom_role_to_org : Option AuthSession → Uuid → Uuid → Action W Unit
  pub unassign_custom_role_from_org : Option AuthSession → Uuid → Uuid → Action W Unit

-- if err := validate.…(req); err != nil { return nil, fmt.Errorf("m: %w", err) }
abbrev pub check_request : {W : Type 0} → String → Option Error → Action W Unit
check_request m none = done
check_request m (some e) = fail (wrapped m e)

-- The value that is there after validation, or an error.
abbrev pub or_fail : {W A : Type 0} → Error → Option A → Action W A
or_fail e (some a) = pure a
or_fail e none = fail e

module _ {W : Type 0} (uuid : Uuids) (core : CustomRoleCore W) (ctx : Option AuthSession) where
  abbrev answer : Action W Role.CustomRole → Action W RoleOutput
  answer m = m >>= λ role. or_panic (custom_role_to_pb uuid role)

  abbrev role_of_create : Option CreateRoleRequest → Option RoleInput
  role_of_create none = none
  role_of_create (some req) = req.role

  abbrev create_from : Option RoleInput → Option Role.CreateCustomRole
  create_from none = none
  create_from (some role) = create_custom_role_from_pb role

  -- CreateRole
  unfoldable pub create_role : Option CreateRoleRequest → Action W RoleOutput
  unfolding Validate.create_role create_custom_role_from_pb custom_role_to_pb
  create_role req = do
    check_request "validate create role request" (Validate.create_role req)
    cr ←
        or_fail (message "validated role contains an unknown permission")
          (create_from (role_of_create req))
    answer (core.create_custom_role ctx cr on_error create_error)

  -- uuid.MustParse(req.GetId())
  abbrev must_parse_id : Option RoleIdRequest → Action W Uuid
  must_parse_id none = or_panic (uuid.parse "")
  must_parse_id (some req) = or_panic (uuid.parse req.id)

  -- GetRole
  unfoldable pub get_role : Option RoleIdRequest → Action W RoleOutput
  unfolding Validate.role_id custom_role_to_pb
  get_role req = do
    check_request "validate get role request" (Validate.role_id uuid req)
    id ← must_parse_id req
    answer (core.custom_role_by_id ctx id on_error get_error)

  abbrev update_from : Option RoleInput → List String → Action W Role.UpdateCustomRole
  update_from none paths = panic
  update_from (some role) paths = do
    id ← or_panic (uuid.parse role.id)
    or_fail (wrapped "convert validated update role request" (message "unknown permission or etag"))
        (update_custom_role_from_pb uuid role paths id)

  -- What the handler converts: an absent role has the zero values, and no UUID.
  abbrev update_of : Option UpdateRoleRequest → Action W Role.UpdateCustomRole
  update_of none = panic
  update_of (some req) = update_from req.role req.update_mask

  -- UpdateRole
  unfoldable pub update_role : Option UpdateRoleRequest → Action W RoleOutput
  unfolding Validate.update_role update_custom_role_from_pb custom_role_to_pb
  update_role req = do
    check_request "validate update role request" (Validate.update_role uuid req)
    ur ← update_of req
    answer (core.update_custom_role ctx ur on_error update_error)

  abbrev modify_of : Option ModifyRolePermissionsRequest → Action W Role.ModifyCustomRolePermissions
  modify_of none = panic
  modify_of (some req) = do
    id ← or_panic (uuid.parse req.id)
    or_fail
        (wrapped "convert validated modify role permissions request"
          (message "unknown permission or etag"))
        (modify_custom_role_permissions_from_pb uuid req id)

  -- ModifyRolePermissions
  unfoldable pub modify_role_permissions : Option ModifyRolePermissionsRequest → Action W RoleOutput
  unfolding Validate.modify_role_permissions modify_custom_role_permissions_from_pb
      custom_role_to_pb
  modify_role_permissions req = do
    check_request "validate modify role permissions request"
        (Validate.modify_role_permissions uuid req)
    mrp ← modify_of req
    answer (core.modify_custom_role_permissions ctx mrp on_error modify_error)

  -- DeleteRole
  unfoldable pub delete_role : Option RoleIdRequest → Action W Unit
  unfolding Validate.role_id
  delete_role req = do
    check_request "validate delete role request" (Validate.role_id uuid req)
    id ← must_parse_id req
    core.delete_custom_role ctx id on_error delete_error

  -- The ids of a request that assigns a role: the user's and the role's, the role's parsed first.
  abbrev assignment_ids : Option AssignmentRequest → Action W (Uuid × Uuid)
  assignment_ids none = or_panic none
  assignment_ids (some req) = do
    role_id ← or_panic (uuid.parse req.role_id)
    user_id ← or_panic (uuid.parse req.user_id)
    pure (user_id, role_id)

  -- AssignRoleToProject
  unfoldable pub assign_role_to_project : Option AssignmentRequest → Action W Unit
  unfolding Validate.role_assignment
  assign_role_to_project req = do
    check_request "validate assign role to project request" (Validate.role_assignment uuid req)
    (user_id, role_id) ← assignment_ids req
    core.assign_custom_role_to_project ctx user_id role_id on_error assign_to_project_error

  -- UnassignRoleFromProject
  unfoldable pub unassign_role_from_project : Option AssignmentRequest → Action W Unit
  unfolding Validate.role_assignment
  unassign_role_from_project req = do
    check_request "validate unassign role from project request" (Validate.role_assignment uuid req)
    (user_id, role_id) ← assignment_ids req
    core.unassign_custom_role_from_project ctx user_id role_id
        on_error unassign_error "unassign role from project"

  -- AssignRoleToOrganization
  unfoldable pub assign_role_to_organization : Option AssignmentRequest → Action W Unit
  unfolding Validate.role_assignment
  assign_role_to_organization req = do
    check_request "validate assign role to organization request" (Validate.role_assignment uuid req)
    (user_id, role_id) ← assignment_ids req
    core.assign_custom_role_to_org ctx user_id role_id on_error assign_to_organization_error

  -- UnassignRoleFromOrganization
  unfoldable pub unassign_role_from_organization : Option AssignmentRequest → Action W Unit
  unfolding Validate.role_assignment
  unassign_role_from_organization req = do
    check_request "validate unassign role from organization request"
        (Validate.role_assignment uuid req)
    (user_id, role_id) ← assignment_ids req
    core.unassign_custom_role_from_org ctx user_id role_id
        on_error unassign_error "unassign role from organization"
