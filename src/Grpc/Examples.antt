-- ===== src/Grpc/Examples.antt =====
-- Requests, and the theorems of the service at them.
use theapp.Prelude.{
  ℕ, ◌≡◌, ◌↔◌, true, ◌⊎◌, refl, none, some, [], ◌∷◌, ◌==◌, string_comparable, if◌then◌else◌,
  contains, nat_comparable,
}
use theapp.Permission.{user_read, all_permissions, system_only_permissions}
use theapp.Errors.{Error, err, status, not_found, sentinel}
use theapp.Status.{internal}
use theapp.Action.{fail}
use theapp.Session.{nil_uuid}
use theapp.Role
use theapp.Role.{validate_create, validate_modify}
use theapp.Text.{trim_space}
use theapp.Grpc.{RoleInput, UpdateRoleRequest, ModifyRolePermissionsRequest, Uuids}
use theapp.Grpc.Permissions.{
  permission_to_pb, permission_from_pb, permissions_from_pb, permission_from_pb_map,
}
use theapp.Grpc.Permissions.Laws.{permission_roundtrip}
use theapp.Grpc.RoleConv.{create_custom_role_from_pb, modify_custom_role_permissions_from_pb}
use theapp.Grpc.Validate
use theapp.Grpc.Validate.{
  mask_violations, name_violations, permission_violations, overlap_violations,
}
use theapp.Grpc.Validate.Laws.{create_requests_agree}
use theapp.Grpc.Validate.Modify.{modify_requests_agree}
use theapp.Grpc.RoleService.{CustomRoleCore, update_role}
use theapp.Grpc.RoleService.Laws.{unknown_permissions_are_internal}
use theapp.Server.Interceptors.{external_error}

abbrev uuids : Uuids
uuids = record {
  parse = λ s. if s == "five" then some 5 else if s == "nine" then some 9 else none;
  text = λ n. "five";
}

registered : contains all_permissions user_read ≡ true
unfolding contains all_permissions
registered = refl

permission_roundtrip_example :
    (n : ℕ) × (permission_to_pb user_read ≡ some n) × (permission_from_pb n ≡ some user_read)
permission_roundtrip_example = permission_roundtrip user_read registered

number_one : permission_from_pb 1 ≡ some user_read
unfolding permission_from_pb permission_from_pb_map
number_one = refl

abbrev editor : RoleInput
editor = record { id = "five"; name = "editor"; permissions = 8 ∷ []; etag = "nine" }

create_requests_agree_example :
    (Validate.create_role (some (record { role = some editor })) ≡ none) ↔ (
      (cr : Role.CreateCustomRole) × (create_custom_role_from_pb editor ≡ some cr)
      × (validate_create cr ≡ none))
create_requests_agree_example = create_requests_agree editor

abbrev swap : ModifyRolePermissionsRequest
swap = record { id = "five"; add_permissions = 8 ∷ []; remove_permissions = 7 ∷ []; etag = "nine" }

swap_passes : Validate.modify_role_permissions uuids (some swap) ≡ none
unfolding Validate.modify_role_permissions overlap_violations permission_violations contains
    permission_from_pb permission_from_pb_map system_only_permissions
swap_passes = refl

modify_requests_agree_example :
    (mrp : Role.ModifyCustomRolePermissions) × (modify_custom_role_permissions_from_pb uuids swap 5
      ≡ some mrp)
    × (uuids.parse swap.etag ≡ some mrp.etag)
    × ((validate_modify mrp ≡ none) ⊎ (uuids.parse swap.etag ≡ some nil_uuid))
modify_requests_agree_example = modify_requests_agree uuids swap 5 swap_passes

-- A core that finds nothing.
abbrev core : CustomRoleCore ℕ
core = record {
  custom_roles = λ ctx size offset. fail (sentinel not_found);
  user_project_custom_roles = λ ctx id size offset. fail (sentinel not_found);
  user_org_custom_roles = λ ctx id size offset. fail (sentinel not_found);
  custom_role_by_id = λ ctx id. fail (sentinel not_found);
  create_custom_role = λ ctx cr. fail (sentinel not_found);
  update_custom_role = λ ctx ur. fail (sentinel not_found);
  modify_custom_role_permissions = λ ctx mrp. fail (sentinel not_found);
  delete_custom_role = λ ctx id. fail (sentinel not_found);
  assign_custom_role_to_project = λ ctx user_id role_id. fail (sentinel not_found);
  unassign_custom_role_from_project = λ ctx user_id role_id. fail (sentinel not_found);
  assign_custom_role_to_org = λ ctx user_id role_id. fail (sentinel not_found);
  unassign_custom_role_from_org = λ ctx user_id role_id. fail (sentinel not_found);
}

-- The mask names the name only, and the permissions hold a number that stands for none.
abbrev renaming : RoleInput
renaming = record { id = "five"; name = "writer"; permissions = 99 ∷ []; etag = "nine" }

abbrev renaming_request : UpdateRoleRequest
renaming_request = record { role = some renaming; update_mask = "name" ∷ [] }

renaming_passes : Validate.update_role uuids (some renaming_request) ≡ none
unfolding Validate.update_role mask_violations name_violations contains trim_space
renaming_passes = refl

renaming_unknown : permissions_from_pb renaming.permissions ≡ none
unfolding permissions_from_pb permission_from_pb permission_from_pb_map
renaming_unknown = refl

unknown_permissions_are_internal_example :
    (e : Error) × (update_role uuids core none (some renaming_request) 0 ≡ (err e, 0))
    × (external_error e ≡ status internal)
unknown_permissions_are_internal_example =
    unknown_permissions_are_internal uuids core none renaming ("name" ∷ []) 0 renaming_passes
      renaming_unknown
