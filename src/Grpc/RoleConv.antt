-- ===== src/Grpc/RoleConv.antt =====
-- backend/internal/api/grpc/internal/conv/custom_role.go
use theapp.Prelude.{ℕ, String, Option, none, some, List, contains, string_comparable}
use theapp.Permission.{Permission, AssignmentScope}
use theapp.Session.{Uuid}
use theapp.Role
use theapp.Role.{RoleKind, custom, organization_admin, role_minimum_assignment_scope}
use theapp.Grpc.{RoleInput, RoleOutput, ModifyRolePermissionsRequest, Uuids}
use theapp.Grpc.Permissions.{permissions_to_pb, permissions_from_pb, assignment_scope_to_pb}

-- roleKindToPB
abbrev pub role_kind_to_pb : RoleKind → ℕ
role_kind_to_pb custom = 1
role_kind_to_pb organization_admin = 2

abbrev role_message :
    Uuids → Role.CustomRole → Option (List ℕ) → Option AssignmentScope → Option RoleOutput
role_message uuid r (some permissions) (some scope) = some (record {
  id = uuid.text r.id;
  name = r.name;
  permissions = permissions;
  kind = role_kind_to_pb r.kind;
  minimum_assignment_scope = assignment_scope_to_pb scope;
  create_time = r.created_at;
  update_time = r.updated_at;
  etag = uuid.text r.etag;
})
role_message uuid r _ _ = none

-- CustomRoleToPB; a panic is `none`.
unfoldable pub custom_role_to_pb : Uuids → Role.CustomRole → Option RoleOutput
unfolding permissions_to_pb role_minimum_assignment_scope
custom_role_to_pb uuid r =
    role_message uuid r (permissions_to_pb r.permissions) (role_minimum_assignment_scope r)

-- CreateCustomRoleFromPB; an error is `none`, as in the next two.
unfoldable pub create_custom_role_from_pb : RoleInput → Option Role.CreateCustomRole
unfolding permissions_from_pb
create_custom_role_from_pb role = elim (permissions_from_pb role.permissions) [
  | none ↦ none
  | some permissions ↦ some (record { name = role.name; permissions = permissions })
]

abbrev update_with :
    RoleInput
    → List String
    → Uuid
    → Option (List Permission)
    → Option Uuid
    → Option Role.UpdateCustomRole
update_with role paths id (some permissions) (some etag) = some (record {
  id = id;
  etag = etag;
  fields = record { name = contains paths "name"; permissions = contains paths "permissions" };
  name = role.name;
  permissions = permissions;
})
update_with role paths id _ _ = none

-- UpdateCustomRoleFromPB
unfoldable pub update_custom_role_from_pb :
    Uuids → RoleInput → List String → Uuid → Option Role.UpdateCustomRole
unfolding permissions_from_pb contains
update_custom_role_from_pb uuid role paths id =
    update_with role paths id (permissions_from_pb role.permissions) (uuid.parse role.etag)

abbrev modify_with :
    Uuid
    → Option (List Permission)
    → Option (List Permission)
    → Option Uuid
    → Option Role.ModifyCustomRolePermissions
modify_with id (some add) (some remove) (some etag) =
    some (record { id = id; etag = etag; add_permissions = add; remove_permissions = remove })
modify_with id _ _ _ = none

-- ModifyCustomRolePermissionsFromPB
unfoldable pub modify_custom_role_permissions_from_pb :
    Uuids → ModifyRolePermissionsRequest → Uuid → Option Role.ModifyCustomRolePermissions
unfolding permissions_from_pb
modify_custom_role_permissions_from_pb uuid req id =
    modify_with id (permissions_from_pb req.add_permissions)
      (permissions_from_pb req.remove_permissions) (uuid.parse req.etag)
