-- ===== src/Grpc/RoleService/Laws.antt =====
-- What the handlers make of requests that the validation lets pass.
use theapp.Prelude.{◌≡◌, refl, String, Option, none, some, List, string_comparable}
use theapp.Errors.{Error, err, message, wrapped, status}
use theapp.Status.{internal}
use theapp.Action.{◌>>=◌, or_panic, fail, pure}
use theapp.Session.{Uuid, AuthSession}
use theapp.Grpc.{RoleInput, Uuids}
use theapp.Grpc.Permissions.{permissions_from_pb}
use theapp.Grpc.RoleConv.{update_custom_role_from_pb}
use theapp.Grpc.RoleService.{CustomRoleCore, update_role}
use theapp.Grpc.Validate
use theapp.Grpc.Validate.{
  valid_uuid, mask_violations, name_violations, permission_violations, when, unless_empty,
}
use theapp.Grpc.Validate.Modify.{or_next-none, valid_uuid-none}
use theapp.Server.Interceptors.{external_error}

-- A request that passes names a role that can be parsed.
accepted_id :
    (uuid : Uuids) (role : RoleInput) (paths : List String)
    → Validate.update_role uuid (some (record { role = some role; update_mask = paths })) ≡ none
    → (id : Uuid) × (uuid.parse role.id ≡ some id)
unfolding Validate.update_role
accepted_id uuid role paths h =
    valid_uuid-none (uuid.parse role.id) (or_next-none (valid_uuid (uuid.parse role.id)) _ h).0

no_update :
    (uuid : Uuids) (role : RoleInput) (paths : List String) (id : Uuid)
    → permissions_from_pb role.permissions ≡ none
    → update_custom_role_from_pb uuid role paths id ≡ none
unfolding update_custom_role_from_pb
no_update uuid role paths id unknown = cc unknown

-- An update that passes the validation, but lists a permission that has no number in the registry, is
-- answered with an internal error, and changes nothing: also where the mask leaves the permissions
-- out, so that the validation does not look at them.
pub unknown_permissions_are_internal :
    {W : Type 0} (uuid : Uuids) (core : CustomRoleCore W) (ctx : Option AuthSession)
    (role : RoleInput) (paths : List String) (w : W)
    → Validate.update_role uuid (some (record { role = some role; update_mask = paths })) ≡ none
    → permissions_from_pb role.permissions ≡ none
    → (e : Error) × (update_role uuid core ctx
          (some (record { role = some role; update_mask = paths }))
          w
        ≡ (err e, w))
      × (external_error e ≡ status internal)
unfolding update_role ◌>>=◌ or_panic fail pure external_error
unknown_permissions_are_internal uuid core ctx role paths w passed unknown =
    let (id, parsed) = accepted_id uuid role paths passed in
    (
      wrapped "convert validated update role request" (message "unknown permission or etag"),
      cc (passed, parsed, no_update uuid role paths id unknown),
      refl,
    )
