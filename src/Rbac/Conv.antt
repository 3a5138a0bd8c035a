-- ===== src/Rbac/Conv.antt =====
-- backend/internal/core/rbac/conv.go: between the rows of the store and the model.
pub mod Laws
use theapp.Prelude.{
  ℕ, String, Option, none, some, List, [], ◌∷◌, ◌==◌, string_comparable, if◌then◌else◌,
}
use theapp.Slices
use theapp.Permission.{Permission, append_to}
use theapp.Pgrbac
use theapp.Role
use theapp.Role.{RoleKind, custom, organization_admin, managed_role_key_organization_admin}

-- A Go conversion between the string types Permission and string.
unfoldable pub permissions_from_pg : List String → List Permission
unfolding Slices.map
permissions_from_pg names = Slices.map names (λ n. n)

unfoldable pub permissions_to_pg : List Permission → List String
unfolding Slices.map
permissions_to_pg permissions = Slices.map permissions (λ p. p)

-- The `switch` on the managed key; its default panics.
abbrev pub kind_of : Option String → Option RoleKind
kind_of none = some custom
kind_of (some key) =
    if key == managed_role_key_organization_admin then some organization_admin else none

abbrev pub with_kind : Pgrbac.CustomRole → Option RoleKind → Option Role.CustomRole
with_kind r none = none
with_kind r (some kind) = some (record {
  id = r.external_id;
  name = r.name;
  kind = kind;
  permissions = permissions_from_pg r.permission_names;
  created_at = r.created_at;
  updated_at = r.updated_at;
  etag = r.etag;
})

unfoldable pub custom_role_from_pg : Pgrbac.CustomRole → Option Role.CustomRole
unfolding permissions_from_pg
custom_role_from_pg r = with_kind r (kind_of r.managed_key)

-- A panic on one row ends the whole map.
unfoldable pub custom_roles_from_pg : List Pgrbac.CustomRole → Option (List Role.CustomRole)
unfolding custom_role_from_pg
custom_roles_from_pg [] = some []
custom_roles_from_pg (r ∷ rs) = append_to (custom_role_from_pg r) (custom_roles_from_pg rs)

unfoldable pub create_custom_role_to_pg : Role.CreateCustomRole → ℕ → Pgrbac.CreateCustomRole
unfolding permissions_to_pg
create_custom_role_to_pg cr org_id = record {
  org_id = org_id;
  name = cr.name;
  permission_names = permissions_to_pg cr.permissions;
}

unfoldable pub update_custom_role_to_pg : Role.UpdateCustomRole → ℕ → Pgrbac.UpdateCustomRole
unfolding permissions_to_pg
update_custom_role_to_pg ur org_id = record {
  org_id = org_id;
  external_id = ur.id;
  etag = ur.etag;
  fields = record { name = ur.fields.name; permission_names = ur.fields.permissions };
  name = ur.name;
  permission_names = permissions_to_pg ur.permissions;
}

unfoldable pub modify_custom_role_permissions_to_pg :
    Role.ModifyCustomRolePermissions → ℕ → Pgrbac.ModifyCustomRolePermissions
unfolding permissions_to_pg
modify_custom_role_permissions_to_pg mrp org_id = record {
  org_id = org_id;
  external_id = mrp.id;
  etag = mrp.etag;
  add_permission_names = permissions_to_pg mrp.add_permissions;
  remove_permission_names = permissions_to_pg mrp.remove_permissions;
}

unfoldable pub system_role_from_pg : Pgrbac.SystemRole → Role.SystemRole
unfolding permissions_from_pg
system_role_from_pg r = record {
  name = r.name;
  permissions = permissions_from_pg r.permission_names;
}

unfoldable pub system_roles_from_pg : List Pgrbac.SystemRole → List Role.SystemRole
unfolding Slices.map system_role_from_pg
system_roles_from_pg rs = Slices.map rs system_role_from_pg
