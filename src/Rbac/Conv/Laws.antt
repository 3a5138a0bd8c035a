-- ===== src/Rbac/Conv/Laws.antt =====
-- The conversions keep every field, and permissions are the names that the store keeps.
use theapp.Prelude.{ℕ, ◌≡◌, String, List, string_comparable}
use theapp.Slices.{map_id}
use theapp.Permission.{Permission}
use theapp.Role
use theapp.Rbac.Conv.{
  permissions_from_pg, permissions_to_pg, create_custom_role_to_pg, update_custom_role_to_pg,
  modify_custom_role_permissions_to_pg,
}

pub permissions_from_pg-same : (names : List String) → permissions_from_pg names ≡ names
unfolding permissions_from_pg
permissions_from_pg-same names = map_id names

permissions_to_pg-same :
    (permissions : List Permission) → permissions_to_pg permissions ≡ permissions
unfolding permissions_to_pg
permissions_to_pg-same permissions = map_id permissions

pub create_custom_role_to_pg_lem :
    (cr : Role.CreateCustomRole) (org_id : ℕ)
    → create_custom_role_to_pg cr org_id
      ≡ record { org_id = org_id; name = cr.name; permission_names = cr.permissions }
unfolding create_custom_role_to_pg
create_custom_role_to_pg_lem cr org_id = cc (permissions_to_pg-same cr.permissions)

pub update_custom_role_to_pg_lem :
    (ur : Role.UpdateCustomRole) (org_id : ℕ)
    → update_custom_role_to_pg ur org_id ≡ record {
      org_id = org_id;
      external_id = ur.id;
      etag = ur.etag;
      fields = record { name = ur.fields.name; permission_names = ur.fields.permissions };
      name = ur.name;
      permission_names = ur.permissions;
    }
unfolding update_custom_role_to_pg
update_custom_role_to_pg_lem ur org_id = cc (permissions_to_pg-same ur.permissions)

pub modify_custom_role_permissions_to_pg_lem :
    (mrp : Role.ModifyCustomRolePermissions) (org_id : ℕ)
    → modify_custom_role_permissions_to_pg mrp org_id ≡ record {
      org_id = org_id;
      external_id = mrp.id;
      etag = mrp.etag;
      add_permission_names = mrp.add_permissions;
      remove_permission_names = mrp.remove_permissions;
    }
unfolding modify_custom_role_permissions_to_pg
modify_custom_role_permissions_to_pg_lem mrp org_id =
    cc (permissions_to_pg-same mrp.add_permissions, permissions_to_pg-same mrp.remove_permissions)
