-- ===== src/Role/Examples.antt =====
-- Requests that change a role.
use theapp.Prelude.{◌≡◌, ◌≢◌, ◌↔◌, true, none, [], ◌∷◌, ◌++◌}
use theapp.Permission.{user_read, org_create, project_create}
use theapp.Session.{nil_uuid}
use theapp.Role.{CreateCustomRole, UpdateCustomRole, ModifyCustomRolePermissions, validate_modify}
use theapp.Role.Laws.{IsCustomOnly, AreDisjoint, validate_modify_iff}

abbrev creation : CreateCustomRole
creation = record { name = " Reader"; permissions = org_create ∷ [] }

abbrev update : UpdateCustomRole
update = record {
  id = 7;
  etag = 70;
  fields = record { name = true; permissions = true };
  name = "Reader";
  permissions = user_read ∷ [];
}

abbrev modification : ModifyCustomRolePermissions
modification = record {
  id = 7;
  etag = 70;
  add_permissions = org_create ∷ [];
  remove_permissions = project_create ∷ [];
}

validate_modify_iff_example : (validate_modify modification ≡ none) ↔ (
    (modification.etag ≢ nil_uuid)
    × AreDisjoint modification.add_permissions modification.remove_permissions
    × IsCustomOnly (modification.add_permissions ++ modification.remove_permissions))
validate_modify_iff_example = validate_modify_iff modification
