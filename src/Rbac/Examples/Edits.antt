-- ===== src/Rbac/Examples/Edits.antt =====
-- Runs of the methods that change the role.
use theapp.Prelude.{
  String, ◌≡◌, not, ◌&&◌, ◌||◌, refl, none, some, List, [], ◌∷◌, contains, string_comparable, true,
  false,
}
use theapp.Set.{
  is_superset, from_slice, has, holds_all, add, add_entries, store, values, symmetric_difference,
  difference, add_missing, union, clone, new, remove, remove_entries, delete, intersection,
  add_shared, len,
}
use theapp.Slices
use theapp.Slices.{all}
use theapp.Text.{trim_space, trim_left, trim_right, is_space}
use theapp.Errors.{ok}
use theapp.Action.{◌>>=◌, ◌on_error◌, pure, or_panic, guard}
use theapp.Permission.{
  Permission, is_permission_superset, minimum_assignment_scope, broadest_scope,
  permission_assignment_scope, system_only_permissions, custom_role_read_project_assignments,
  custom_role_assign_project,
}
use theapp.Pgrbac
use theapp.Role
use theapp.Role.{
  RoleKind, custom, validate_create, validate_update, validate_modify, validate_role_name,
  validate_custom_role_perms,
}
use theapp.Rbac.Conv.{
  permissions_from_pg, permissions_to_pg, custom_role_from_pg, create_custom_role_to_pg,
  update_custom_role_to_pg, modify_custom_role_permissions_to_pg,
}
use theapp.Rbac.Edit.{
  changed_perms, next_perms, custom_role_perm_change_context, validate_custom_role_assignment_scope,
  create_body, update_body, modify_body, delete_body, create_custom_role, update_custom_role,
  modify_custom_role_permissions, delete_custom_role,
}
use theapp.Rbac.Grants.Request.{Selected}
use theapp.Rbac.Grants.Changes.{RoleEdit}
use theapp.Rbac.Grants.Edits.{updates_are_held, modifications_are_held}
use theapp.Rbac.Grants.Owners.{Creation, Deletion, creations_are_held, deletions_are_held}
use theapp.Rbac.Examples.{Db, initial, auditor, with_permissions, session}
use theapp.Snapshots.{snapshots, snapshots-IsAtomic}
use theapp.Rbac.Examples as Examples

abbrev next_names : List String
next_names = custom_role_assign_project ∷ []

abbrev next_row : Pgrbac.CustomRole
next_row = with_permissions auditor next_names

abbrev next_role : Role.CustomRole
next_role = record {
  id = 7;
  name = "Auditor";
  kind = custom;
  permissions = next_names;
  created_at = 10;
  updated_at = some 20;
  etag = 71;
}

abbrev update : Role.UpdateCustomRole
update = record {
  id = 7;
  etag = 70;
  fields = record { name = false; permissions = true };
  name = "";
  permissions = next_names;
}

abbrev updated : Db
updated = record { role = next_row; holders = []; locks = 7 ∷ [] }

update_run :
    update_custom_role Examples.store snapshots (some session) update initial
    ≡ (ok next_role, updated)
unfolding update_custom_role update_body custom_role_perm_change_context
    validate_custom_role_assignment_scope changed_perms validate_update validate_role_name
    validate_custom_role_perms ◌>>=◌ ◌on_error◌ pure or_panic guard permissions_from_pg
    permissions_to_pg update_custom_role_to_pg custom_role_from_pg Slices.map is_permission_superset
    minimum_assignment_scope broadest_scope permission_assignment_scope system_only_permissions
    is_superset from_slice has holds_all all contains add add_entries store new values
    symmetric_difference difference add_missing union clone
update_run = refl

updates_are_held_example :
    (s : Selected (some session)) × (row : Pgrbac.CustomRole) × (validate_update update ≡ none)
    × (snapshots.run_tx Pgrbac.CustomRole
          (update_body Examples.store s.sess.user.user_id s.selected.id update)
          initial
        ≡ (ok row, updated))
    × RoleEdit Examples.store s.sess.user.user_id 7 s.selected.id
        (λ _. next_names)
        initial
        updated
        row
        (λ org_id. Examples.store.update_custom_role (record {
          org_id = org_id;
          external_id = update.id;
          etag = update.etag;
          fields = record {
            name = update.fields.name;
            permission_names = update.fields.permissions;
          };
          name = update.name;
          permission_names = update.permissions;
        }))
    × (custom_role_from_pg row ≡ some next_role)
updates_are_held_example =
    updates_are_held Examples.store snapshots snapshots-IsAtomic (some session) update initial
      updated next_role refl update_run

abbrev modification : Role.ModifyCustomRolePermissions
modification = record {
  id = 7;
  etag = 70;
  add_permissions = next_names;
  remove_permissions = custom_role_read_project_assignments ∷ [];
}

modify_run :
    modify_custom_role_permissions Examples.store snapshots (some session) modification initial
    ≡ (ok next_role, updated)
unfolding modify_custom_role_permissions modify_body custom_role_perm_change_context
    validate_custom_role_assignment_scope changed_perms next_perms validate_modify
    validate_custom_role_perms ◌>>=◌ ◌on_error◌ pure or_panic guard permissions_from_pg
    permissions_to_pg modify_custom_role_permissions_to_pg custom_role_from_pg Slices.map
    is_permission_superset minimum_assignment_scope broadest_scope permission_assignment_scope
    system_only_permissions is_superset from_slice has holds_all all contains add add_entries store
    new values symmetric_difference difference add_missing union clone remove remove_entries delete
    intersection add_shared len
modify_run = refl

modifications_are_held_example :
    (s : Selected (some session)) × (row : Pgrbac.CustomRole) × (next : List Permission
      → List Permission)
    × ((curr : List Permission) (p : Permission)
        → contains (next curr) p ≡ (
            not (contains modification.remove_permissions p)
            && (contains modification.add_permissions p || contains curr p)))
    × (validate_modify modification ≡ none)
    × (snapshots.run_tx Pgrbac.CustomRole
          (modify_body Examples.store s.sess.user.user_id s.selected.id modification)
          initial
        ≡ (ok row, updated))
    × RoleEdit Examples.store s.sess.user.user_id 7 s.selected.id next initial updated row
        (λ org_id. Examples.store.modify_custom_role_permissions (record {
          org_id = org_id;
          external_id = modification.id;
          etag = modification.etag;
          add_permission_names = modification.add_permissions;
          remove_permission_names = modification.remove_permissions;
        }))
    × (custom_role_from_pg row ≡ some next_role)
modifications_are_held_example =
    modifications_are_held Examples.store snapshots snapshots-IsAtomic (some session) modification
      initial updated next_role modify_run

abbrev creation : Role.CreateCustomRole
creation = record { name = "Reader"; permissions = next_names }

abbrev created : Db
created = record { role = next_row; holders = []; locks = [] }

create_run :
    create_custom_role Examples.store snapshots (some session) creation initial
    ≡ (ok next_role, created)
unfolding create_custom_role create_body validate_create validate_role_name
    validate_custom_role_perms ◌>>=◌ ◌on_error◌ pure or_panic guard permissions_from_pg
    permissions_to_pg create_custom_role_to_pg custom_role_from_pg Slices.map is_permission_superset
    system_only_permissions is_superset from_slice has holds_all all contains add add_entries store
    new trim_space trim_left trim_right is_space
create_run = refl

creations_are_held_example :
    (s : Selected (some session)) × (row : Pgrbac.CustomRole) × (validate_create creation ≡ none)
    × (snapshots.run_tx Pgrbac.CustomRole
          (create_body Examples.store s.sess.user.user_id s.selected.id creation)
          initial
        ≡ (ok row, created))
    × Creation Examples.store s.sess.user.user_id s.selected.id creation initial created row
    × (custom_role_from_pg row ≡ some next_role)
creations_are_held_example =
    creations_are_held Examples.store snapshots snapshots-IsAtomic (some session) creation initial
      created next_role create_run

abbrev deleted : Db
deleted = record { role = auditor; holders = []; locks = 7 ∷ [] }

delete_run : delete_custom_role Examples.store snapshots (some session) 7 initial ≡ (ok tt, deleted)
unfolding delete_custom_role delete_body custom_role_perm_change_context ◌>>=◌ ◌on_error◌ pure guard
    permissions_from_pg Slices.map is_permission_superset is_superset from_slice has holds_all all
    contains add add_entries store new
delete_run = refl

deletions_are_held_example :
    (s : Selected (some session)) × Deletion Examples.store s.sess.user.user_id 7 s.selected.id
      initial deleted
deletions_are_held_example =
    deletions_are_held Examples.store snapshots snapshots-IsAtomic (some session) 7 initial deleted
      delete_run
