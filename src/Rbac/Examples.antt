-- ===== src/Rbac/Examples.antt =====
-- A database with one role, and calls of the roles domain on it.
mod Calls
mod Edits
use theapp.Prelude.{
  ℕ, ◌≡◌, refl, sym, ap, ◌∙◌, String, Bool, true, false, Option, none, some, List, [], ◌∷◌, nat_beq,
  arith, if◌then◌else◌,
}
use theapp.Errors.{Error, Sentinel, Outcome, ok, err, panics, sentinel, is, no_rows}
use theapp.Action.{Action}
use theapp.Permission.{
  custom_role_create, custom_role_assign_project, custom_role_read_project_assignments,
  system_role_assign,
}
use theapp.Session.{Uuid, AuthSession}
use theapp.Pgrbac
use theapp.Transactor.{Transactor, IsAtomic}
use theapp.Rbac.Storer.{RoleStorer}

-- The role, the assignments, and the locks that are taken.
pub record Db : Type 0 where
  pub role : Pgrbac.CustomRole
  pub holders : List Uuid
  pub locks : List Uuid

abbrev pub auditor : Pgrbac.CustomRole
auditor = record {
  id = 1;
  external_id = 7;
  name = "Auditor";
  managed_key = none;
  permission_names = custom_role_read_project_assignments ∷ [];
  created_at = 10;
  updated_at = none;
  etag = 70;
}

abbrev pub initial : Db
initial = record { role = auditor; holders = []; locks = [] }

abbrev with_lock : Db → Uuid → Db
with_lock w id = record { role = w.role; holders = w.holders; locks = id ∷ w.locks }

abbrev with_holder : Db → Uuid → Db
with_holder w id = record { role = w.role; holders = id ∷ w.holders; locks = w.locks }

abbrev with_role : Db → Pgrbac.CustomRole → Db
with_role w r = record { role = r; holders = w.holders; locks = w.locks }

abbrev pub with_permissions : Pgrbac.CustomRole → List String → Pgrbac.CustomRole
with_permissions r names = record {
  id = r.id;
  external_id = r.external_id;
  name = r.name;
  managed_key = r.managed_key;
  permission_names = names;
  created_at = r.created_at;
  updated_at = some 20;
  etag = 71;
}

abbrev the_actor_holds : List String
the_actor_holds =
    custom_role_create ∷ custom_role_assign_project ∷ custom_role_read_project_assignments
    ∷ system_role_assign ∷ []

abbrev nothing : {A : Type 0} → Action Db A
nothing w = (err (sentinel no_rows), w)

-- The store, of the one role, in the one organization; every user holds the same permissions.
abbrev pub store : RoleStorer Db
store = record {
  create_custom_role = λ cr w. (
    ok (with_permissions w.role cr.permission_names),
    with_role w (with_permissions w.role cr.permission_names),
  );
  update_custom_role = λ ur w. (
    ok (with_permissions w.role ur.permission_names),
    with_role w (with_permissions w.role ur.permission_names),
  );
  modify_custom_role_permissions = λ mrp w. (
    ok (with_permissions w.role mrp.add_permission_names),
    with_role w (with_permissions w.role mrp.add_permission_names),
  );
  delete_custom_role = λ org_id id w. (ok tt, w);
  custom_role_by_external_id =
      λ org_id id w. if nat_beq id w.role.external_id then (ok w.role, w) else nothing w;
  custom_role_has_project_assignments = λ id w. (ok false, w);
  lock_custom_role = λ id w. (ok tt, with_lock w id);
  custom_roles = λ org_id size offset w. (ok (w.role ∷ [], 1), w);
  user_project_custom_roles = λ id project_id size offset w. (ok ([], 0), w);
  user_org_custom_roles = λ id org_id size offset w. (ok ([], 0), w);
  org_permissions_by_project_id =
      λ id project_id w. (ok (record { org_id = 1; permission_names = the_actor_holds }), w);
  project_permissions =
      λ id project_id w. (ok (record { org_id = 1; permission_names = the_actor_holds }), w);
  assign_custom_role_to_project = λ target role_id project_id w. (ok tt, with_holder w target);
  unassign_custom_role_from_project = λ target role_id project_id w. nothing w;
  assign_custom_role_to_org = λ target role_id org_id w. (ok tt, with_holder w target);
  unassign_custom_role_from_org = λ target role_id org_id w. (ok tt, w);
  lock_system_role_management = λ w. (ok tt, with_lock w 0);
  lock_system_role_user = λ id w. (ok tt, with_lock w id);
  system_roles = λ size offset w. (ok ([], 0), w);
  system_role_by_name =
      λ name w. (ok (record { name = name; permission_names = system_role_assign ∷ [] }), w);
  user_system_roles_by_external_id = λ id size offset w. (ok ([], 0), w);
  system_permissions = λ id w. (ok the_actor_holds, w);
  fully_privileged_user_remains_after_system_role_unassign = λ id name w. (ok true, w);
  assign_system_role = λ target name w. (ok tt, with_holder w target);
  unassign_system_role = λ target name w. (ok tt, with_holder w target);
}

abbrev pub session : AuthSession
session = record {
  user = record { user_id = 5; email = "ann@example.com"; permissions = the_actor_holds };
  project =
      some (record {
        id = 3;
        org_id = 1;
        org_name = "acme";
        is_control = false;
        is_org_member = true;
      });
}
