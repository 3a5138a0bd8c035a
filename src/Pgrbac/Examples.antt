-- ===== src/Pgrbac/Examples.antt =====
-- A small database, the calls of the store on it, and the theorems of the store at these calls.
use theapp.Prelude.{
  string_comparable, false, ◌+◌, ◌≡◌, refl, ◌⊎◌, true, false, nat_comparable, none, some, [], ◌∷◌,
}
use theapp.Errors.{Error, ok, err, is, no_rows}
use theapp.Pgrbac
use theapp.Pgrbac.Db.{Db, Postgres, CustomRoleRow, find}
use theapp.Pgrbac.Roles.{owned_role}
use theapp.Pgrbac.RolePermissions.Modified.{Modified}
use theapp.Pgrbac.Deletion.{is_referenced}
use theapp.Pgrbac.Deletion.Laws.{deleted_role, delete_custom_role_total}
use theapp.Pgrbac.Assignments.Laws.{project_assignment_roundtrip}
use theapp.Pgrbac.Store.{
  delete_custom_role, assign_custom_role_to_project, unassign_custom_role_from_project,
}

-- The values that PostgreSQL draws are numbered from 1000, and rows keep their order.
abbrev pub postgres : Postgres
postgres = record {
  gen_random_uuid = λ n. 1000 + n;
  now = λ db. 70;
  lower = λ s. s;
  btrim = λ s. s;
  order_by = λ A text number rows. rows;
}

abbrev editor : CustomRoleRow
editor = record {
  id = 5;
  external_id = 50;
  name = "editor";
  org_id = 1;
  managed_key = none;
  created_at = 60;
  updated_at = none;
  etag = 500;
}

abbrev pub sample : Db
sample = record {
  users = record { id = 1; external_id = 11 } ∷ record { id = 2; external_id = 12 } ∷ [];
  organizations = 1 ∷ [];
  memberships = record { user_id = 1; org_id = 1 } ∷ record { user_id = 2; org_id = 1 } ∷ [];
  projects = record { id = 3; org_id = 1 } ∷ [];
  permissions =
      record { id = 21; name = "user:read" } ∷ record { id = 22; name = "org:user-read" } ∷ [];
  custom_roles = editor ∷ [];
  custom_role_permissions = record { role_id = 5; permission_id = 22 } ∷ [];
  project_role_assignments = [];
  org_role_assignments = record { user_id = 2; org_id = 1; role_id = 5 } ∷ [];
  system_roles = record { id = 8; name = "admin" } ∷ record { id = 9; name = "support" } ∷ [];
  system_role_permissions =
      record { role_id = 8; permission_id = 21 }
      ∷ record { role_id = 8; permission_id = 22 }
      ∷ record { role_id = 9; permission_id = 21 }
      ∷ [];
  system_role_assignments =
      record { user_id = 1; role_id = 8 }
      ∷ record { user_id = 2; role_id = 8 }
      ∷ record { user_id = 2; role_id = 9 }
      ∷ [];
  next_role_id = 6;
  draws = 0;
}

abbrev assigned : Db
assigned = record sample {
  project_role_assignments = record { user_id = 2; project_id = 3; role_id = 5; org_id = 1 } ∷ [];
}

assign_run : assign_custom_role_to_project 12 50 3 sample ≡ (ok tt, assigned)
unfolding assign_custom_role_to_project
assign_run = refl

project_assignment_roundtrip_example :
    unassign_custom_role_from_project 12 50 3 assigned ≡ (ok tt, sample)
project_assignment_roundtrip_example =
    project_assignment_roundtrip 12 50 3 sample assigned assign_run

delete_custom_role_total_example :
    ((r : CustomRoleRow) × (find sample.custom_roles (owned_role 1 50) ≡ some r)
      × (delete_custom_role 1 50 sample ≡ (ok tt, deleted_role sample r.id))
      × (is_referenced (deleted_role sample r.id) r.id ≡ false))
    ⊎ ((find sample.custom_roles (owned_role 1 50) ≡ none)
        × (e : Error) × (delete_custom_role 1 50 sample ≡ (err e, sample))
        × (is e no_rows ≡ true))
delete_custom_role_total_example = delete_custom_role_total 1 50 sample

abbrev swap : Pgrbac.ModifyCustomRolePermissions
swap = record {
  org_id = 1;
  external_id = 50;
  etag = 500;
  add_permission_names = "user:read" ∷ [];
  remove_permission_names = "org:user-read" ∷ [];
}

abbrev swapped : Db
swapped = record sample {
  custom_roles = record editor { updated_at = some 70; etag = 1000 } ∷ [];
  custom_role_permissions = record { role_id = 5; permission_id = 21 } ∷ [];
  draws = 1;
}

abbrev swapped_row : Pgrbac.CustomRole
swapped_row = record {
  id = 5;
  external_id = 50;
  name = "editor";
  managed_key = none;
  permission_names = "user:read" ∷ [];
  created_at = 60;
  updated_at = some 70;
  etag = 1000;
}
