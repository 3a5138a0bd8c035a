-- ===== src/Rbac/Database/Examples.antt =====
-- A revocation of the core over a small database.
use theapp.Prelude.{◌≡◌, refl, nat_comparable, none, some, [], ◌∷◌, contains, arith}
use theapp.Errors.{ok}
use theapp.Action.{◌>>=◌, pure, ◌on_error◌, guard}
use theapp.Permission.{is_permission_superset}
use theapp.Session.{AuthSession}
use theapp.Snapshots.{snapshots, snapshots-IsAtomic}
use theapp.Pgrbac.Db.{Db}
use theapp.Pgrbac.Examples.{postgres, sample}
use theapp.Pgrbac.Schema.{system_role_permission_names}
use theapp.Pgrbac.Store.Access
use theapp.Rbac.Conv.{permissions_from_pg}
use theapp.Rbac.SystemRole.{
  unassign_system_role, unassign_system_role_body, lock_system_role_users, lock_in_order,
  authorize_system_role_change, ensure_fully_privileged_system_user_remains,
}
use theapp.Rbac.Database.{database_store}
use theapp.Rbac.Database.SystemAdmins.{HasSystemAdmin, HasKnownPermissions, system_admin_remains}

abbrev session : AuthSession
session = record {
  user = record { user_id = 11; email = "a@b.c"; permissions = [] };
  project = none;
}

abbrev revoked : Db
revoked = record sample {
  system_role_assignments =
      record { user_id = 1; role_id = 8 } ∷ record { user_id = 2; role_id = 9 } ∷ [];
}

revoke_run :
    unassign_system_role (database_store postgres) snapshots (some session) 12 "admin" sample
    ≡ (ok tt, revoked)
unfolding unassign_system_role ◌>>=◌ pure ◌on_error◌ guard unassign_system_role_body
    lock_system_role_users lock_in_order authorize_system_role_change
    ensure_fully_privileged_system_user_remains is_permission_superset permissions_from_pg
    system_role_permission_names Access.lock_system_role_management Access.lock_system_role_user
    Access.system_role_by_name Access.system_permissions
    Access.fully_privileged_user_remains_after_system_role_unassign Access.unassign_system_role
revoke_run = refl

known : HasKnownPermissions sample
unfolding contains
known i h = ground arith

system_admin_remains_example : HasSystemAdmin revoked
system_admin_remains_example =
    system_admin_remains postgres snapshots snapshots-IsAtomic (some session) 12 "admin" sample
      revoked known revoke_run
