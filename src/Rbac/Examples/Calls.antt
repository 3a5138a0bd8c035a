-- ===== src/Rbac/Examples/Calls.antt =====
-- Runs of the roles domain.
use theapp.Prelude.{◌≡◌, refl, some, [], ◌∷◌, contains, string_comparable}
use theapp.Set.{is_superset, from_slice, has, holds_all, add, add_entries, store, new}
use theapp.Slices
use theapp.Slices.{all}
use theapp.Errors.{ok}
use theapp.Action.{◌>>=◌, ◌on_error◌, pure, or_panic, guard}
use theapp.Permission.{
  is_permission_superset, minimum_assignment_scope, broadest_scope, permission_assignment_scope,
  system_only_permissions,
}
use theapp.Session.{AuthSession}
use theapp.Rbac.Conv.{permissions_from_pg}
use theapp.Rbac.Assign.{
  assign_custom_role_to_project, assign_to_project_body, assign_custom_role_to_org,
  assign_to_org_body, unassign_custom_role_from_org, unassign_from_org_body,
}
use theapp.Rbac.SystemRole.{
  lock_in_order, lock_system_role_users, authorize_system_role_change,
  ensure_fully_privileged_system_user_remains, assign_system_role_body, unassign_system_role_body,
  assign_system_role, unassign_system_role,
}
use theapp.Rbac.Grants.{
  ProjectGrant, OrgGrant, assign_custom_role_to_project-ProjectGrant,
  assign_custom_role_to_org-OrgGrant, unassign_custom_role_from_org-OrgGrant,
}
use theapp.Rbac.Grants.Request.{Selected}
use theapp.Rbac.Grants.System.{
  SystemGrant, SystemRevocation, assign_system_role-SystemGrant,
  unassign_system_role-SystemRevocation,
}
use theapp.Rbac.Examples.{Db, initial, auditor, with_permissions, session}
use theapp.Snapshots.{snapshots, snapshots-IsAtomic}
use theapp.Rbac.Examples as Examples

abbrev assigned : Db
assigned = record { role = auditor; holders = 9 ∷ []; locks = 7 ∷ [] }

assign_run :
    assign_custom_role_to_project Examples.store snapshots (some session) 9 7 initial
    ≡ (ok tt, assigned)
unfolding assign_custom_role_to_project assign_to_project_body ◌>>=◌ ◌on_error◌ pure or_panic guard
    permissions_from_pg Slices.map is_permission_superset minimum_assignment_scope broadest_scope
    permission_assignment_scope system_only_permissions is_superset from_slice has holds_all all
    contains add add_entries store new
assign_run = refl

assign_custom_role_to_project-ProjectGrant_example :
    (s : Selected (some session)) × ProjectGrant Examples.store s.sess.user.user_id 9 7
      s.selected.id initial assigned
assign_custom_role_to_project-ProjectGrant_example =
    assign_custom_role_to_project-ProjectGrant Examples.store snapshots snapshots-IsAtomic
      (some session) 9 7 initial assigned assign_run

abbrev granted : Db
granted = record { role = auditor; holders = 9 ∷ []; locks = [] }

grant_run :
    assign_custom_role_to_org Examples.store snapshots (some session) 9 7 initial ≡ (ok tt, granted)
unfolding assign_custom_role_to_org assign_to_org_body ◌>>=◌ ◌on_error◌ pure guard
    permissions_from_pg Slices.map is_permission_superset is_superset from_slice has holds_all all
    contains add add_entries store new
grant_run = refl

assign_custom_role_to_org-OrgGrant_example :
    (s : Selected (some session)) × OrgGrant Examples.store s.sess.user.user_id 7 s.selected.id
      (Examples.store.assign_custom_role_to_org 9 7)
      initial
      granted
assign_custom_role_to_org-OrgGrant_example =
    assign_custom_role_to_org-OrgGrant Examples.store snapshots snapshots-IsAtomic (some session) 9
      7 initial granted grant_run

revoke_run :
    unassign_custom_role_from_org Examples.store snapshots (some session) 9 7 initial
    ≡ (ok tt, initial)
unfolding unassign_custom_role_from_org unassign_from_org_body ◌>>=◌ ◌on_error◌ pure guard
    permissions_from_pg Slices.map is_permission_superset is_superset from_slice has holds_all all
    contains add add_entries store new
revoke_run = refl

unassign_custom_role_from_org-OrgGrant_example :
    (s : Selected (some session)) × OrgGrant Examples.store s.sess.user.user_id 7 s.selected.id
      (Examples.store.unassign_custom_role_from_org 9 7)
      initial
      initial
unassign_custom_role_from_org-OrgGrant_example =
    unassign_custom_role_from_org-OrgGrant Examples.store snapshots snapshots-IsAtomic
      (some session) 9 7 initial initial revoke_run

abbrev appointed : Db
appointed = record { role = auditor; holders = 9 ∷ []; locks = 9 ∷ 5 ∷ [] }

appoint_run :
    assign_system_role Examples.store snapshots (some session) 9 "support" initial
    ≡ (ok tt, appointed)
unfolding assign_system_role assign_system_role_body lock_system_role_users lock_in_order
    authorize_system_role_change ◌>>=◌ ◌on_error◌ pure guard permissions_from_pg Slices.map
    is_permission_superset is_superset from_slice has holds_all all contains add add_entries store
    new
appoint_run = refl

assign_system_role-SystemGrant_example :
    (sess : AuthSession) × (some session ≡ some sess)
    × SystemGrant Examples.store sess.user.user_id 9 "support" initial appointed
assign_system_role-SystemGrant_example =
    assign_system_role-SystemGrant Examples.store snapshots snapshots-IsAtomic (some session) 9
      "support" initial appointed appoint_run

abbrev dismissed : Db
dismissed = record { role = auditor; holders = 9 ∷ []; locks = 9 ∷ 5 ∷ 0 ∷ [] }

dismiss_run :
    unassign_system_role Examples.store snapshots (some session) 9 "support" initial
    ≡ (ok tt, dismissed)
unfolding unassign_system_role unassign_system_role_body lock_system_role_users lock_in_order
    authorize_system_role_change ensure_fully_privileged_system_user_remains ◌>>=◌ ◌on_error◌ pure
    guard permissions_from_pg Slices.map is_permission_superset is_superset from_slice has holds_all
    all contains add add_entries store new
dismiss_run = refl

unassign_system_role-SystemRevocation_example :
    (sess : AuthSession) × (some session ≡ some sess)
    × SystemRevocation Examples.store sess.user.user_id 9 "support" initial dismissed
unassign_system_role-SystemRevocation_example =
    unassign_system_role-SystemRevocation Examples.store snapshots snapshots-IsAtomic (some session)
      9 "support" initial dismissed dismiss_run
