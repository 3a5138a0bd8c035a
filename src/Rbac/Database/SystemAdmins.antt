-- ===== src/Rbac/Database/SystemAdmins.antt =====
-- UnassignSystemRole of the core over the store: the tables after a revocation.
use mathlib.Core.Path.{subst}
use theapp.Prelude.{
  ℕ, ◌≡◌, sym, ap, ◌∙◌, String, true, ◌&&◌, Option, some, List, [], ◌∷◌, map, nat_beq, nat_beq_iff,
  nat_comparable, contains, arith, string_comparable,
}
use theapp.Set.{from_slice}
use theapp.Set.Laws.{contains-values, has-from_slice}
use theapp.Slices.{contains_func}
use theapp.Errors.{ok}
use theapp.Action.{◌>>=◌, ◌on_error◌, pure}
use theapp.Pgdb.{run_exec}
use theapp.Pgrbac.Store.Access.{lock_system_role_user, lock_system_role_management}
use theapp.Session.{Uuid, AuthSession}
use theapp.Transactor.{Transactor, IsAtomic}
use theapp.Pgrbac.Db.{
  Db, Postgres, UserRow, SystemRoleRow, SystemAssignmentRow, RolePermissionRow, join, to_list,
  where',
}
use theapp.Pgrbac.Db.Laws.{
  contains-join, contains-map, contains_func-where', contains_func-row, where'-head, join-one,
}
use theapp.Pgrbac.Schema.{distinct, ids_of_role, system_permission_ids}
use theapp.Pgrbac.Queries.{user_of}
use theapp.Pgrbac.System.{
  system_role_of, granted_ids, assignments_but, excluded_assignments, fully_privileged_user_remains,
  same_assignment,
}
use theapp.Pgrbac.System.Laws.{
  permission_ids, is_fully_privileged_sound, system_role_by_name-ok, remains-ok,
  unassign_system_role-ok, system_permissions-keeps,
}
use theapp.Rbac.SystemRole.{lock_in_order, lock_system_role_users, unassign_system_role}
use theapp.Rbac.Database.{database_store}
use theapp.Rbac.Grants.System.{SystemRevocation, unassign_system_role-SystemRevocation}

-- Every permission of a system role is registered: the foreign key of its table.
abbrev pub HasKnownPermissions : Db → Type 0
HasKnownPermissions w =
    (i : ℕ)
    → contains (map (λ (rp : RolePermissionRow). rp.permission_id) w.system_role_permissions) i
      ≡ true
    → contains (permission_ids w) i ≡ true

-- Some assigned user holds, by system roles, every registered permission.
pub record HasSystemAdmin (w : Db) : Type 0 where
  pub assignment : SystemAssignmentRow
  pub assigned : contains_func w.system_role_assignments (same_assignment assignment) ≡ true
  pub privileged :
      (p : ℕ)
      → contains (permission_ids w) p ≡ true
      → contains (system_permission_ids w assignment.user_id) p ≡ true

ids_of_role-known :
    (table : List RolePermissionRow) (role_id i : ℕ)
    → contains (ids_of_role table role_id) i ≡ true
    → contains (map (λ (rp : RolePermissionRow). rp.permission_id) table) i ≡ true
unfolding ids_of_role
ids_of_role-known table role_id i h =
    let id = λ (rp : RolePermissionRow). rp.permission_id in
    let (rp, t, keep) =
      contains_func-row table _
        (sym (contains_func-where' table _ _) ∙ sym (contains-map (where' table _) id i) ∙ h) in
    contains-map table id i ∙ keep _ (ground arith)

granted_ids-known :
    (w : Db) (assignments : List SystemAssignmentRow) (user_id : ℕ)
    → HasKnownPermissions w
    → (i : ℕ) → contains (granted_ids w assignments user_id) i ≡ true
    → contains (permission_ids w) i ≡ true
unfolding granted_ids
granted_ids-known w assignments user_id known i h =
    let rows = where' assignments (λ a. nat_beq a.user_id user_id) in
    let ids = λ (a : SystemAssignmentRow). ids_of_role w.system_role_permissions a.role_id in
    let (a, t, _) =
      contains_func-row rows (λ a. contains (ids a) i) (sym (contains-join rows ids i) ∙ h) in
    known i (ids_of_role-known w.system_role_permissions a.role_id i t)

remains_sound :
    (w : Db) (assignments : List SystemAssignmentRow)
    → HasKnownPermissions w
    → fully_privileged_user_remains w assignments ≡ true
    → HasSystemAdmin (record w { system_role_assignments = assignments })
unfolding fully_privileged_user_remains system_permission_ids granted_ids distinct
remains_sound w assignments known h =
    let (a, t, keep) = contains_func-row assignments _ h in
    let ids = granted_ids w assignments a.user_id in
    record {
      assignment = a;
      assigned =
          keep (same_assignment a)
            (ground (arith, nat_beq_iff a.user_id a.user_id, nat_beq_iff a.role_id a.role_id));
      privileged = λ p m.
          contains-values (from_slice ids) p
          ∙ has-from_slice ids p
          ∙ is_fully_privileged_sound w ids (granted_ids-known w assignments a.user_id known) t p m;
    }

-- The assignment that the check leaves out is the one that the revocation deletes.
excluded_ids :
    (w : Db) (user_id : Uuid) (role_name : String) (u : UserRow) (r : SystemRoleRow)
    (x : SystemAssignmentRow)
    → user_of w user_id ≡ some u
    → system_role_of w role_name ≡ some r
    → excluded_assignments w user_id role_name ≡ x ∷ []
    → x ≡ record { user_id = u.id; role_id = r.id }
unfolding excluded_assignments to_list
excluded_ids w user_id role_name u r x found named h =
    let rows = λ (u : UserRow) (r : SystemRoleRow).
      where' w.system_role_assignments (λ a. nat_beq a.user_id u.id && nat_beq a.role_id r.id) in
    let of_user = λ (u : UserRow). join (to_list (system_role_of w role_name)) (rows u) in
    let at_user = ap (λ o. join (to_list o) of_user) found ∙ join-one u of_user in
    let at_role = ap (λ o. join (to_list o) (rows u)) named ∙ join-one r (rows u) in
    let test =
      where'-head w.system_role_assignments (λ a. nat_beq a.user_id u.id && nat_beq a.role_id r.id)
        (sym (at_user ∙ at_role) ∙ h) in
    ground (arith, nat_beq_iff x.user_id u.id, nat_beq_iff x.role_id r.id)

locks_keep :
    (pg : Postgres) (actor target : Uuid) (w w' : Db)
    → lock_system_role_users (database_store pg) actor target w ≡ (ok tt, w')
    → w ≡ w'
unfolding lock_system_role_users lock_in_order lock_system_role_user run_exec ◌>>=◌ ◌on_error◌ pure
locks_keep pg actor target w w' h = ground arith

management_lock_keeps : (w w' : Db) → lock_system_role_management w ≡ (ok tt, w') → w ≡ w'
unfolding lock_system_role_management run_exec ◌>>=◌ ◌on_error◌ pure
management_lock_keeps w w' h = ground arith

module _ (pg : Postgres) where
  -- A revocation of the core left the tables as they were until it checked who remains, and then
  -- deleted the assignment that the check had left out.
  revoked_admins :
      (actor target : Uuid) (role_name : String) (w w' : Db)
      → HasKnownPermissions w
      → SystemRevocation (database_store pg) actor target role_name w w'
      → HasSystemAdmin w'
  revoked_admins actor target role_name w w' known r =
      let (named, read) = system_role_by_name-ok pg role_name r.at_lock r.authorized.role_read in
      let (x, only, test, kept) = remains-ok target r.role.name r.at_role r.remains in
      let moved : w ≡ r.at_role =
        management_lock_keeps w _ r.management_locked
        ∙ locks_keep pg actor target _ _ r.locked
        ∙ read
        ∙ system_permissions-keeps pg actor _ r.authorized.names_read in
      let d = unassign_system_role-ok target role_name r.at_store w' r.stored in
      let out = subst (λ v. excluded_assignments v target r.role.name ≡ x ∷ []) kept only in
      let out' = subst (λ n. excluded_assignments r.at_store target n ≡ x ∷ []) named out in
      let same =
        excluded_ids r.at_store target role_name d.user d.role x d.user_found d.role_found out' in
      let admins =
        remains_sound r.at_store (assignments_but r.at_store x)
          (subst HasKnownPermissions (moved ∙ kept) known)
          (subst (λ v. fully_privileged_user_remains v (assignments_but v x) ≡ true) kept test) in
      subst HasSystemAdmin
        (ap (λ y. record r.at_store { system_role_assignments = assignments_but r.at_store y }) same
          ∙ sym d.written)
        admins

module _ (pg : Postgres) (tr : Transactor Db) (atomic : IsAtomic tr) where
  -- A system role that was taken away leaves a user who holds every registered permission by the
  -- system roles that remain assigned, where every permission of a system role is registered.
  pub system_admin_remains :
      (ctx : Option AuthSession) (target : Uuid) (role_name : String) (w w' : Db)
      → HasKnownPermissions w
      → unassign_system_role (database_store pg) tr ctx target role_name w ≡ (ok tt, w')
      → HasSystemAdmin w'
  system_admin_remains ctx target role_name w w' known h =
      let (sess, e, r) =
        unassign_system_role-SystemRevocation (database_store pg) tr atomic ctx target role_name w
          w' h in
      revoked_admins pg sess.user.user_id target role_name w w' known r
