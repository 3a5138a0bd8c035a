-- ===== src/Rbac/Grants/System.antt =====
-- Who may grant or revoke a system role.
use theapp.Prelude.{List, String, ◌≡◌, true, Option, some, contains, string_comparable}
use mathlib.Core.Path.{subst₂}
use theapp.Errors.{ok}
use theapp.Action.Laws.{on_error-ok, step-ok, guard-ok, pure-ok, guard_end-ok, session-ok}
use theapp.Permission.{Permission}
use theapp.Permission.Scopes.{is_permission_superset_iff}
use theapp.Session.{Uuid, AuthSession}
use theapp.Pgrbac
use theapp.Transactor.{Transactor, IsAtomic}
use theapp.Rbac.Storer.{RoleStorer}
use theapp.Rbac.Conv.{permissions_from_pg}
use theapp.Rbac.SystemRole.{
  lock_system_role_users, authorize_system_role_change, ensure_fully_privileged_system_user_remains,
  assign_system_role_body, unassign_system_role_body, assign_system_role, unassign_system_role,
}

-- What held when an actor was authorized to change who holds the system role of this name.
pub record SystemAuthority {W : Type 0} (st : RoleStorer W) (actor : Uuid) (role_name : String)
    (w w' : W) (role : Pgrbac.SystemRole) : Type 0 where
  pub names : List String
  pub at_role : W
  pub role_read : st.system_role_by_name role_name w ≡ (ok role, at_role)
  pub names_read : st.system_permissions actor at_role ≡ (ok names, w')
  pub held :
      (p : Permission)
      → contains (permissions_from_pg role.permission_names) p ≡ true
      → contains (permissions_from_pg names) p ≡ true

-- What held when the actor assigned a system role.
pub record SystemGrant {W : Type 0} (st : RoleStorer W) (actor target : Uuid) (role_name : String)
    (w w' : W) : Type 0 where
  pub role : Pgrbac.SystemRole
  pub at_lock : W
  pub at_store : W
  pub locked : lock_system_role_users st actor target w ≡ (ok tt, at_lock)
  pub authorized : SystemAuthority st actor role_name at_lock at_store role
  pub stored : st.assign_system_role target role_name at_store ≡ (ok tt, w')

-- What held when the actor took a system role away.
pub record SystemRevocation {W : Type 0} (st : RoleStorer W) (actor target : Uuid)
    (role_name : String) (w w' : W) : Type 0 where
  pub role : Pgrbac.SystemRole
  pub at_management : W
  pub at_lock : W
  pub at_role : W
  pub at_store : W
  pub management_locked : st.lock_system_role_management w ≡ (ok tt, at_management)
  pub locked : lock_system_role_users st actor target at_management ≡ (ok tt, at_lock)
  pub authorized : SystemAuthority st actor role_name at_lock at_role role
  pub remains :
      st.fully_privileged_user_remains_after_system_role_unassign target role.name at_role
      ≡ (ok true, at_store)
  pub stored : st.unassign_system_role target role_name at_store ≡ (ok tt, w')

module _ {W : Type 0} (st : RoleStorer W) where
  authorize-ok :
      (actor : Uuid) (role_name : String) (w w' : W) (role : Pgrbac.SystemRole)
      → authorize_system_role_change st actor role_name w ≡ (ok role, w')
      → SystemAuthority st actor role_name w w' role
  unfolding authorize_system_role_change
  authorize-ok actor role_name w w' role h =
      let (r, w1, e1, h1) = step-ok _ _ _ w h in
      let (names, w2, e2, h2) = step-ok _ _ _ w1 h1 in
      let (s, h3) = guard-ok _ _ _ w2 h2 in
      let (p, q) = pure-ok r w2 h3 in
      subst₂ (λ x v. SystemAuthority st actor role_name w v x) p q
        (record {
          names = names;
          at_role = w1;
          role_read = e1;
          names_read = e2;
          held = (is_permission_superset_iff _ _).0 s;
        })

  ensure-ok :
      (target : Uuid) (role_name : String) (w w' : W)
      → ensure_fully_privileged_system_user_remains st target role_name w ≡ (ok tt, w')
      → st.fully_privileged_user_remains_after_system_role_unassign target role_name w
        ≡ (ok true, w')
  unfolding ensure_fully_privileged_system_user_remains
  ensure-ok target role_name w w' h =
      let (b, v, e, h1) = step-ok _ _ _ w h in
      let (t, q) = guard_end-ok b _ v h1 in
      subst₂
        (λ x u.
          st.fully_privileged_user_remains_after_system_role_unassign target role_name w
          ≡ (ok x, u))
        t q e

  assign_system_role_body-ok :
      (actor target : Uuid) (role_name : String) (w w' : W)
      → assign_system_role_body st actor target role_name w ≡ (ok tt, w')
      → SystemGrant st actor target role_name w w'
  unfolding assign_system_role_body
  assign_system_role_body-ok actor target role_name w w' h =
      let (_, w1, e1, h1) = step-ok _ _ _ w h in
      let (role, w2, e2, h2) = step-ok _ _ _ w1 h1 in
      record {
        role = role;
        at_lock = w1;
        at_store = w2;
        locked = e1;
        authorized = authorize-ok actor role_name w1 w2 role e2;
        stored = on_error-ok _ _ w2 h2;
      }

  unassign_system_role_body-ok :
      (actor target : Uuid) (role_name : String) (w w' : W)
      → unassign_system_role_body st actor target role_name w ≡ (ok tt, w')
      → SystemRevocation st actor target role_name w w'
  unfolding unassign_system_role_body
  unassign_system_role_body-ok actor target role_name w w' h =
      let (_, w1, e1, h1) = step-ok _ _ _ w h in
      let (_, w2, e2, h2) = step-ok _ _ _ w1 h1 in
      let (role, w3, e3, h3) = step-ok _ _ _ w2 h2 in
      let (_, w4, e4, h4) = step-ok _ _ _ w3 h3 in
      record {
        role = role;
        at_management = w1;
        at_lock = w2;
        at_role = w3;
        at_store = w4;
        management_locked = e1;
        locked = e2;
        authorized = authorize-ok actor role_name w2 w3 role e3;
        remains = ensure-ok target role.name w3 w4 e4;
        stored = on_error-ok _ _ w4 h4;
      }

module _ {W : Type 0} (st : RoleStorer W) (tr : Transactor W) (atomic : IsAtomic tr) where
  -- A system role that was granted is one whose permissions the caller holds through system roles, as
  -- read after both users were locked.
  pub assign_system_role-SystemGrant :
      (ctx : Option AuthSession) (target : Uuid) (role_name : String) (w w' : W)
      → assign_system_role st tr ctx target role_name w ≡ (ok tt, w')
      → (sess : AuthSession) × (ctx ≡ some sess)
        × SystemGrant st sess.user.user_id target role_name w w'
  unfolding assign_system_role
  assign_system_role-SystemGrant ctx target role_name w w' h =
      let (sess, e, h1) = session-ok ctx _ w h in
      let body = atomic.returns Unit _ w w' tt (on_error-ok _ _ w h1) in
      (sess, e, assign_system_role_body-ok st _ target role_name w w' body)

  -- A system role that was taken away is one whose permissions the caller holds through system roles,
  -- and, as read after the lock on the management of system roles, a fully privileged user remains.
  pub unassign_system_role-SystemRevocation :
      (ctx : Option AuthSession) (target : Uuid) (role_name : String) (w w' : W)
      → unassign_system_role st tr ctx target role_name w ≡ (ok tt, w')
      → (sess : AuthSession) × (ctx ≡ some sess)
        × SystemRevocation st sess.user.user_id target role_name w w'
  unfolding unassign_system_role
  unassign_system_role-SystemRevocation ctx target role_name w w' h =
      let (sess, e, h1) = session-ok ctx _ w h in
      let body = atomic.returns Unit _ w w' tt (on_error-ok _ _ w h1) in
      (sess, e, unassign_system_role_body-ok st _ target role_name w w' body)
