-- ===== src/Rbac/Grants/Changes.antt =====
-- What the transactions that change a role have checked when they return.
use mathlib.Core.Path.{subst₂}
use theapp.Prelude.{
  ℕ, ◌≡◌, ◌⊎◌, inl, inr, ap, sym, ◌∙◌, Bool, true, false, not, none, some, List, contains,
  string_comparable, arith, nat_beq, Bool-cases,
}
use theapp.Errors.{ok}
use theapp.Action.{Action}
use theapp.Action.Laws.{on_error-ok, step-ok, or_panic-ok, guard-ok, pure-ok, guard_end-ok}
use theapp.Permission.{Permission, AssignmentScope, rank, minimum_assignment_scope}
use theapp.Session.{Uuid}
use theapp.Pgrbac
use theapp.Role
use theapp.Rbac.Storer.{RoleStorer}
use theapp.Rbac.Conv.Laws.{
  permissions_from_pg-same, update_custom_role_to_pg_lem, modify_custom_role_permissions_to_pg_lem,
}
use theapp.Rbac.Edit.{
  next_perms, is_unmanaged, custom_role_perm_change_context, validate_custom_role_assignment_scope,
  update_body, modify_body,
}
use theapp.Rbac.Grants.Perms.{held_of_superset}

-- What held when the actor changed the permissions of a role to `next`.
pub record RoleEdit {W : Type 0} (st : RoleStorer W) (actor role_id : Uuid) (project_id : ℕ)
    (next : List Permission → List Permission) (w w' : W) (row : Pgrbac.CustomRole)
    (store : ℕ → Action W Pgrbac.CustomRole) : Type 0 where
  pub perms : Pgrbac.OrgPermissions
  pub role : Pgrbac.CustomRole
  pub at_perms : W
  pub at_lock : W
  pub at_role : W
  pub at_store : W
  pub perms_read : st.org_permissions_by_project_id actor project_id w ≡ (ok perms, at_perms)
  pub locked : st.lock_custom_role role_id at_perms ≡ (ok tt, at_lock)
  pub role_read : st.custom_role_by_external_id perms.org_id role_id at_lock ≡ (ok role, at_role)
  pub unmanaged : role.managed_key ≡ none
  pub held :
      (p : Permission)
      → contains role.permission_names p ≡ not (contains (next role.permission_names) p)
      → contains perms.permission_names p ≡ true
  pub scoped :
      ((minimum_assignment_scope (next role.permission_names) ≡ some AssignmentScope.project)
        × (at_role ≡ at_store))
      ⊎ (st.custom_role_has_project_assignments role_id at_role ≡ (ok false, at_store))
  pub stored : store perms.org_id at_store ≡ (ok row, w')

pub unmanaged_of_test :
    (role : Pgrbac.CustomRole) → is_unmanaged role ≡ true → role.managed_key ≡ none
unmanaged_of_test role h = ground arith

project_of_rank :
    (s : AssignmentScope)
    → nat_beq (rank s) (rank AssignmentScope.project) ≡ true
    → s ≡ AssignmentScope.project
project_of_rank s h = ground arith

false_of_not : (b : Bool) → not b ≡ true → b ≡ false
false_of_not b h = ground arith

-- The three reads of a change, in their order.
pub record ChangeContext {W : Type 0} (st : RoleStorer W) (actor role_id : Uuid) (project_id : ℕ)
    (w w' : W) (perms : Pgrbac.OrgPermissions) (role : Pgrbac.CustomRole) : Type 0 where
  pub at_perms : W
  pub at_lock : W
  pub perms_read : st.org_permissions_by_project_id actor project_id w ≡ (ok perms, at_perms)
  pub locked : st.lock_custom_role role_id at_perms ≡ (ok tt, at_lock)
  pub role_read : st.custom_role_by_external_id perms.org_id role_id at_lock ≡ (ok role, w')

module _ {W : Type 0} (st : RoleStorer W) where
  pub context-ok :
      (actor role_id : Uuid) (project_id : ℕ) (w w' : W)
      (r : Pgrbac.OrgPermissions × Pgrbac.CustomRole)
      → custom_role_perm_change_context st actor project_id role_id w ≡ (ok r, w')
      → ChangeContext st actor role_id project_id w w' r.0 r.1
  unfolding custom_role_perm_change_context
  context-ok actor role_id project_id w w' r h =
      let (perms, w1, e1, h1) = step-ok _ _ _ w h in
      let (_, w2, e2, h2) = step-ok _ _ _ w1 h1 in
      let (role, w3, e3, h3) = step-ok _ _ _ w2 h2 in
      let (p, q) = pure-ok _ w3 h3 in
      subst₂ (λ x v. ChangeContext st actor role_id project_id w v x.0 x.1) p q
        (record { at_perms = w1; at_lock = w2; perms_read = e1; locked = e2; role_read = e3 })

  -- A scope check that passed: the permissions may be held in a project, or the role has no
  -- assignments in projects.
  scope-ok :
      (role_id : Uuid) (perms : List Permission) (w w' : W)
      → validate_custom_role_assignment_scope st role_id perms w ≡ (ok tt, w')
      → ((minimum_assignment_scope perms ≡ some AssignmentScope.project) × (w ≡ w'))
        ⊎ (st.custom_role_has_project_assignments role_id w ≡ (ok false, w'))
  unfolding validate_custom_role_assignment_scope
  scope-ok role_id perms w w' h =
      let (scope, e, h1) = or_panic-ok _ _ w h in
      elim (Bool-cases (nat_beq (rank scope) (rank AssignmentScope.project))) [
        | inl t ↦ inl (e ∙ ap some (project_of_rank scope t), (pure-ok tt w (rw t at h1)).1)
        | inr f ↦
            let (has, v, q, h2) = step-ok _ _ _ w (rw f at h1) in
            let (g, k) = guard_end-ok _ _ v h2 in
            inr (
              subst₂ (λ b u. st.custom_role_has_project_assignments role_id w ≡ (ok b, u))
                (false_of_not has g) k q)
      ]

  -- A definition that the store changed, in the transaction of an update or of a modification.
  pub update_body-ok :
      (actor : Uuid) (project_id : ℕ) (ur : Role.UpdateCustomRole) (w w' : W)
      (row : Pgrbac.CustomRole)
      → update_body st actor project_id ur w ≡ (ok row, w')
      → RoleEdit st actor ur.id project_id
          (λ _. ur.permissions)
          w
          w'
          row
          (λ org_id. st.update_custom_role (record {
            org_id = org_id;
            external_id = ur.id;
            etag = ur.etag;
            fields = record { name = ur.fields.name; permission_names = ur.fields.permissions };
            name = ur.name;
            permission_names = ur.permissions;
          }))
  unfolding update_body
  update_body-ok actor project_id ur w w' row h =
      let ((perms, role), w1, e1, h1) = step-ok _ _ _ w h in
      let c = context-ok actor ur.id project_id w w1 (perms, role) e1 in
      let (m, h2) = guard-ok _ _ _ w1 h1 in
      let (s, h3) = guard-ok _ _ _ w1 h2 in
      let (_, w2, e2, h4) = step-ok _ _ _ w1 h3 in
      record {
        perms = perms;
        role = role;
        at_perms = c.at_perms;
        at_lock = c.at_lock;
        at_role = w1;
        at_store = w2;
        perms_read = c.perms_read;
        locked = c.locked;
        role_read = c.role_read;
        unmanaged = unmanaged_of_test role m;
        held = held_of_superset perms.permission_names role.permission_names ur.permissions (
            rw
              (
                permissions_from_pg-same perms.permission_names,
                permissions_from_pg-same role.permission_names,
              )
              at s);
        scoped = scope-ok ur.id _ w1 w2 e2;
        stored =
            ap (λ x. st.update_custom_role x w2)
              (sym (update_custom_role_to_pg_lem ur perms.org_id))
            ∙ on_error-ok _ _ w2 h4;
      }

  pub modify_body-ok :
      (actor : Uuid) (project_id : ℕ) (mrp : Role.ModifyCustomRolePermissions) (w w' : W)
      (row : Pgrbac.CustomRole)
      → modify_body st actor project_id mrp w ≡ (ok row, w')
      → RoleEdit st actor mrp.id project_id
          (λ curr. next_perms curr mrp)
          w
          w'
          row
          (λ org_id. st.modify_custom_role_permissions (record {
            org_id = org_id;
            external_id = mrp.id;
            etag = mrp.etag;
            add_permission_names = mrp.add_permissions;
            remove_permission_names = mrp.remove_permissions;
          }))
  unfolding modify_body
  modify_body-ok actor project_id mrp w w' row h =
      let ((perms, role), w1, e1, h1) = step-ok _ _ _ w h in
      let c = context-ok actor mrp.id project_id w w1 (perms, role) e1 in
      let (m, h2) = guard-ok _ _ _ w1 h1 in
      let (s, h3) = guard-ok _ _ _ w1 h2 in
      let (_, w2, e2, h4) = step-ok _ _ _ w1 h3 in
      record {
        perms = perms;
        role = role;
        at_perms = c.at_perms;
        at_lock = c.at_lock;
        at_role = w1;
        at_store = w2;
        perms_read = c.perms_read;
        locked = c.locked;
        role_read = c.role_read;
        unmanaged = unmanaged_of_test role m;
        held =
            held_of_superset perms.permission_names role.permission_names
              (next_perms role.permission_names mrp)
              (rw
                (
                  permissions_from_pg-same perms.permission_names,
                  permissions_from_pg-same role.permission_names,
                )
                at s);
        scoped =
            scope-ok mrp.id (next_perms role.permission_names mrp) w1 w2
              (rw (permissions_from_pg-same role.permission_names) at e2);
        stored =
            ap (λ x. st.modify_custom_role_permissions x w2)
              (sym (modify_custom_role_permissions_to_pg_lem mrp perms.org_id))
            ∙ on_error-ok _ _ w2 h4;
      }
