-- ===== src/Pgrbac/RolePermissions/Laws.antt =====
-- ModifyCustomRolePermissions of the store: which permissions the role holds afterwards.
use theapp.Prelude.{
  ℕ, ◌≡◌, refl, ap, ◌∙◌, String, Bool, true, false, not, ◌&&◌, ◌||◌, List, [], ◌∷◌, ◌++◌, map,
  nat_beq, nat_beq_iff, nat_comparable, contains, contains-head, arith,
}
use theapp.Slices.{contains_func}
use theapp.Pgrbac
use theapp.Pgrbac.Db.{Db, Postgres, CustomRoleRow, RolePermissionRow, where'}
use theapp.Pgrbac.Db.Laws.{
  contains-where', contains-map, contains_func-where', contains_func-append,
}
use theapp.Pgrbac.Schema.{ids_of_role}
use theapp.Pgrbac.Roles.{role_permission}
use theapp.Pgrbac.RolePermissions.{
  held_ids, missing_ids, without_ids, ids_named, is_nonempty, modified, touched,
}

-- Whether a role holds a permission.
pub contains-ids_of_role :
    (table : List RolePermissionRow) (role_id i : ℕ)
    → contains (ids_of_role table role_id) i
      ≡ contains_func table (λ rp. nat_beq rp.role_id role_id && nat_beq i rp.permission_id)
unfolding ids_of_role
contains-ids_of_role table role_id i =
    contains-map (where' table (λ rp. nat_beq rp.role_id role_id)) (λ rp. rp.permission_id) i
    ∙ contains_func-where' table _ _

module _ (role_id i : ℕ) where
  abbrev holds : ℕ → List RolePermissionRow → Bool
  holds of table = contains_func table (λ rp. nat_beq rp.role_id of && nat_beq i rp.permission_id)

  holds_without :
      (of : ℕ) (ids : List ℕ) (table : List RolePermissionRow)
      → holds of (without_ids role_id ids table)
        ≡ (holds of table && not (nat_beq of role_id && contains ids i))
  unfolding where' contains_func
  holds_without of ids [] = refl
  holds_without of ids (rp ∷ rest) = ground (
    arith,
    holds_without of ids rest,
    nat_beq_iff rp.role_id of,
    nat_beq_iff rp.role_id role_id,
    nat_beq_iff i rp.permission_id,
  )

  holds_added :
      (of : ℕ) (ids : List ℕ)
      → holds of (map (role_permission role_id) ids) ≡ (nat_beq of role_id && contains ids i)
  unfolding contains_func contains
  holds_added of [] = ground arith
  holds_added of (j ∷ js) =
      ground (arith, holds_added of js, nat_beq_iff role_id of, nat_beq_iff of role_id)

-- The permissions of any role after one was modified: those removed are gone and those that were
-- missing are added, and every other role holds what it held.
abbrev pub after : Bool → Bool → Bool → Bool → Bool
after is_target held removed added =
    (held && not (is_target && removed)) || (is_target && added && not held)

pub as_target :
    {t : Bool} → t ≡ true → (held rm add : Bool) → after true held rm add ≡ after t held rm add
as_target e held rm add = ground arith

combined :
    (same kept new held removed added rm add target : Bool)
    → kept ≡ (held && not (same && removed))
    → new ≡ (same && added)
    → removed ≡ (rm && target)
    → added ≡ (add && not target)
    → (holds : Bool) → holds ≡ held
    → (same ≡ true → holds ≡ target)
    → (kept || new) ≡ after same holds rm add
combined same kept new held removed added rm add target p q s t holds e f = ground arith

none_removed : (held rm add : Bool) → after true held rm add ≡ held → (rm && held) ≡ false
none_removed held rm add h = ground arith

none_added : (held rm add : Bool) → after true held rm add ≡ held → (add && not held) ≡ false
none_added held rm add h = ground arith

empty_of : (xs : List ℕ) → ((i : ℕ) → contains xs i ≡ false) → xs ≡ []
empty_of [] h = refl
empty_of (x ∷ xs) h = ground (arith, h x, contains-head x xs)

without_none :
    (role_id : ℕ) (table : List RolePermissionRow) → without_ids role_id [] table ++ [] ≡ table
unfolding where' contains
without_none role_id [] = refl
without_none role_id (rp ∷ rest) = ground (arith, without_none role_id rest)

module _ (pg : Postgres) (mp : Pgrbac.ModifyCustomRolePermissions) (w : Db) (r : CustomRoleRow)
    (ids : List ℕ) (names : List String) where
  abbrev holds_now : ℕ → ℕ → Bool
  holds_now of i = contains (ids_of_role w.custom_role_permissions of) i

  abbrev to_remove : ℕ → Bool
  to_remove i = contains (ids_named ids names mp.remove_permission_names) i

  abbrev to_add : ℕ → Bool
  to_add i = contains (ids_named ids names mp.add_permission_names) i

  touched_table :
      (b : Bool) (db : Db)
      → (touched pg w r b db).custom_role_permissions ≡ db.custom_role_permissions
  touched_table true db = refl
  touched_table false db = refl

  pub modified_holds :
      (of i : ℕ)
      → contains (ids_of_role (modified pg mp w r ids names).custom_role_permissions of) i
        ≡ after (nat_beq of r.id) (holds_now of i) (to_remove i) (to_add i)
  unfolding held_ids missing_ids
  modified_holds of i =
      let removed = held_ids w r.id (ids_named ids names mp.remove_permission_names) in
      let added = missing_ids w r.id (ids_named ids names mp.add_permission_names) in
      let rest = without_ids r.id removed w.custom_role_permissions in
      let new = map (role_permission r.id) added in
      let table =
        touched_table (is_nonempty removed || is_nonempty added)
          (record w { custom_role_permissions = rest ++ new }) in
      let split =
        contains_func-append rest new (λ rp. nat_beq rp.role_id of && nat_beq i rp.permission_id) in
      ap (λ t. contains (ids_of_role t of) i) table
      ∙ contains-ids_of_role (rest ++ new) of i
      ∙ split
      ∙ combined (nat_beq of r.id) _ _ _ _ _ _ _ _
          (holds_without r.id i of removed w.custom_role_permissions) (holds_added r.id i of added)
          (contains-where' (ids_named ids names mp.remove_permission_names) _ i)
          (contains-where' (ids_named ids names mp.add_permission_names) _ i) (holds_now of i)
          (contains-ids_of_role w.custom_role_permissions of i)
          (λ e. ap (λ k. holds_now k i) ((nat_beq_iff of r.id).0 e))

  -- Where no role's permissions change by it, the modification changes no table.
  pub modified_same :
      ((i : ℕ) → after true (holds_now r.id i) (to_remove i) (to_add i) ≡ holds_now r.id i)
      → modified pg mp w r ids names ≡ w
  unfolding held_ids missing_ids
  modified_same same =
      let step = λ (removed added : List ℕ).
        touched pg w r (is_nonempty removed || is_nonempty added) (record w {
          custom_role_permissions =
              without_ids r.id removed w.custom_role_permissions
              ++ map (role_permission r.id) added;
        }) in
      let no_removed =
        empty_of (held_ids w r.id (ids_named ids names mp.remove_permission_names)) (λ i.
          contains-where' (ids_named ids names mp.remove_permission_names) _ i
          ∙ none_removed (holds_now r.id i) (to_remove i) (to_add i) (same i)) in
      let no_added =
        empty_of (missing_ids w r.id (ids_named ids names mp.add_permission_names)) (λ i.
          contains-where' (ids_named ids names mp.add_permission_names) _ i
          ∙ none_added (holds_now r.id i) (to_remove i) (to_add i) (same i)) in
      ap (λ xs. step xs (missing_ids w r.id (ids_named ids names mp.add_permission_names)))
        no_removed
      ∙ ap (step []) no_added
      ∙ ap (λ t. record w { custom_role_permissions = t })
          (without_none r.id w.custom_role_permissions)
