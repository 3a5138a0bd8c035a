-- ===== src/Pgrbac/System/Laws.antt =====
-- What the methods on system roles have read and written where they return, and what it means that a
-- user is fully privileged.
use theapp.Prelude.{
  ℕ, suc, ◌≤◌, ◌≡◌, refl, sym, ap, ◌∙◌, String, Bool, true, Option, none, some, List, [], ◌∷◌, map,
  length, nat_beq_iff, ◌==◌, string_comparable, nat_comparable, Comparable, contains, contains-head,
  IsDistinct, arith,
}
use theapp.Set.{delete, from_slice, values}
use theapp.Set.Laws.{contains-delete, contains-values, has-from_slice}
use theapp.Set.Distinct.{from_slice-IsKeyed}
use theapp.Errors.{ok}
use theapp.Session.{Uuid}
use theapp.Pgrbac
use theapp.Pgrbac.Db.{
  Db, Postgres, UserRow, SystemRoleRow, SystemAssignmentRow, PermissionRow, find,
}
use theapp.Pgrbac.Db.Laws.{find-passes}
use theapp.Pgrbac.Schema.{distinct}
use theapp.Pgrbac.Queries.{user_of}
use theapp.Pgrbac.Queries.Laws.{reads-ok, to_list-one, map-one}
use theapp.Pgrbac.Store.Laws.{sink-ok}
use theapp.Pgrbac.System.{
  system_permission_names_query, system_role_of, system_role_by_name_query,
  fully_privileged_user_remains_query, unassign_system_role_query, unassign_system, assignments_but,
  excluded_assignments, fully_privileged_user_remains, is_fully_privileged,
}
use theapp.Pgrbac.Store.Access.{
  system_role_by_name, fully_privileged_user_remains_after_system_role_unassign,
  unassign_system_role, system_permissions,
}

pub system_role_by_name-ok :
    (pg : Postgres) (name : String) (w : Db) {role : Pgrbac.SystemRole} {w' : Db}
    → system_role_by_name pg name w ≡ (ok role, w')
    → (role.name ≡ name) × (w ≡ w')
unfolding system_role_by_name system_role_by_name_query system_role_of
system_role_by_name-ok pg name w h =
    let (rows, same) = reads-ok "system role" (system_role_by_name_query pg name) w _ refl h in
    let (r, found, e) = to_list-one (find w.system_roles (λ r. r.name == name)) _ rows in
    let named = find-passes w.system_roles (λ r. r.name == name) found in
    (
      sym (ap (λ (s : Pgrbac.SystemRole). s.name) e) ∙ (string_comparable.equals_iff _ _).0 named,
      same,
    )

pub system_permissions-keeps :
    (pg : Postgres) (user_id : Uuid) (w : Db) {names : List String} {w' : Db}
    → system_permissions pg user_id w ≡ (ok names, w')
    → w ≡ w'
unfolding system_permissions system_permission_names_query
system_permissions-keeps pg user_id w h =
    (reads-ok "system permissions" (system_permission_names_query pg user_id) w _ refl h).1

-- What an unassignment of a system role did.
pub record Unassigned (w w' : Db) (user_id : Uuid) (role_name : String) : Type 0 where
  pub user : UserRow
  pub role : SystemRoleRow
  pub user_found : user_of w user_id ≡ some user
  pub role_found : system_role_of w role_name ≡ some role
  pub written : w' ≡ record w {
    system_role_assignments = assignments_but w (record { user_id = user.id; role_id = role.id });
  }

unassign_system-ok :
    (w : Db) (user : Option UserRow) (role : Option SystemRoleRow) {id : ℕ} {w' : Db}
    → unassign_system w user role ≡ (ok (ok id ∷ []), w')
    → (u : UserRow) × (r : SystemRoleRow) × (user ≡ some u)
      × (role ≡ some r)
      × (w' ≡ record w {
        system_role_assignments = assignments_but w (record { user_id = u.id; role_id = r.id });
      })
unassign_system-ok w (some u) (some r) h = (u, r, refl, refl, ground arith)
unassign_system-ok w (some u) none h = ground arith
unassign_system-ok w none r h = ground arith

pub unassign_system_role-ok :
    (user_id : Uuid) (role_name : String) (w w' : Db)
    → unassign_system_role user_id role_name w ≡ (ok tt, w')
    → Unassigned w w' user_id role_name
unfolding unassign_system_role unassign_system_role_query
unassign_system_role-ok user_id role_name w w' h =
    let (id, e) =
      sink-ok "unassign system role" (unassign_system_role_query user_id role_name) w h in
    let (u, r, found, named, written) = unassign_system-ok w _ _ e in
    record { user = u; role = r; user_found = found; role_found = named; written = written }

-- Where a test of the remaining users returned, one assignment was left out.
pub remains-ok :
    (user_id : Uuid) (role_name : String) (w : Db) {b : Bool} {w' : Db}
    → fully_privileged_user_remains_after_system_role_unassign user_id role_name w ≡ (ok b, w')
    → (excluded : SystemAssignmentRow) × (excluded_assignments w user_id role_name ≡ excluded ∷ [])
      × (fully_privileged_user_remains w (assignments_but w excluded) ≡ b)
      × (w ≡ w')
unfolding fully_privileged_user_remains_after_system_role_unassign
    fully_privileged_user_remains_query
remains-ok user_id role_name w h =
    let (rows, same) =
      reads-ok "fully privileged system user remains after unassign"
        (fully_privileged_user_remains_query user_id role_name) w _ refl h in
    let (x, e, t) = map-one (excluded_assignments w user_id role_name) _ rows in (x, e, t, same)

length-delete-le :
    {A : Type 0} ⦃e : Comparable A⦄ (xs : List A) (x : A) → length (delete xs x) ≤ length xs
unfolding delete
length-delete-le [] x = omega arith
length-delete-le (y ∷ ys) x = ground (arith, length-delete-le ys x)

length-delete :
    {A : Type 0} ⦃e : Comparable A⦄ (xs : List A) (x : A)
    → contains xs x ≡ true
    → suc (length (delete xs x)) ≤ length xs
unfolding delete contains
length-delete [] x h = ground arith
length-delete (y ∷ ys) x h = ground (arith, length-delete ys x, length-delete-le ys x)

-- A list without repetitions inside another that is no longer holds all of it.
pub contains_of_length :
    {A : Type 0} ⦃e : Comparable A⦄ (xs ys : List A)
    → IsDistinct xs
    → ((a : A) → contains xs a ≡ true → contains ys a ≡ true)
    → length ys ≤ length xs
    → (a : A) → contains ys a ≡ true
    → contains xs a ≡ true
unfolding contains
contains_of_length [] [] d s h a m = m
contains_of_length [] (y ∷ ys) d s h a m = ground arith
contains_of_length ⦃e⦄ (x ∷ xs) ys d s h a m =
    let inside = s x (contains-head x xs) in
    let rest =
      contains_of_length xs (delete ys x) d.1
        (λ b n. ground (arith, s b, contains-delete ys x b, e.equals_iff b x))
        (omega (arith, length-delete ys x inside)) a in
    ground (arith, rest, contains-delete ys x a, e.equals_iff a x)

pub length-map : {A B : Type 0} (xs : List A) (f : A → B) → length (map f xs) ≡ length xs
length-map [] f = refl
length-map (x ∷ xs) f = ap suc (length-map xs f)

abbrev pub permission_ids : Db → List ℕ
permission_ids w = map (λ (p : PermissionRow). p.id) w.permissions

-- Where the counts agree, the user has every permission that there is.
pub is_fully_privileged_sound :
    (w : Db) (ids : List ℕ)
    → ((i : ℕ) → contains ids i ≡ true → contains (permission_ids w) i ≡ true)
    → is_fully_privileged w ids ≡ true
    → (p : ℕ) → contains (permission_ids w) p ≡ true
    → contains ids p ≡ true
unfolding is_fully_privileged distinct
is_fully_privileged_sound w [] s h p m = ground arith
is_fully_privileged_sound w (i ∷ is) s h p m =
    let ids : List ℕ = i ∷ is in
    let same : (b : ℕ) → contains (values (from_slice ids)) b ≡ contains ids b =
      λ b. contains-values (from_slice ids) b ∙ has-from_slice ids b in
    let count = (nat_beq_iff _ _).0 h in
    sym (same p)
    ∙ contains_of_length (values (from_slice ids)) (permission_ids w)
        (from_slice-IsKeyed ids).distinct (λ b n. s b (sym (same b) ∙ n))
        (omega (arith, count, length-map w.permissions (λ (p : PermissionRow). p.id))) p m
