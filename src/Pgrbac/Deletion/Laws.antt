-- ===== src/Pgrbac/Deletion/Laws.antt =====
-- DeleteCustomRole of the store: what remains in the tables.
use theapp.Prelude.{
  ℕ, ◌≡◌, refl, ap, ◌∙◌, Bool, true, false, not, none, some, List, [], ◌∷◌, nat_beq, arith,
  Option-cases, ◌⊎◌, inl, inr,
}
use theapp.Slices.{contains_func}
use theapp.Errors.{Error, wrapped, sentinel, ok, err, is, no_rows}
use theapp.Action.{◌>>=◌, ◌on_error◌, pure, fail}
use theapp.Session.{Uuid}
use theapp.Pgdb.{queue, queue_many, run_batch, run_batch_tx, translate_pg_err}
use theapp.Pgdb.Sends.{Sends-one, Sends-many, Sends-then, Sends-run_batch_tx}
use theapp.Pgrbac.Db.{Db, CustomRoleRow, where', find}
use theapp.Pgrbac.Roles.{owned_role}
use theapp.Pgrbac.Deletion.{
  is_referenced, without_role, delete_owned, delete_permissions, delete_project_assignments,
  delete_org_assignments, delete_custom_role_query, delete_custom_role_permissions_query,
  delete_custom_role_project_assignments_query, delete_custom_role_org_assignments_query,
}
use theapp.Pgrbac.Store.{delete_batch, delete_custom_role}
use theapp.Pgrbac.Store.Laws.{sink_tx-run}

-- The tables without a role and what refers to it.
abbrev pub without_references : Db → ℕ → Db
without_references w id = record w {
  project_role_assignments = where' w.project_role_assignments (λ a. not (nat_beq a.role_id id));
  org_role_assignments = where' w.org_role_assignments (λ a. not (nat_beq a.role_id id));
  custom_role_permissions = without_role id w.custom_role_permissions;
}

abbrev pub deleted_role : Db → ℕ → Db
deleted_role w id = record (without_references w id) {
  custom_roles = where' w.custom_roles (λ r. not (nat_beq r.id id));
}

none_left :
    {A : Type 0} (xs : List A) (f : A → Bool) → contains_func (where' xs (λ x. not (f x))) f ≡ false
unfolding where' contains_func
none_left [] f = refl
none_left (x ∷ xs) f = ground (arith, none_left xs f)

-- No foreign key refers to a role once the rows that did are gone.
pub unreferenced : (w : Db) (id : ℕ) → is_referenced (without_references w id) id ≡ false
unfolding is_referenced
unreferenced w id = ground (
  arith,
  none_left w.custom_role_permissions (λ rp. nat_beq rp.role_id id),
  none_left w.project_role_assignments (λ a. nat_beq a.role_id id),
  none_left w.org_role_assignments (λ a. nat_beq a.role_id id),
)

delete_unreferenced :
    (w : Db) (r : CustomRoleRow)
    → is_referenced w r.id ≡ false
    → delete_owned w (some r) ≡ (
      ok (ok r.id ∷ []),
      record w { custom_roles = where' w.custom_roles (λ o. not (nat_beq o.id r.id)) },
    )
delete_unreferenced w r h = cc h

delete_found :
    (org_id : ℕ) (role_id : Uuid) (w : Db) (r : CustomRoleRow)
    → find w.custom_roles (owned_role org_id role_id) ≡ some r
    → delete_custom_role org_id role_id w ≡ (ok tt, deleted_role w r.id)
unfolding delete_custom_role delete_custom_role_query delete_custom_role_permissions_query
    delete_custom_role_project_assignments_query delete_custom_role_org_assignments_query
delete_found org_id role_id w r found =
    let w1 : Db = record w {
      project_role_assignments =
          where' w.project_role_assignments (λ a. not (nat_beq a.role_id r.id));
    } in
    let w2 : Db = record w1 {
      org_role_assignments = where' w.org_role_assignments (λ a. not (nat_beq a.role_id r.id));
    } in
    let w3 = without_references w r.id in
    let projects =
      Sends-many "delete custom role project assignments"
        (delete_custom_role_project_assignments_query org_id role_id).statement w _
        (ap (delete_project_assignments w) found) in
    let orgs =
      Sends-many "delete custom role org assignments"
        (delete_custom_role_org_assignments_query org_id role_id).statement w1 _
        (ap (delete_org_assignments w1) found) in
    let permissions =
      Sends-many "delete custom role permissions"
        (delete_custom_role_permissions_query org_id role_id).statement w2 _
        (ap (delete_permissions w2) found) in
    let role =
      Sends-one "delete custom role" (delete_custom_role_query org_id role_id).statement w3
        (ap (delete_owned w3) found ∙ delete_unreferenced w3 r (unreferenced w r.id)) in
    let sent =
      Sends-then _ _ w w3 (Sends-then _ _ w w2 (Sends-then _ _ w w1 projects orgs) permissions)
        role in
    sink_tx-run (delete_batch org_id role_id) w
      (Sends-run_batch_tx (delete_batch org_id role_id) w sent)

delete_missing :
    (org_id : ℕ) (role_id : Uuid) (w : Db)
    → find w.custom_roles (owned_role org_id role_id) ≡ none
    → (e : Error) × (delete_custom_role org_id role_id w ≡ (err e, w)) × (is e no_rows ≡ true)
unfolding delete_custom_role delete_custom_role_query delete_custom_role_permissions_query
    delete_custom_role_project_assignments_query delete_custom_role_org_assignments_query queue
    queue_many run_batch_tx run_batch ◌>>=◌ pure ◌on_error◌ fail translate_pg_err
delete_missing org_id role_id w missing =
    (wrapped "close batch result" (wrapped "collect one row" (sentinel no_rows)), cc missing, refl)

-- Deleting a role that the organization owns returns, and removes the role together with every row that
-- refers to it, so that no foreign key stops it; for any other role it fails with ErrNoRows and every
-- table is as before.
pub delete_custom_role_total :
    (org_id : ℕ) (role_id : Uuid) (w : Db)
    → ((r : CustomRoleRow) × (find w.custom_roles (owned_role org_id role_id) ≡ some r)
        × (delete_custom_role org_id role_id w ≡ (ok tt, deleted_role w r.id))
        × (is_referenced (deleted_role w r.id) r.id ≡ false))
      ⊎ ((find w.custom_roles (owned_role org_id role_id) ≡ none)
          × (e : Error) × (delete_custom_role org_id role_id w ≡ (err e, w))
          × (is e no_rows ≡ true))
unfolding is_referenced
delete_custom_role_total org_id role_id w =
    elim (Option-cases (find w.custom_roles (owned_role org_id role_id))) [
      | inl missing ↦
          let (e, k, s) = delete_missing org_id role_id w missing in inr (missing, e, k, s)
      | inr (r, found) ↦ inl (r, found, delete_found org_id role_id w r found, unreferenced w r.id)
    ]
