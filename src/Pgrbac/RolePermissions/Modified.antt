-- ===== src/Pgrbac/RolePermissions/Modified.antt =====
-- ModifyCustomRolePermissions of the store: what a call that returned has read and written.
use mathlib.Core.Path.{subst₂}
use theapp.Prelude.{
  ℕ, ◌≡◌, refl, sym, ap, ◌∙◌, String, Bool, string_comparable, ◌&&◌, Option, none, some, List, [],
  ◌∷◌, ◌++◌, map, nat_beq, nat_comparable, arith,
}
use theapp.Errors.{ok}
use theapp.Action.Laws.{bind-ok, pure-ok}
use theapp.Pgdb.{run_batch_tx}
use theapp.Pgdb.Sends.{then-Sends, one-Sends, run_batch_tx-Sends}
use theapp.Pgrbac
use theapp.Pgrbac.Db.{Db, Postgres, CustomRoleRow, find, to_list}
use theapp.Pgrbac.Schema.{resolve_permissions}
use theapp.Pgrbac.Roles.{owned_role, custom_role_row}
use theapp.Pgrbac.Queries.Laws.{reads_one, to_list-one}
use theapp.Pgrbac.Queries.{custom_role_by_external_id_query}
use theapp.Pgrbac.RolePermissions.{
  modified, modify_target, modify_custom_role_permissions_query, scan_modify,
}
use theapp.Pgrbac.Store.{modify_batch, modify_custom_role_permissions}

-- What a modification found and did.
pub record Modified (pg : Postgres) (mp : Pgrbac.ModifyCustomRolePermissions) (w w' : Db)
    (row : Pgrbac.CustomRole) : Type 0 where
  pub role : CustomRoleRow
  pub ids : List ℕ
  pub names : List String
  pub target :
      find w.custom_roles (λ r. owned_role mp.org_id mp.external_id r && nat_beq r.etag mp.etag)
      ≡ some role
  pub resolved :
      resolve_permissions pg w (mp.add_permission_names ++ mp.remove_permission_names)
      ≡ some (ids, names)
  pub written : w' ≡ modified pg mp w role ids names
  pub last : CustomRoleRow
  pub last_found : find w'.custom_roles (owned_role mp.org_id mp.external_id) ≡ some last
  pub answer : custom_role_row pg w' last ≡ row

module _ (pg : Postgres) (mp : Pgrbac.ModifyCustomRolePermissions) where
  modify_target-ok :
      (w : Db) (is_exists : Bool) (target : Option CustomRoleRow)
      (resolved : Option (List ℕ × List String)) {id : ℕ} {w' : Db}
      → modify_target pg mp w is_exists target resolved ≡ (ok (ok id ∷ []), w')
      → (r : CustomRoleRow) × (ids : List ℕ) × (names : List String) × (target ≡ some r)
        × (resolved ≡ some (ids, names))
        × (w' ≡ modified pg mp w r ids names)
  unfolding scan_modify
  modify_target-ok w is_exists (some r) (some (ids, names)) h =
      (r, ids, names, refl, refl, sym (ap (λ x. x.1) h))
  modify_target-ok w is_exists target none h = ground arith
  modify_target-ok w is_exists none (some (ids, names)) h = ground arith

  pub modify_custom_role_permissions-Modified :
      (w w' : Db) (row : Pgrbac.CustomRole)
      → modify_custom_role_permissions pg mp w ≡ (ok row, w')
      → Modified pg mp w w' row
  unfolding modify_custom_role_permissions
  modify_custom_role_permissions-Modified w w' row h =
      let ((id, read), v, e, k) = bind-ok (run_batch_tx (modify_batch pg mp)) _ w h in
      let (same, moved) = pure-ok read v k in
      let (u, s, t) = then-Sends _ _ w (run_batch_tx-Sends (modify_batch pg mp) w e) in
      let (r, ids, names, f, g, m) = modify_target-ok w _ _ _ (
        one-Sends "modify custom role permissions" (modify_custom_role_permissions_query pg mp) w
          s) in
      let (rows, kept) =
        reads_one
          (map (custom_role_row pg u)
            (to_list (find u.custom_roles (owned_role mp.org_id mp.external_id))))
          u
          (one-Sends "modified custom role"
            (custom_role_by_external_id_query pg mp.org_id mp.external_id) u t) in
      let (last, found, answer) =
        to_list-one (find u.custom_roles (owned_role mp.org_id mp.external_id)) _ rows in
      subst₂ (λ x y. Modified pg mp w x y) (kept ∙ moved) same
        (record {
          role = r;
          ids = ids;
          names = names;
          target = f;
          resolved = g;
          written = m;
          last = last;
          last_found = found;
          answer = answer;
        })
