-- ===== src/Grpc/RolePages/Stored.antt =====
-- The role service over the roles domain over the tables: the handlers' core is the roles core, and its
-- store is that of PostgreSQL (backend/cmd/server/main.go puts them together).
use theapp.Prelude.{
  ℕ, zero, suc, ◌≤◌, ◌≡◌, refl, sym, ap, ◌∙◌, Option, none, some, List, [], ◌∷◌, map, length,
  nat_beq, arith,
}
use theapp.Errors.{ok}
use theapp.Action.{◌>>=◌, ◌on_error◌, or_panic, pure}
use theapp.Permission.{append_to}
use theapp.Session.{AuthSession, AuthProject}
use theapp.Transactor.{Transactor}
use theapp.Pgdb.Sends.{Sends-then, Sends-many, Sends-one, Sends-run_batch}
use theapp.Pgrbac
use theapp.Pgrbac.Db.{Db, Postgres, CustomRoleRow, where', take, drop, page}
use theapp.Pgrbac.Roles.{custom_role_row}
use theapp.Pgrbac.Queries.{by_name_alone, custom_roles_query, custom_role_count_query}
use theapp.Pgrbac.Schema.Laws.{IsOrdering}
use theapp.Pgrbac.Store
use theapp.Role
use theapp.Rbac.Storer.{RoleStorer}
use theapp.Rbac.Conv.{custom_role_from_pg, custom_roles_from_pg}
use theapp.Rbac.Database.{database_store}
use theapp.Rbac.Queries
use theapp.Rbac.Edit
use theapp.Rbac.Assign
use theapp.Grpc.{RoleOutput, Uuids}
use theapp.Grpc.PageToken.{Wire, page_size_of}
use theapp.Grpc.PageToken.Laws.{IsWire}
use theapp.Grpc.RoleService.{CustomRoleCore}
use theapp.Grpc.RolePages.{custom_roles_to_pb}
use theapp.Grpc.RolePages.Laws.{HasPages}
use theapp.Grpc.RolePages.Followed.{follow, pages_are_followed}

-- The roles core as the core of the handlers.
abbrev pub rbac_core : {W : Type 0} → RoleStorer W → Transactor W → CustomRoleCore W
rbac_core st tr = record {
  custom_roles = Queries.custom_roles st;
  user_project_custom_roles = Queries.user_project_custom_roles st;
  user_org_custom_roles = Queries.user_org_custom_roles st;
  custom_role_by_id = Queries.custom_role_by_id st;
  create_custom_role = Edit.create_custom_role st tr;
  update_custom_role = Edit.update_custom_role st tr;
  modify_custom_role_permissions = Edit.modify_custom_role_permissions st tr;
  delete_custom_role = Edit.delete_custom_role st tr;
  assign_custom_role_to_project = Assign.assign_custom_role_to_project st tr;
  unassign_custom_role_from_project = Assign.unassign_custom_role_from_project st tr;
  assign_custom_role_to_org = Assign.assign_custom_role_to_org st tr;
  unassign_custom_role_from_org = Assign.unassign_custom_role_from_org st tr;
}

appended :
    {A : Type 0} (o : Option A) (r : Option (List A)) {xs : List A}
    → append_to o r ≡ some xs
    → (a : A) × (rest : List A) × (o ≡ some a) × (r ≡ some rest) × (xs ≡ a ∷ rest)
appended none r h = ground arith
appended (some a) none h = ground arith
appended (some a) (some rest) h = (a, rest, refl, refl, ground arith)

-- The conversion of a page of rows is that page of the conversion.
from_pg_drop :
    (rows : List Pgrbac.CustomRole) (roles : List Role.CustomRole) (n : ℕ)
    → custom_roles_from_pg rows ≡ some roles
    → custom_roles_from_pg (drop n rows) ≡ some (drop n roles)
unfolding custom_roles_from_pg drop
from_pg_drop rows roles zero h = h
from_pg_drop [] [] (suc n) h = refl
from_pg_drop [] (o ∷ os) (suc n) h = ground arith
from_pg_drop (r ∷ rs) roles (suc n) h =
    let (o, os, one, rest, split) = appended (custom_role_from_pg r) (custom_roles_from_pg rs) h in
    from_pg_drop rs os n rest ∙ ap (λ xs. some (drop (suc n) xs)) (sym split)

from_pg_take :
    (rows : List Pgrbac.CustomRole) (roles : List Role.CustomRole) (n : ℕ)
    → custom_roles_from_pg rows ≡ some roles
    → custom_roles_from_pg (take n rows) ≡ some (take n roles)
unfolding custom_roles_from_pg take
from_pg_take rows roles zero h = refl
from_pg_take [] [] (suc n) h = refl
from_pg_take [] (o ∷ os) (suc n) h = ground arith
from_pg_take (r ∷ rs) roles (suc n) h =
    let (o, os, one, rest, split) = appended (custom_role_from_pg r) (custom_roles_from_pg rs) h in
    cc (one, from_pg_take rs os n rest, split)

length-from_pg :
    (rows : List Pgrbac.CustomRole) (roles : List Role.CustomRole)
    → custom_roles_from_pg rows ≡ some roles
    → length roles ≡ length rows
unfolding custom_roles_from_pg
length-from_pg [] [] h = refl
length-from_pg [] (o ∷ os) h = ground arith
length-from_pg (r ∷ rs) roles h =
    let (o, os, one, rest, split) = appended (custom_role_from_pg r) (custom_roles_from_pg rs) h in
    ap length split ∙ ap suc (length-from_pg rs os rest)

module _ {A B : Type 0} (f : A → B) where
  map-take : (n : ℕ) (xs : List A) → map f (take n xs) ≡ take n (map f xs)
  unfolding take
  map-take zero xs = refl
  map-take (suc n) [] = refl
  map-take (suc n) (x ∷ xs) = ap (λ ys. f x ∷ ys) (map-take n xs)

  map-drop : (n : ℕ) (xs : List A) → map f (drop n xs) ≡ drop n (map f xs)
  unfolding drop
  map-drop zero xs = refl
  map-drop (suc n) [] = refl
  map-drop (suc n) (x ∷ xs) = map-drop n xs

  length-map : (xs : List A) → length (map f xs) ≡ length xs
  length-map [] = refl
  length-map (x ∷ xs) = ap suc (length-map xs)

-- The roles of an organization, in the order in which they are listed.
abbrev pub stored_roles : Postgres → Db → ℕ → List CustomRoleRow
stored_roles pg w org_id = by_name_alone pg (where' w.custom_roles (λ r. nat_beq r.org_id org_id))

module _ (pg : Postgres) (w : Db) where
  custom_roles-run :
      (org_id size offset : ℕ)
      → Store.custom_roles pg org_id size offset w ≡ (
        ok (
          map (custom_role_row pg w) (page size offset (stored_roles pg w org_id)),
          length (where' w.custom_roles (λ r. nat_beq r.org_id org_id)),
        ),
        w,
      )
  unfolding Store.custom_roles custom_roles_query custom_role_count_query
  custom_roles-run org_id size offset = Sends-run_batch _ w (
      Sends-then _ _ w w
        (Sends-many "custom roles" (custom_roles_query pg org_id size offset).statement w
          (map (custom_role_row pg w) (page size offset (stored_roles pg w org_id))) refl)
        (Sends-one "custom role count" (custom_role_count_query org_id).statement w refl))

  -- The core over the tables answers pages of the stored roles.
  database-HasPages :
      (uuid : Uuids) (wire : Wire Unit) (tr : Transactor Db) (sess : AuthSession)
      (project : AuthProject) (size : ℕ) (roles : List Role.CustomRole)
      → IsOrdering pg
      → sess.project ≡ some project
      → custom_roles_from_pg (map (custom_role_row pg w) (stored_roles pg w project.org_id))
        ≡ some roles
      → HasPages uuid wire (rbac_core (database_store pg) tr) (some sess) size roles w
  unfolding Queries.custom_roles ◌>>=◌ ◌on_error◌ pure or_panic by_name_alone
  database-HasPages uuid wire tr sess project size roles law selected converted = record {
    page_of = λ offset.
        let k = page_size_of size in
        let rows = stored_roles pg w project.org_id in
        let shown =
          ap custom_roles_from_pg (
            map-take (custom_role_row pg w) k (drop offset rows)
            ∙ ap (take k) (map-drop (custom_role_row pg w) offset rows))
          ∙ from_pg_take (drop offset (map (custom_role_row pg w) rows)) (drop offset roles) k
              (from_pg_drop (map (custom_role_row pg w) rows) roles offset converted) in
        let counted = sym (
          length-from_pg (map (custom_role_row pg w) rows) roles converted
          ∙ length-map (custom_role_row pg w) rows
          ∙ law.counts CustomRoleRow (λ r. r.name) (λ _. 0)
              (where' w.custom_roles (λ r. nat_beq r.org_id project.org_id))) in
        cc (selected, custom_roles-run project.org_id k offset, shown, counted);
  }

  -- A client that starts without a token and sends at most one request more than the organization of
  -- its session has roles gathers all of them, each once and in the order in which they are listed,
  -- whatever page size it asks for: through the service, the roles core and the store, over tables
  -- that nobody else changes meanwhile and whose roles the core and the service can convert, and
  -- where their count fits in an int32.
  pub every_role_is_listed :
      (uuid : Uuids) (wire : Wire Unit) (tr : Transactor Db) (sess : AuthSession)
      (project : AuthProject) (size : ℕ) (roles : List Role.CustomRole) (outs : List RoleOutput)
      → IsWire wire ""
      → IsOrdering pg
      → sess.project ≡ some project
      → custom_roles_from_pg (map (custom_role_row pg w) (stored_roles pg w project.org_id))
        ≡ some roles
      → custom_roles_to_pb uuid roles ≡ some outs
      → length roles ≤ 2147483647
      → follow uuid wire
          (rbac_core (database_store pg) tr)
          (some sess)
          size
          (suc (length roles))
          ""
          w
        ≡ some outs
  every_role_is_listed uuid wire tr sess project size roles outs lawful law selected read shown
        fits =
      pages_are_followed uuid wire (rbac_core (database_store pg) tr) (some sess) size roles outs
        lawful w (database-HasPages uuid wire tr sess project size roles law selected read) shown
        fits
