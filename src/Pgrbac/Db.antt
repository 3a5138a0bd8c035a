-- ===== src/Pgrbac/Db.antt =====
-- backend/internal/data/pgschema/schema.sql: the tables that the role store reads and writes, with the
-- columns that it uses, and what the store takes from PostgreSQL itself.
pub mod Laws
use theapp.Prelude.{
  ℕ, zero, suc, String, Bool, Option, none, some, List, [], ◌∷◌, ◌++◌, if◌then◌else◌,
}
use theapp.Session.{Uuid, Time}

-- useraccess.users
pub record UserRow : Type 0 where
  pub id : ℕ
  pub external_id : Uuid

-- org.org_membership
pub record MembershipRow : Type 0 where
  pub user_id : ℕ
  pub org_id : ℕ

-- org.projects
pub record ProjectRow : Type 0 where
  pub id : ℕ
  pub org_id : ℕ

-- rbac.permissions
pub record PermissionRow : Type 0 where
  pub id : ℕ
  pub name : String

-- rbac.custom_roles
pub record CustomRoleRow : Type 0 where
  pub id : ℕ
  pub external_id : Uuid
  pub name : String
  pub org_id : ℕ
  pub managed_key : Option String
  pub created_at : Time
  pub updated_at : Option Time
  pub etag : Uuid

-- rbac.custom_role_permissions and rbac.system_role_permissions
pub record RolePermissionRow : Type 0 where
  pub role_id : ℕ
  pub permission_id : ℕ

-- rbac.project_role_assignments
pub record ProjectAssignmentRow : Type 0 where
  pub user_id : ℕ
  pub project_id : ℕ
  pub role_id : ℕ
  pub org_id : ℕ

-- rbac.org_role_assignments
pub record OrgAssignmentRow : Type 0 where
  pub user_id : ℕ
  pub org_id : ℕ
  pub role_id : ℕ

-- rbac.system_roles
pub record SystemRoleRow : Type 0 where
  pub id : ℕ
  pub name : String

-- rbac.system_role_assignments
pub record SystemAssignmentRow : Type 0 where
  pub user_id : ℕ
  pub role_id : ℕ

-- The tables that the store reads and writes; of org.organizations the ids. The log that the triggers
-- audit_row write (audit.audit_log), which no query of the program reads, is not among them. `next_role_id` is the sequence of rbac.custom_roles.id, and
-- `draws` counts the calls of gen_random_uuid().
pub record Db : Type 0 where
  pub users : List UserRow
  pub organizations : List ℕ
  pub memberships : List MembershipRow
  pub projects : List ProjectRow
  pub permissions : List PermissionRow
  pub custom_roles : List CustomRoleRow
  pub custom_role_permissions : List RolePermissionRow
  pub project_role_assignments : List ProjectAssignmentRow
  pub org_role_assignments : List OrgAssignmentRow
  pub system_roles : List SystemRoleRow
  pub system_role_permissions : List RolePermissionRow
  pub system_role_assignments : List SystemAssignmentRow
  pub next_role_id : ℕ
  pub draws : ℕ

-- What PostgreSQL computes. `order_by` sorts rows by a text in the collation of the database, and rows
-- of one text by a number; a query that orders by the text alone gives one number to all.
pub record Postgres : Type 1 where
  pub gen_random_uuid : ℕ → Uuid
  pub now : Db → Time
  pub lower : String → String
  pub btrim : String → String
  pub order_by : (A : Type 0) → (A → String) → (A → ℕ) → List A → List A

module _ {A : Type 0} where
  -- WHERE
  unfoldable pub where' : List A → (A → Bool) → List A
  where' [] f = []
  where' (x ∷ xs) f = let rest = where' xs f in if f x then x ∷ rest else rest

  -- A row of a table in which at most one row passes the test, by a unique key.
  unfoldable pub find : List A → (A → Bool) → Option A
  find [] f = none
  find (x ∷ xs) f = let rest = find xs f in if f x then some x else rest

  -- LIMIT and OFFSET
  unfoldable pub take : ℕ → List A → List A
  take zero xs = []
  take (suc n) [] = []
  take (suc n) (x ∷ xs) = x ∷ take n xs

  unfoldable pub drop : ℕ → List A → List A
  drop zero xs = xs
  drop (suc n) [] = []
  drop (suc n) (x ∷ xs) = drop n xs

  abbrev pub page : ℕ → ℕ → List A → List A
  page page_size page_offset rows = take page_size (drop page_offset rows)

  unfoldable pub to_list : Option A → List A
  to_list none = []
  to_list (some a) = a ∷ []

module _ {A B : Type 0} where
  -- JOIN: the rows that each row leads to.
  unfoldable pub join : List A → (A → List B) → List B
  join [] f = []
  join (x ∷ xs) f = f x ++ join xs f

  -- A scalar subquery: no row is NULL, which no test passes.
  unfoldable pub and_then : Option A → (A → Option B) → Option B
  and_then none f = none
  and_then (some a) f = f a
