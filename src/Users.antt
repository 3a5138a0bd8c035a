-- ===== src/Users.antt =====
-- backend/internal/core/user and backend/internal/core/mdl/user.go.
pub mod Normal
mod Examples
use theapp.Prelude.{
  ℕ, String, Bool, not, ◌&&◌, Option, none, some, List, [], ◌∷◌, nat_beq, ◌==◌, string_comparable,
  if◌then◌else◌,
}
use theapp.Errors.{
  Error, is, sentinel, wrapped, message, validation_error, not_found, already_exists, etag_mismatch,
  no_rows, pg_already_exists, pg_etag_mismatch,
}
use theapp.Action.{Action, pure, fail, check_valid, ◌>>=◌, ◌>>◌, ◌on_error◌}
use theapp.Permission.{append_to}
use theapp.Session.{Uuid, nil_uuid}
use theapp.Text.{trim_space}
use theapp.Pguser
use theapp.Auth.{is_address_of, no_rows_as}
use theapp.Org.Conv.{User, user_from_pg, users_from_pg}

-- UserOrderByField: a string, and so not always one of the three.
abbrev pub FieldName : Type 0
FieldName = String

pub record CreateUser : Type 0 where
  pub email : String
  pub name : String

-- UpdateUser, with UserUpdateFields, whose one field is `updates_name`.
pub record UpdateUser : Type 0 where
  pub id : Uuid
  pub etag : Uuid
  pub updates_name : Bool
  pub name : String

pub record UserStorer (W : Type 0) : Type 0 where
  pub user_by_external_id : Uuid → Action W Pguser.User
  pub user_by_email : String → Action W Pguser.User
  pub users :
      Pguser.Filter → List (Pguser.By Pguser.OrderByField) → ℕ → ℕ → Action W (List Pguser.User × ℕ)
  pub create_user : Pguser.CreateUser → Action W Pguser.User
  pub update_user : Pguser.UpdateUser → Action W Pguser.User

-- Core; `to_lower` is strings.ToLower, and `parse_address` is that of net/mail.
pub record UserCore (W : Type 0) : Type 0 where
  pub user_storer : UserStorer W
  pub to_lower : String → String
  pub parse_address : String → Option String

-- CreateUser.Validate
unfoldable pub validate_create_user : (String → Option String) → CreateUser → Option Error
validate_create_user parse_address cu =
    if cu.email == ""
    then some (validation_error "email required")
    else if not (is_address_of cu.email (parse_address cu.email))
    then some (validation_error "email invalid")
    else if cu.name == ""
    then some (validation_error "name required")
    else none

-- UpdateUser.Validate
unfoldable pub validate_update_user : UpdateUser → Option Error
validate_update_user uu =
    if nat_beq uu.etag nil_uuid
    then some (validation_error "etag invalid")
    else if uu.updates_name && uu.name == ""
    then some (validation_error "name required")
    else none

unfoldable pub create_user_to_pg : CreateUser → Pguser.CreateUser
create_user_to_pg cu = record { email = cu.email; name = cu.name }

unfoldable pub update_user_to_pg : UpdateUser → Pguser.UpdateUser
update_user_to_pg uu = record {
  external_id = uu.id;
  etag = uu.etag;
  updates_name = uu.updates_name;
  name = uu.name;
}

abbrev pub field_to_pg : FieldName → Option Pguser.OrderByField
field_to_pg f =
    if f == "email"
    then some Pguser.email
    else if f == "created_at"
    then some Pguser.created_at
    else if f == "updated_at"
    then some Pguser.updated_at
    else none

abbrev pub with_direction :
    Pguser.Direction → Option Pguser.OrderByField → Option (Pguser.By Pguser.OrderByField)
with_direction d none = none
with_direction d (some f) = some (record { field = f; direction = d })

-- orderByToPg; `none` is its error.
unfoldable pub order_by_to_pg : Pguser.By FieldName → Option (Pguser.By Pguser.OrderByField)
order_by_to_pg o = with_direction o.direction (field_to_pg o.field)

-- orderBysToPg: an error in one round ends the loop.
unfoldable pub order_bys_to_pg :
    List (Pguser.By FieldName) → Option (List (Pguser.By Pguser.OrderByField))
unfolding order_by_to_pg
order_bys_to_pg [] = some []
order_bys_to_pg (o ∷ os) = append_to (order_by_to_pg o) (order_bys_to_pg os)

abbrev pub or_unknown_field : {W A : Type 0} → Option A → Action W A
or_unknown_field none = fail (wrapped "convert order bys" (message "unknown order by field"))
or_unknown_field (some a) = pure a

abbrev create_user_error : Error → Error
create_user_error e =
    if is e pg_already_exists then sentinel already_exists else wrapped "create user" e

abbrev update_user_error : Error → Error
update_user_error e =
    if is e no_rows
    then sentinel not_found
    else if is e pg_etag_mismatch
    then sentinel etag_mismatch
    else wrapped "update user" e

module _ {W : Type 0} (c : UserCore W) where
  -- UserByID
  unfoldable pub user_by_id : Uuid → Action W User
  user_by_id id = do
    pg_user ←
        c.user_storer.user_by_external_id id
        on_error no_rows_as (sentinel not_found) "user by external id"
    pure (user_from_pg pg_user)

  -- strings.ToLower(strings.TrimSpace(email))
  unfoldable pub normal_address : String → String
  normal_address email = c.to_lower (trim_space email)

  -- UserByEmail
  unfoldable pub user_by_email : String → Action W User
  user_by_email email = do
    pg_user ←
        c.user_storer.user_by_email (normal_address email)
        on_error no_rows_as (sentinel not_found) "user by email"
    pure (user_from_pg pg_user)

  abbrev pub normalized : CreateUser → CreateUser
  normalized cu = record { email = normal_address cu.email; name = cu.name }

  -- CreateUser
  unfoldable pub create_user : CreateUser → Action W User
  create_user cu = do
    check_valid (validate_create_user c.parse_address (normalized cu))
    pg_user ←
        c.user_storer.create_user (create_user_to_pg (normalized cu)) on_error create_user_error
    pure (user_from_pg pg_user)

  -- UpdateUser
  unfoldable pub update_user : UpdateUser → Action W User
  update_user uu = do
    check_valid (validate_update_user uu)
    pg_user ← c.user_storer.update_user (update_user_to_pg uu) on_error update_user_error
    pure (user_from_pg pg_user)

  -- Users
  unfoldable pub users :
      Pguser.Filter → List (Pguser.By FieldName) → ℕ → ℕ → Action W (List User × ℕ)
  users filter order_bys page_size page_offset = do
    pg_order_bys ← or_unknown_field (order_bys_to_pg order_bys)
    page ←
        c.user_storer.users filter pg_order_bys page_size page_offset on_error wrapped "query users"
    pure (users_from_pg page.0, page.1)
