-- ===== src/Pguser.antt =====
-- backend/internal/core/pgstores/pguser/model.go: the rows that the store of users returns.
use theapp.Prelude.{ℕ, String, Bool, Option}
use theapp.Session.{Uuid, Time}

pub record User : Type 0 where
  pub id : ℕ
  pub external_id : Uuid
  pub email : String
  pub name : String
  pub email_verified_at : Option Time
  pub created_at : Time
  pub updated_at : Option Time
  pub etag : Uuid

pub record CreateUser : Type 0 where
  pub email : String
  pub name : String

-- UpdateUser, with UserUpdateFields, whose one field is `updates_name`.
pub record UpdateUser : Type 0 where
  pub external_id : Uuid
  pub etag : Uuid
  pub updates_name : Bool
  pub name : String

pub record Filter : Type 0 where
  pub email : String
  pub name : String

-- OrderByField
pub data OrderByField : Type 0 where
  email created_at updated_at : OrderByField

-- order.Direction and order.By of backend/internal/data/order
pub data Direction : Type 0 where
  asc desc : Direction

pub record By (F : Type 0) : Type 0 where
  pub field : F
  pub direction : Direction
