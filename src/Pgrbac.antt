-- ===== src/Pgrbac.antt =====
-- backend/internal/core/pgstores/pgrbac/model.go: the rows that the role store takes and returns. The
-- children model the store over its tables.
pub mod Db
pub mod Schema
pub mod Roles
pub mod RolePermissions
pub mod Deletion
pub mod Queries
pub mod Assignments
pub mod System
pub mod Store
pub mod Examples
use theapp.Prelude.{ℕ, String, Bool, Option, List}
use theapp.Session.{Uuid, Time}

pub record CustomRole : Type 0 where
  pub id : ℕ
  pub external_id : Uuid
  pub name : String
  pub managed_key : Option String
  pub permission_names : List String
  pub created_at : Time
  pub updated_at : Option Time
  pub etag : Uuid

pub record CreateCustomRole : Type 0 where
  pub org_id : ℕ
  pub name : String
  pub permission_names : List String

pub record CustomRoleUpdateFields : Type 0 where
  pub name : Bool
  pub permission_names : Bool

pub record UpdateCustomRole : Type 0 where
  pub org_id : ℕ
  pub external_id : Uuid
  pub etag : Uuid
  pub fields : CustomRoleUpdateFields
  pub name : String
  pub permission_names : List String

pub record ModifyCustomRolePermissions : Type 0 where
  pub org_id : ℕ
  pub external_id : Uuid
  pub etag : Uuid
  pub add_permission_names : List String
  pub remove_permission_names : List String

pub record SystemRole : Type 0 where
  pub name : String
  pub permission_names : List String

pub record ProjectPermissions : Type 0 where
  pub org_id : ℕ
  pub permission_names : List String

pub record OrgPermissions : Type 0 where
  pub org_id : ℕ
  pub permission_names : List String

pub record PermissionsByScope : Type 0 where
  pub project_permission_names : List String
  pub org_permission_names : List String
  pub system_permission_names : List String
