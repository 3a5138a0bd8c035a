-- ===== src/Grpc.antt =====
-- backend/internal/api/grpc: the messages of the role service (schemas/role.proto, schemas/permission.proto)
-- as its handlers read and write them. An enum is the number that goes over the wire. A request that
-- is nil is `none`; a getter of a message that is absent gives the zero value.
pub mod Permissions
pub mod RoleConv
pub mod Validate
pub mod Statuses
pub mod RoleService
pub mod PageToken
pub mod RolePages
mod Examples
use theapp.Prelude.{ℕ, String, Option, List}
use theapp.Session.{Uuid, Time}

-- pb.Role, as far as requests fill it in.
pub record RoleInput : Type 0 where
  pub id : String
  pub name : String
  pub permissions : List ℕ
  pub etag : String

-- pb.Role, as the service answers it.
pub record RoleOutput : Type 0 where
  pub id : String
  pub name : String
  pub permissions : List ℕ
  pub kind : ℕ
  pub minimum_assignment_scope : ℕ
  pub create_time : Time
  pub update_time : Option Time
  pub etag : String

-- CreateRoleRequest and UpdateRoleRequest; a role that is nil is `none`.
pub record CreateRoleRequest : Type 0 where
  pub role : Option RoleInput

pub record UpdateRoleRequest : Type 0 where
  pub role : Option RoleInput
  pub update_mask : List String

pub record ModifyRolePermissionsRequest : Type 0 where
  pub id : String
  pub add_permissions : List ℕ
  pub remove_permissions : List ℕ
  pub etag : String

-- GetRoleRequest and DeleteRoleRequest.
pub record RoleIdRequest : Type 0 where
  pub id : String

-- The four requests that assign a role and take it away.
pub record AssignmentRequest : Type 0 where
  pub role_id : String
  pub user_id : String

-- The standard library's uuid: Parse, where `none` is an error, and String.
pub record Uuids : Type 0 where
  pub parse : String → Option Uuid
  pub text : Uuid → String

-- ListRolesRequest, and the two requests that list the assignments of a user. An int32 is the number
-- modulo 2 ^ 32.
pub record ListRolesRequest : Type 0 where
  pub page_size : ℕ
  pub page_token : String

pub record ListAssignmentsRequest : Type 0 where
  pub user_id : String
  pub page_size : ℕ
  pub page_token : String

pub record ListRolesResponse : Type 0 where
  pub roles : List RoleOutput
  pub total_size : ℕ
  pub next_page_token : String
