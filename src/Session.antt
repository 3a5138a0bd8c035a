-- ===== src/Session.antt =====
-- backend/internal/core/mdl/auth.go: the caller of a request. The session that a context may carry
-- is passed as an `Option AuthSession`.
use theapp.Prelude.{ℕ, String, Bool, ◌&&◌, Option, none, some, List, ◌==◌, string_comparable}
use theapp.Permission.{Permission}
use theapp.Errors.{message}
use theapp.Action.{Action, pure, fail}

-- uuid.UUID: the 16 bytes as one big-endian number, so that bytes.Compare is the order of numbers.
abbrev pub Uuid : Type 0
Uuid = ℕ

-- uuid.Nil()
abbrev pub nil_uuid : Uuid
nil_uuid = 0

-- time.Time and time.Duration, in nanoseconds; the program compares times and adds durations.
abbrev pub Time : Type 0
Time = ℕ

-- mdl.SystemOrgName
abbrev pub system_org_name : String
system_org_name = "theapp"

pub record AuthUser : Type 0 where
  pub user_id : Uuid
  pub email : String
  pub permissions : List Permission

pub record AuthProject : Type 0 where
  pub id : ℕ
  pub org_id : ℕ
  pub org_name : String
  pub is_control : Bool
  pub is_org_member : Bool

pub record AuthSession : Type 0 where
  pub user : AuthUser
  pub project : Option AuthProject

-- IsSystemControlProject
unfoldable pub is_system_control_project : AuthProject → Bool
is_system_control_project ap = ap.org_name == system_org_name && ap.is_control

-- sess, ok := AuthSessionFromContext(ctx); if !ok { return … }
abbrev pub require_session : {W : Type 0} → Option AuthSession → Action W AuthSession
require_session (some s) = pure s
require_session none = fail (message "auth session missing")

-- if sess.Project == nil { return … }
abbrev pub require_project : {W : Type 0} → Option AuthProject → Action W AuthProject
require_project (some p) = pure p
require_project none = fail (message "project context missing")
