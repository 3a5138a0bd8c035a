-- ===== src/Server/Interceptors.antt =====
-- backend/internal/api/grpc/unary_interceptors.go: what stands between a call and its handler.
-- Logging is left out; it neither answers a call nor changes what the handler sees.
use theapp.Prelude.{
  ℕ, String, Bool, not, ◌||◌, Option, none, some, List, [], ◌∷◌, nat_beq, ◌==◌, string_comparable,
  contains, if◌then◌else◌,
}
use theapp.Set.{has}
use theapp.Slices.{all}
use theapp.Status.{GrpcCode, unauthenticated, permission_denied, invalid_argument, internal}
use theapp.Errors.{
  Error, Outcome, ok, err, panics, is, sentinel, message, wrapped, both, status, not_found,
  validation, pg_error,
}
use theapp.Action.{Action, pure, fail, or_panic, guard, ◌>>=◌, ◌>>◌, ◌on_error◌}
use theapp.Permission.{Permission}
use theapp.Session.{Uuid, AuthSession, AuthProject, is_system_control_project}
use theapp.Server.{
  public_methods, no_project_methods, system_control_project_methods, org_control_project_methods,
  permission_registry, registered, method_requires_organization_scope,
}
use theapp.Server.Numbers.{Signed, atoi, cut_prefix}

-- What the interceptors read of and add to a context: the metadata that came with the call, if any,
-- by key, and the session.
pub record Context : Type 0 where
  pub metadata : Option (String → List String)
  pub session : Option AuthSession

-- mdl.ContextWithAuthSession
unfoldable pub context_with_auth_session : Context → AuthSession → Context
context_with_auth_session ctx s = record { metadata = ctx.metadata; session = some s }

-- A handler, with the request that it is called with.
abbrev pub Handler : Type 0 → Type 0 → Type 0
Handler W A = Context → Action W A

-- The interface AuthCore, so far as the interceptors call it.
pub record AuthCore (W : Type 0) : Type 0 where
  pub auth_session : Uuid → Option ℕ → Action W AuthSession
  pub organization_auth_session : Uuid → ℕ → Action W AuthSession

-- jwt.ParseWithClaims of github.com/golang-jwt/jwt, which is not under src/. It is called with the key
-- function, which is asked whether the token's signing method is an HMAC, the issuer, the audience
-- and the token, and gives the user of the claims where there is no error and the token is valid.
pub record Jwt : Type 0 where
  pub parse_with_claims : (Bool → Option String) → String → String → String → Option Uuid

pub record JwtConfig : Type 0 where
  pub key : String
  pub issuer : String
  pub audience : String

unfoldable pub key_func : String → Bool → Option String
key_func key is_hmac = if is_hmac then some key else none

-- err != nil || id <= 0
abbrev pub positive : Option Signed → Option ℕ
positive none = none
positive (some n) = if n.negative || nat_beq n.size 0 then none else some n.size

-- The error that authUnaryInterceptor makes of one of authCore.
abbrev pub session_error : Error → Error
session_error e =
    if is e not_found
    then wrapped "resolve auth session: unknown user or project" (status unauthenticated)
    else wrapped "resolve auth session" e

abbrev pub session_project : Option AuthSession → Option AuthProject
session_project none = none
session_project (some s) = s.project

abbrev pub recovered : {A : Type 0} → Outcome A → Outcome A
recovered (ok a) = ok a
recovered (err e) = err e
recovered panics = err (message "PANIC")

-- errors.As with the method GRPCStatus, over the chain in its order.
abbrev pub first_status : Option GrpcCode → Option GrpcCode → Option GrpcCode
first_status (some c) d = some c
first_status none d = d

abbrev pub grpc_status : Error → Option GrpcCode
grpc_status (status c) = some c
grpc_status (wrapped m e) = grpc_status e
grpc_status (pg_error code) = none
grpc_status (both d e) = first_status (grpc_status d) (grpc_status e)
grpc_status (sentinel s) = none
grpc_status (message m) = none

abbrev pub code_or_internal : Option GrpcCode → GrpcCode
code_or_internal none = internal
code_or_internal (some c) = c

-- The error that leaves the server.
unfoldable pub external_error : Error → Error
external_error e =
    if is e validation then status invalid_argument else status (code_or_internal (grpc_status e))

module _ {W : Type 0} where
  -- The first value under a key of the metadata.
  abbrev pub first_of : GrpcCode → List String → Action W String
  first_of c [] = fail (status c)
  first_of c (v ∷ vs) = pure v

  -- `o`, where it is there, or else an error with this code.
  abbrev pub or_status : {A : Type 0} → GrpcCode → Option A → Action W A
  or_status c none = fail (status c)
  or_status c (some a) = pure a

  -- parseBearer
  unfoldable pub parse_bearer : Jwt → JwtConfig → Context → Action W Uuid
  unfolding key_func cut_prefix
  parse_bearer jwt cfg ctx = do
    md ← or_status unauthenticated ctx.metadata
    val ← first_of unauthenticated (md "authorization")
    token ← or_status unauthenticated (cut_prefix val "Bearer ")
    or_status unauthenticated
        (jwt.parse_with_claims (key_func cfg.key) cfg.issuer cfg.audience token)

  -- parseProjectID
  unfoldable pub parse_project_id : Context → Action W ℕ
  unfolding atoi
  parse_project_id ctx = do
    md ← or_status invalid_argument ctx.metadata
    val ← first_of invalid_argument (md "x-project-id")
    guard (not (val == "")) (status invalid_argument)
    or_status invalid_argument (positive (atoi val))

  -- projectID, nil for a method without a project
  unfoldable pub project_id_of : String → Context → Action W (Option ℕ)
  project_id_of method ctx =
      if has no_project_methods method
      then pure none
      else do id ← parse_project_id ctx on_error wrapped "parse project id"; pure (some id)

  -- *projectID panics where projectID is nil.
  unfoldable pub resolve_session : AuthCore W → String → Uuid → Option ℕ → Action W AuthSession
  resolve_session core method user_id project_id =
      if method_requires_organization_scope method
      then (do id ← or_panic project_id; core.organization_auth_session user_id id)
      else core.auth_session user_id project_id

  abbrev pub or_unregistered : Option (List Permission) → Action W (List Permission)
  or_unregistered none = fail (message "method is not registered in the permission registry")
  or_unregistered (some ps) = pure ps

  abbrev pub or_missing : Option AuthProject → Action W AuthProject
  or_missing none = fail (message "auth session project data missing")
  or_missing (some p) = pure p

  -- requireSystemControlProject
  unfoldable pub require_system_control_project : Context → Action W Unit
  unfolding is_system_control_project
  require_system_control_project ctx = do
    p ← or_missing (session_project ctx.session)
    guard (is_system_control_project p)
        (wrapped "require system control project" (status permission_denied))
    guard p.is_org_member
        (wrapped "require system organization membership" (status permission_denied))

  -- requireOrganizationControlProject
  unfoldable pub require_organization_control_project : Context → Action W Unit
  require_organization_control_project ctx = do
    p ← or_missing (session_project ctx.session)
    guard p.is_control (wrapped "require organization control project" (status permission_denied))

module _ {W A : Type 0} where
  -- authUnaryInterceptor
  unfoldable pub auth_unary_interceptor :
      Jwt → JwtConfig → AuthCore W → String → Handler W A → Handler W A
  auth_unary_interceptor jwt cfg core method handler ctx =
      if has public_methods method then handler ctx else do
        user_id ← parse_bearer jwt cfg ctx on_error wrapped "parse bearer"
        project_id ← project_id_of method ctx
        sess ← resolve_session core method user_id project_id on_error session_error
        handler (context_with_auth_session ctx sess)

  -- permissionUnaryInterceptor
  unfoldable pub permission_unary_interceptor : String → Handler W A → Handler W A
  permission_unary_interceptor method handler ctx =
      if has public_methods method then handler ctx else do
        required ← or_unregistered (registered permission_registry method)
        sess ← or_status unauthenticated ctx.session
        guard (all required (contains sess.user.permissions)) (status permission_denied)
        handler ctx

  -- systemControlProjectUnaryInterceptor
  unfoldable pub system_control_project_unary_interceptor : String → Handler W A → Handler W A
  system_control_project_unary_interceptor method handler ctx =
      if not (has system_control_project_methods method) then handler ctx else do
        require_system_control_project ctx on_error wrapped "require system control project"
        handler ctx

  -- organizationControlProjectUnaryInterceptor
  unfoldable pub organization_control_project_unary_interceptor : String → Handler W A → Handler W A
  organization_control_project_unary_interceptor method handler ctx =
      if not (has org_control_project_methods method) then handler ctx else do
        require_organization_control_project ctx
            on_error wrapped "require organization control project"
        handler ctx

  -- recoveryUnaryInterceptor
  unfoldable pub recovery_unary_interceptor : Handler W A → Handler W A
  recovery_unary_interceptor handler ctx w = let (r, w') = handler ctx w in (recovered r, w')

  -- errorUnaryInterceptor
  unfoldable pub error_unary_interceptor : Handler W A → Handler W A
  error_unary_interceptor handler ctx = handler ctx on_error external_error

  -- The chain of NewServer, behind its logging and before its idempotency.
  unfoldable pub authorized : Jwt → JwtConfig → AuthCore W → String → Handler W A → Handler W A
  authorized jwt cfg core method handler = auth_unary_interceptor jwt cfg core method (
      permission_unary_interceptor method (
        system_control_project_unary_interceptor method
          (organization_control_project_unary_interceptor method handler)))

  unfoldable pub serve : Jwt → JwtConfig → AuthCore W → String → Handler W A → Handler W A
  serve jwt cfg core method handler =
      error_unary_interceptor (recovery_unary_interceptor (authorized jwt cfg core method handler))
