-- ===== src/Server/Denial.antt =====
-- The calls that a protected method refuses, whatever its handler would have done.
use theapp.Prelude.{
  String, ℕ, ◌≡◌, refl, ◌∙◌, Bool, true, false, Option, none, some, List, contains,
  string_comparable, arith, if◌then◌else◌,
}
use theapp.Set.{has}
use theapp.Slices.{all}
use theapp.Status.{permission_denied, internal}
use theapp.Errors.{Error, ok, err, status, message}
use theapp.Action.{Action, ◌on_error◌, ◌>>=◌, guard, fail, pure}
use theapp.Action.Laws.{step-run, bind-run}
use theapp.Permission.{Permission}
use theapp.Session.{Uuid, AuthSession}
use theapp.Server.{public_methods, permission_registry, registered}
use theapp.Server.Interceptors.{
  Context, Handler, AuthCore, Jwt, JwtConfig, context_with_auth_session, parse_bearer,
  project_id_of, resolve_session, auth_unary_interceptor, permission_unary_interceptor,
  system_control_project_unary_interceptor, organization_control_project_unary_interceptor,
  recovery_unary_interceptor, error_unary_interceptor, external_error, authorized, serve,
}

else-run :
    {W A : Type 0} (t : Bool) (m n : Action W A) (w : W) → t ≡ false → (if t then m else n) w ≡ n w
else-run true m n w p = ground arith
else-run false m n w p = refl

module _ {W A : Type 0} (method : String) (handler : Handler W A) (ctx : Context) where
  unregistered-run :
      (w : W)
      → has public_methods method ≡ false
      → registered permission_registry method ≡ none
      → permission_unary_interceptor method handler ctx w
        ≡ (err (message "method is not registered in the permission registry"), w)
  unfolding permission_unary_interceptor ◌>>=◌ fail
  unregistered-run w n r = else-run _ _ _ w n ∙ rw r refl

  missing-run :
      (w : W) (s : AuthSession) (ps : List Permission)
      → has public_methods method ≡ false
      → ctx.session ≡ some s
      → registered permission_registry method ≡ some ps
      → all ps (contains s.user.permissions) ≡ false
      → permission_unary_interceptor method handler ctx w ≡ (err (status permission_denied), w)
  unfolding permission_unary_interceptor ◌>>=◌ fail pure guard
  missing-run w s ps n e r m = else-run _ _ _ w n ∙ rw (r, e, m) refl

module _ {W A : Type 0} (jwt : Jwt) (cfg : JwtConfig) (core : AuthCore W) (method : String)
    (handler : Handler W A) where
  serve-err :
      (ctx : Context) (w v : W) (e : Error)
      → authorized jwt cfg core method handler ctx w ≡ (err e, v)
      → serve jwt cfg core method handler ctx w ≡ (err (external_error e), v)
  unfolding serve error_unary_interceptor recovery_unary_interceptor ◌on_error◌
  serve-err ctx w v e h = rw h refl

  module _ (ctx : Context) (w : W) (user_id : Uuid) (project_id : Option ℕ) (s : AuthSession)
      (w1 w2 w3 : W) where
    admitted-run :
        has public_methods method ≡ false
        → parse_bearer jwt cfg ctx w ≡ (ok user_id, w1)
        → project_id_of method ctx w1 ≡ (ok project_id, w2)
        → resolve_session core method user_id project_id w2 ≡ (ok s, w3)
        → authorized jwt cfg core method handler ctx w
          ≡ permission_unary_interceptor method
              (system_control_project_unary_interceptor method
                (organization_control_project_unary_interceptor method handler))
              (context_with_auth_session ctx s)
              w3
    unfolding authorized auth_unary_interceptor
    admitted-run n a l r =
        else-run _ _ _ w n ∙ step-run _ _ _ w a ∙ bind-run _ _ w1 l ∙ step-run _ _ _ w2 r

    -- A caller with a session is refused with PermissionDenied where a permission that the method is
    -- registered with is missing; the handler has not run.
    pub missing_permission_is_refused :
        (ps : List Permission)
        → has public_methods method ≡ false
        → parse_bearer jwt cfg ctx w ≡ (ok user_id, w1)
        → project_id_of method ctx w1 ≡ (ok project_id, w2)
        → resolve_session core method user_id project_id w2 ≡ (ok s, w3)
        → registered permission_registry method ≡ some ps
        → all ps (contains s.user.permissions) ≡ false
        → serve jwt cfg core method handler ctx w ≡ (err (status permission_denied), w3)
    unfolding external_error context_with_auth_session
    missing_permission_is_refused ps n a l r f m = serve-err ctx w w3 _ (
        admitted-run n a l r
        ∙ missing-run method _ (context_with_auth_session ctx s) w3 s ps n refl f m)

    -- A method that is neither public nor registered is refused with Internal to every caller with a
    -- session; no handler has run.
    pub unregistered_method_is_refused :
        has public_methods method ≡ false
        → parse_bearer jwt cfg ctx w ≡ (ok user_id, w1)
        → project_id_of method ctx w1 ≡ (ok project_id, w2)
        → resolve_session core method user_id project_id w2 ≡ (ok s, w3)
        → registered permission_registry method ≡ none
        → serve jwt cfg core method handler ctx w ≡ (err (status internal), w3)
    unfolding external_error context_with_auth_session
    unregistered_method_is_refused n a l r f =
        serve-err ctx w w3 _ (
          admitted-run n a l r ∙ unregistered-run method _ (context_with_auth_session ctx s) w3 n f)
