-- ===== src/Server/Gate.antt =====
-- What a call has passed when its handler has answered it, and what every answer looks like.
use theapp.Prelude.{
  String, ℕ, ◌≡◌, refl, true, false, Option, some, List, contains, string_comparable,
}
use theapp.Set.{has}
use theapp.Status.{GrpcCode}
use theapp.Errors.{Error, ok, err, panics, status}
use theapp.Action.{◌on_error◌}
use theapp.Action.Laws.{on_error-ok, bind-ok, step-ok, else-ok}
use theapp.Permission.{Permission}
use theapp.Session.{Uuid, AuthSession}
use theapp.Server.{
  public_methods, system_control_project_methods, org_control_project_methods, permission_registry,
  registered,
}
use theapp.Server.Interceptors.{
  Context, Handler, AuthCore, Jwt, JwtConfig, context_with_auth_session, parse_bearer,
  project_id_of, resolve_session, auth_unary_interceptor, recovery_unary_interceptor,
  error_unary_interceptor, authorized, serve,
}
use theapp.Server.Guards.{
  SystemControl, OrganizationControl, recovered-ok, answer_shape, permission-ok, system_guard-ok,
  org_guard-ok,
}

-- What a call of a protected method passed before its handler answered.
pub record Admission {W A : Type 0} (jwt : Jwt) (cfg : JwtConfig) (core : AuthCore W)
    (method : String) (handler : Handler W A) (ctx : Context) (w : W) (a : A) (w' : W)
    : Type 0 where
  pub user_id : Uuid
  pub project_id : Option ℕ
  pub sess : AuthSession
  pub required : List Permission
  pub at_bearer : W
  pub at_project : W
  pub at_handler : W
  pub authenticated : parse_bearer jwt cfg ctx w ≡ (ok user_id, at_bearer)
  pub located : project_id_of method ctx at_bearer ≡ (ok project_id, at_project)
  pub resolved : resolve_session core method user_id project_id at_project ≡ (ok sess, at_handler)
  pub is_registered : registered permission_registry method ≡ some required
  pub held : (p : Permission) → contains required p ≡ true → contains sess.user.permissions p ≡ true
  pub system_control : has system_control_project_methods method ≡ true → SystemControl sess
  pub organization_control :
      has org_control_project_methods method ≡ true → OrganizationControl sess
  pub handled : handler (context_with_auth_session ctx sess) at_handler ≡ (ok a, w')

module _ {W A : Type 0} (jwt : Jwt) (cfg : JwtConfig) (core : AuthCore W) (method : String)
    (handler : Handler W A) where
  serve-ok :
      (ctx : Context) (w w' : W) (a : A)
      → serve jwt cfg core method handler ctx w ≡ (ok a, w')
      → authorized jwt cfg core method handler ctx w ≡ (ok a, w')
  unfolding serve error_unary_interceptor recovery_unary_interceptor
  serve-ok ctx w w' a h = recovered-ok _ a w' (on_error-ok _ _ w h)

  -- A protected method that was answered was called with a token of the user's, in the project that
  -- the call names unless the method needs none; the session that was resolved for both holds every
  -- permission that the method is registered with, and has the control project that the method is
  -- bound to; and the answer is the handler's, called with that session.
  pub answered_calls_are_admitted :
      (ctx : Context) (w w' : W) (a : A)
      → has public_methods method ≡ false
      → serve jwt cfg core method handler ctx w ≡ (ok a, w')
      → Admission jwt cfg core method handler ctx w a w'
  unfolding authorized auth_unary_interceptor context_with_auth_session
  answered_calls_are_admitted ctx w w' a n h =
      let h0 = else-ok _ _ _ w n (serve-ok ctx w w' a h) in
      let (user, w1, e1, h1) = step-ok _ _ _ w h0 in
      let (project, w2, e2, h2) = bind-ok _ _ w1 h1 in
      let (s, w3, e3, h3) = step-ok _ _ _ w2 h2 in
      let next = context_with_auth_session ctx s in
      let (ps, r, k, h4) = permission-ok method _ next w3 w' a s n refl h3 in
      let (c, h5) = system_guard-ok method _ next w3 w' a s refl h4 in
      let (o, h6) = org_guard-ok method handler next w3 w' a s refl h5 in
      record {
        user_id = user;
        project_id = project;
        sess = s;
        required = ps;
        at_bearer = w1;
        at_project = w2;
        at_handler = w3;
        authenticated = e1;
        located = e2;
        resolved = e3;
        is_registered = r;
        held = k;
        system_control = c;
        organization_control = o;
        handled = h6;
      }

  -- Whatever a handler answers, an error that leaves the server is a bare status.
  pub errors_are_statuses :
      (ctx : Context) (w w' : W) (e : Error)
      → serve jwt cfg core method handler ctx w ≡ (err e, w')
      → (c : GrpcCode) × (e ≡ status c)
  unfolding serve error_unary_interceptor recovery_unary_interceptor ◌on_error◌
  errors_are_statuses ctx w w' e h =
      (answer_shape (authorized jwt cfg core method handler ctx w) w').0 e h

  -- A panic of the handler, or of the interceptors that stand inside the recovery (those that
  -- authenticate the caller, check the permissions and ask for a control project), does not leave the
  -- server: the call is answered. The interceptors outside of it, which log and convert errors, are
  -- not part of what is said.
  pub calls_never_panic :
      (ctx : Context) (w w' : W) → ¬ (serve jwt cfg core method handler ctx w ≡ (panics, w'))
  unfolding serve error_unary_interceptor recovery_unary_interceptor ◌on_error◌
  calls_never_panic ctx w w' h =
      (answer_shape (authorized jwt cfg core method handler ctx w) w').1 h
