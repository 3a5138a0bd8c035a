-- ===== src/Server/Examples.antt =====
-- Calls of the server, on a database that counts the sessions that were resolved.
use theapp.Prelude.{
  ℕ, suc, String, ◌≡◌, refl, true, false, ◌||◌, Option, none, some, List, [], ◌∷◌, ◌==◌,
  string_comparable, contains, if◌then◌else◌, ◌⊎◌,
}
use theapp.Set.{has}
use theapp.Slices.{all, contains_func}
use theapp.Status.{GrpcCode, permission_denied, internal}
use theapp.Errors.{ok, err, panics, status}
use theapp.Action.{◌>>=◌, ◌on_error◌, pure, fail, or_panic, guard}
use theapp.Permission.{org_user_read, custom_role_read}
use theapp.Session.{Uuid, AuthSession}
use theapp.Server.{
  public_methods, no_project_methods, system_control_project_methods, org_control_project_methods,
  permission_registry, registered, org_scoped_permissions, method_requires_organization_scope,
}
use theapp.Server.Numbers.{digits, atoi, cut_prefix}
use theapp.Server.Interceptors.{
  Context, Handler, AuthCore, Jwt, JwtConfig, key_func, context_with_auth_session, parse_bearer,
  parse_project_id, project_id_of, resolve_session, require_organization_control_project,
  auth_unary_interceptor, permission_unary_interceptor, system_control_project_unary_interceptor,
  organization_control_project_unary_interceptor, recovery_unary_interceptor,
  error_unary_interceptor, authorized, serve,
}
use theapp.Server.Gate.{
  Admission, answered_calls_are_admitted, errors_are_statuses, calls_never_panic,
}
use theapp.Server.Denial.{missing_permission_is_refused, unregistered_method_is_refused}
use theapp.Server.Projects.{projects_are_dereferenced_safely}
use theapp.Server.Tables.{projectless_methods}

abbrev only_with_key : String → Option String → Option Uuid
only_with_key token none = none
only_with_key token (some key) = if token == "ann" then some 5 else none

abbrev jwt : Jwt
jwt = record { parse_with_claims = λ f issuer audience token. only_with_key token (f true) }

abbrev config : JwtConfig
config = record { key = "secret"; issuer = "theapp"; audience = "theapp-api" }

abbrev session : AuthSession
session = record {
  user = record { user_id = 5; email = "ann@example.com"; permissions = org_user_read ∷ [] };
  project =
      some
        (record { id = 3; org_id = 1; org_name = "acme"; is_control = true; is_org_member = true });
}

abbrev core : AuthCore ℕ
core = record {
  auth_session = λ user project w. (ok session, suc w);
  organization_auth_session = λ user project w. (panics, suc w);
}

abbrev headers : String → List String
headers key =
    if key == "authorization"
    then "Bearer ann" ∷ []
    else if key == "x-project-id"
    then "3" ∷ []
    else []

abbrev call : Context
call = record { metadata = some headers; session = none }

abbrev list_users : String
list_users = "/theapp.v1.OrgService/ListOrganizationUsers"

abbrev get_role : String
get_role = "/theapp.v1.RoleService/GetRole"

abbrev create_role : String
create_role = "/theapp.v1.RoleService/CreateRole"

abbrev handler : Handler ℕ String
handler ctx w = (ok "users", w)

list_users_protected : has public_methods list_users ≡ false
unfolding has contains public_methods
list_users_protected = refl

served : serve jwt config core list_users handler call 0 ≡ (ok "users", 1)
unfolding serve error_unary_interceptor recovery_unary_interceptor authorized auth_unary_interceptor
    permission_unary_interceptor system_control_project_unary_interceptor
    organization_control_project_unary_interceptor require_organization_control_project parse_bearer
    key_func cut_prefix project_id_of parse_project_id atoi digits resolve_session
    context_with_auth_session ◌>>=◌ ◌on_error◌ pure fail or_panic guard has contains all
    contains_func public_methods no_project_methods system_control_project_methods
    org_control_project_methods permission_registry registered org_scoped_permissions
    method_requires_organization_scope
served = refl

answered_calls_are_admitted_example : Admission jwt config core list_users handler call 0 "users" 1
answered_calls_are_admitted_example =
    answered_calls_are_admitted jwt config core list_users handler call 0 1 "users"
      list_users_protected served

get_role_protected : has public_methods get_role ≡ false
unfolding has contains public_methods
get_role_protected = refl

authenticated_run : parse_bearer {W = ℕ} jwt config call 0 ≡ (ok 5, 0)
unfolding parse_bearer key_func cut_prefix ◌>>=◌ pure fail
authenticated_run = refl

located_run : project_id_of {W = ℕ} get_role call 0 ≡ (ok (some 3), 0)
unfolding project_id_of parse_project_id atoi digits ◌>>=◌ ◌on_error◌ pure fail guard has contains
    no_project_methods
located_run = refl

resolved_run : resolve_session core get_role 5 (some 3) 0 ≡ (ok session, 1)
unfolding resolve_session ◌>>=◌ or_panic has contains contains_func
    method_requires_organization_scope permission_registry registered org_scoped_permissions
resolved_run = refl

get_role_entry : registered permission_registry get_role ≡ some (custom_role_read ∷ [])
unfolding permission_registry registered
get_role_entry = refl

not_held : all (custom_role_read ∷ []) (contains session.user.permissions) ≡ false
unfolding all contains
not_held = refl

missing_permission_is_refused_example :
    serve jwt config core get_role handler call 0 ≡ (err (status permission_denied), 1)
missing_permission_is_refused_example =
    missing_permission_is_refused jwt config core get_role handler call 0 5 (some 3) session 0 0 1
      (custom_role_read ∷ []) get_role_protected authenticated_run located_run resolved_run
      get_role_entry not_held

abbrev unknown_method : String
unknown_method = "/theapp.v1.RoleService/RenameRole"

unknown_protected : has public_methods unknown_method ≡ false
unfolding has contains public_methods
unknown_protected = refl

unknown_located : project_id_of {W = ℕ} unknown_method call 0 ≡ (ok (some 3), 0)
unfolding project_id_of parse_project_id atoi digits ◌>>=◌ ◌on_error◌ pure fail guard has contains
    no_project_methods
unknown_located = refl

unknown_resolved : resolve_session core unknown_method 5 (some 3) 0 ≡ (ok session, 1)
unfolding resolve_session ◌>>=◌ or_panic has contains contains_func
    method_requires_organization_scope permission_registry registered org_scoped_permissions
unknown_resolved = refl

not_registered : registered permission_registry unknown_method ≡ none
unfolding permission_registry registered
not_registered = refl

unregistered_method_is_refused_example :
    serve jwt config core unknown_method handler call 0 ≡ (err (status internal), 1)
unregistered_method_is_refused_example =
    unregistered_method_is_refused jwt config core unknown_method handler call 0 5 (some 3) session
      0 0 1 unknown_protected authenticated_run unknown_located unknown_resolved not_registered

unknown_served : serve jwt config core unknown_method handler call 0 ≡ (err (status internal), 1)
unknown_served =
    unregistered_method_is_refused jwt config core unknown_method handler call 0 5 (some 3) session
      0 0 1 unknown_protected authenticated_run unknown_located unknown_resolved not_registered

errors_are_statuses_example : (c : GrpcCode) × (status internal ≡ status c)
errors_are_statuses_example =
    errors_are_statuses jwt config core unknown_method handler call 0 1 (status internal)
      unknown_served

abbrev broken : Handler ℕ String
broken ctx w = (panics, w)

calls_never_panic_example : ¬ (serve jwt config core list_users broken call 0 ≡ (panics, 1))
calls_never_panic_example = calls_never_panic jwt config core list_users broken call 0 1

create_role_located : project_id_of {W = ℕ} create_role call 0 ≡ (ok (some 3), 0)
unfolding project_id_of parse_project_id atoi digits ◌>>=◌ ◌on_error◌ pure fail guard has contains
    no_project_methods
create_role_located = refl

create_role_panics : resolve_session core create_role 5 (some 3) 0 ≡ (panics, 1)
unfolding resolve_session ◌>>=◌ or_panic has contains contains_func
    method_requires_organization_scope permission_registry registered org_scoped_permissions
create_role_panics = refl

projects_are_dereferenced_safely_example :
    (core.auth_session 5 (some 3) 0 ≡ (panics, 1))
    ⊎ ((id : ℕ) × (some 3 ≡ some id) × (core.organization_auth_session 5 id 0 ≡ (panics, 1)))
projects_are_dereferenced_safely_example =
    projects_are_dereferenced_safely core create_role call 5 0 0 1 (some 3) create_role_located
      create_role_panics

list_projects_projectless : has no_project_methods "/theapp.v1.ProjectService/ListProjects" ≡ true
unfolding has contains no_project_methods
list_projects_projectless = refl

projectless_methods_example :
    (method_requires_organization_scope "/theapp.v1.ProjectService/ListProjects" ≡ false)
    × (has system_control_project_methods "/theapp.v1.ProjectService/ListProjects" ≡ false)
    × (has org_control_project_methods "/theapp.v1.ProjectService/ListProjects" ≡ false)
projectless_methods_example =
    projectless_methods "/theapp.v1.ProjectService/ListProjects" list_projects_projectless

list_users_bound :
    (has no_project_methods list_users
      || has system_control_project_methods list_users
      || has org_control_project_methods list_users)
    ≡ true
unfolding has contains no_project_methods system_control_project_methods org_control_project_methods
list_users_bound = refl
