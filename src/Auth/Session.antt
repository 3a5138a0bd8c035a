-- ===== src/Auth/Session.antt =====
-- backend/internal/core/auth/auth.go and conv.go: the session of a request, as the server's
-- interceptors ask for it.
use theapp.Prelude.{ℕ, String, Bool, Option, none, some, List}
use theapp.Slices
use theapp.Errors.{sentinel, not_found}
use theapp.Action.{Action, pure, or_panic, ◌>>=◌, ◌on_error◌}
use theapp.Permission.{Permission}
use theapp.Session.{Uuid, AuthProject, AuthSession, require_session, require_project}
use theapp.Pgauth
use theapp.Auth.Storer.{Core}
use theapp.Auth.{no_rows_as}
use theapp.Server.Interceptors.{AuthCore}

unfoldable pub permissions_from_pg : List String → List Permission
unfolding Slices.map
permissions_from_pg names = Slices.map names (λ n. n)

-- authProjectFromPg. The outer `none` is the panic on incomplete metadata.
abbrev pub complete_project :
    ℕ → Option ℕ → Option String → Option Bool → Option Bool → Option (Option AuthProject)
complete_project id (some org_id) (some org_name) (some is_control) (some is_org_member) = some (
    some (record {
      id = id;
      org_id = org_id;
      org_name = org_name;
      is_control = is_control;
      is_org_member = is_org_member;
    }))
complete_project id _ _ _ _ = none

abbrev pub project_with :
    Option ℕ → Option ℕ → Option String → Option Bool → Option Bool → Option (Option AuthProject)
project_with none org_id org_name is_control is_org_member = some none
project_with (some id) org_id org_name is_control is_org_member =
    complete_project id org_id org_name is_control is_org_member

unfoldable pub auth_project_from_pg : Pgauth.AuthSessionData → Option (Option AuthProject)
auth_project_from_pg data' =
    project_with data'.project_id data'.org_id data'.org_name data'.is_control_project
      data'.is_org_member

abbrev pub with_project :
    Pgauth.AuthSessionData → List String → Option (Option AuthProject) → Option AuthSession
with_project data' names none = none
with_project data' names (some p) = some (record {
  user = record {
    user_id = data'.user_external_id;
    email = data'.email;
    permissions = permissions_from_pg names;
  };
  project = p;
})

-- authSessionFromPg
unfoldable pub auth_session_from_pg : Pgauth.AuthSessionData → List String → Option AuthSession
unfolding permissions_from_pg auth_project_from_pg
auth_session_from_pg data' names = with_project data' names (auth_project_from_pg data')

-- mdl.AuthContext
pub record AuthContext : Type 0 where
  pub user_id : Uuid
  pub email : String
  pub project_permissions : List Permission
  pub organization_permissions : List Permission
  pub system_permissions : List Permission

module _ {W : Type 0} (c : Core W) where
  -- The names of the permissions that AuthSession reads.
  unfoldable pub session_permissions : Uuid → Option ℕ → Action W (List String)
  session_permissions user_id none =
      c.permission_storer.system_permissions user_id
      on_error no_rows_as (sentinel not_found) "system permissions"
  session_permissions user_id (some project_id) = do
    perms ←
        c.permission_storer.project_permissions user_id project_id
        on_error no_rows_as (sentinel not_found) "project permissions"
    pure perms.permission_names

  -- AuthSession
  unfoldable pub auth_session : Uuid → Option ℕ → Action W AuthSession
  auth_session user_id project_id = do
    data' ←
        c.auth_storer.auth_session_data user_id project_id
        on_error no_rows_as (sentinel not_found) "auth session data"
    names ← session_permissions data'.user_external_id project_id
    or_panic (auth_session_from_pg data' names)

  -- OrganizationAuthSession
  unfoldable pub organization_auth_session : Uuid → ℕ → Action W AuthSession
  organization_auth_session user_id project_id = do
    data' ←
        c.auth_storer.auth_session_data user_id (some project_id)
        on_error no_rows_as (sentinel not_found) "auth session data"
    perms ←
        c.permission_storer.org_permissions_by_project_id data'.user_external_id project_id
        on_error no_rows_as (sentinel not_found) "organization permissions by project id"
    or_panic (auth_session_from_pg data' perms.permission_names)

  -- AuthContext
  unfoldable pub auth_context : Option AuthSession → Action W AuthContext
  auth_context ctx = do
    sess ← require_session ctx
    project ← require_project sess.project
    perms ←
        c.permission_storer.permissions_by_scope sess.user.user_id project.id
        on_error no_rows_as (sentinel not_found) "permissions by scope"
    pure (record {
      user_id = sess.user.user_id;
      email = sess.user.email;
      project_permissions = permissions_from_pg perms.project_permission_names;
      organization_permissions = permissions_from_pg perms.org_permission_names;
      system_permissions = permissions_from_pg perms.system_permission_names;
    })

  -- The core as the server's interceptors take it.
  unfoldable pub as_auth_core : AuthCore W
  unfolding auth_session organization_auth_session
  as_auth_core = record {
    auth_session = auth_session;
    organization_auth_session = organization_auth_session;
  }
