-- ===== src/Rbac/Queries.antt =====
-- The reading methods of backend/internal/core/rbac/custom_role.go.
use theapp.Prelude.{ℕ, Option, List}
use theapp.Errors.{wrapped}
use theapp.Action.{Action, ◌on_error◌, ◌>>=◌, or_panic, pure}
use theapp.Session.{Uuid, AuthSession, require_session, require_project}
use theapp.Role.{CustomRole}
use theapp.Rbac.Storer.{RoleStorer}
use theapp.Rbac.Conv.{custom_role_from_pg, custom_roles_from_pg}
use theapp.Rbac.Errors.{no_rows_as_bare_not_found}

module _ {W : Type 0} (st : RoleStorer W) where
  -- CustomRoles
  unfoldable pub custom_roles : Option AuthSession → ℕ → ℕ → Action W (List CustomRole × ℕ)
  unfolding custom_roles_from_pg
  custom_roles ctx page_size page_offset = do
    sess ← require_session ctx
    project ← require_project sess.project
    page ← st.custom_roles project.org_id page_size page_offset on_error wrapped "custom roles"
    roles ← or_panic (custom_roles_from_pg page.0)
    pure (roles, page.1)

  -- UserProjectCustomRoles
  unfoldable pub user_project_custom_roles :
      Option AuthSession → Uuid → ℕ → ℕ → Action W (List CustomRole × ℕ)
  unfolding custom_roles_from_pg
  user_project_custom_roles ctx user_id page_size page_offset = do
    sess ← require_session ctx
    project ← require_project sess.project
    page ←
        st.user_project_custom_roles user_id project.id page_size page_offset
        on_error no_rows_as_bare_not_found "user project custom roles"
    roles ← or_panic (custom_roles_from_pg page.0)
    pure (roles, page.1)

  -- UserOrgCustomRoles
  unfoldable pub user_org_custom_roles :
      Option AuthSession → Uuid → ℕ → ℕ → Action W (List CustomRole × ℕ)
  unfolding custom_roles_from_pg
  user_org_custom_roles ctx user_id page_size page_offset = do
    sess ← require_session ctx
    project ← require_project sess.project
    page ←
        st.user_org_custom_roles user_id project.org_id page_size page_offset
        on_error no_rows_as_bare_not_found "user organization custom roles"
    roles ← or_panic (custom_roles_from_pg page.0)
    pure (roles, page.1)

  -- CustomRoleByID
  unfoldable pub custom_role_by_id : Option AuthSession → Uuid → Action W CustomRole
  unfolding custom_role_from_pg
  custom_role_by_id ctx role_id = do
    sess ← require_session ctx
    project ← require_project sess.project
    role ←
        st.custom_role_by_external_id project.org_id role_id
        on_error no_rows_as_bare_not_found "custom role"
    or_panic (custom_role_from_pg role)
