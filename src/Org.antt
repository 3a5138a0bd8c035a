-- ===== src/Org.antt =====
-- backend/internal/core/org/org.go: organizations, their projects and their members.
pub mod Conv
pub mod Founded
pub mod Members
mod Examples
use theapp.Prelude.{ℕ, String, Option, none, some, List, if◌then◌else◌}
use theapp.Errors.{
  Error, is, sentinel, wrapped, both, message, not_found, already_exists,
  control_project_name_conflict, no_rows, org_creator_not_found, pg_already_exists,
}
use theapp.Action.{Action, pure, check_valid, ◌>>=◌, ◌>>◌, ◌on_error◌}
use theapp.Permission.{organization_admin_permissions}
use theapp.Session.{Uuid, AuthSession, require_session, require_project}
use theapp.Pgorg
use theapp.Pguser
use theapp.Pgrbac
use theapp.Transactor.{Transactor}
use theapp.Auth.{no_rows_as}
use theapp.Rbac.Conv.{permissions_to_pg}
use theapp.Org.Conv.{
  Organization, Project, User, CreateOrganization, CreateProject, validate_create_organization,
  validate_create_project, validate_create_organization_user, create_organization_to_pg,
  organization_from_pg, create_project_to_pg, project_from_pg, projects_from_pg, user_from_pg,
  users_from_pg,
}

pub record OrgStorer (W : Type 0) : Type 0 where
  pub create_organization : Pgorg.CreateOrganization → Action W Pgorg.Organization
  pub create_project : Pgorg.CreateProject → Action W Pgorg.Project
  pub add_organization_member : Uuid → ℕ → Action W Unit
  pub ensure_organization_member : Uuid → ℕ → Action W Unit
  pub organization_users :
      ℕ → Pgorg.OrganizationUserFilter → ℕ → ℕ → Action W (List Pguser.User × ℕ)
  pub organization_by_name : String → Action W Pgorg.Organization
  pub project_by_name : ℕ → String → Action W Pgorg.Project
  pub accessible_projects : Uuid → Pgorg.ProjectFilter → ℕ → ℕ → Action W (List Pgorg.Project × ℕ)

-- OrganizationUserStore
pub record OrganizationUserStore (W : Type 0) : Type 0 where
  pub get_or_create_user_by_email : String → Action W Pguser.User

pub record RoleBootstrapperStore (W : Type 0) : Type 0 where
  pub create_organization_admin_role : ℕ → List String → Action W Pgrbac.CustomRole
  pub assign_custom_role_to_org : Uuid → Uuid → ℕ → Action W Unit

-- Core; `parse_address` is that of net/mail.
pub record OrgCore (W : Type 0) : Type 1 where
  pub org_storer : OrgStorer W
  pub org_user_store : OrganizationUserStore W
  pub role_bootstrapper_store : RoleBootstrapperStore W
  pub transactor : Transactor W
  pub parse_address : String → Option String

abbrev create_organization_error : Error → Error
create_organization_error e =
    if is e pg_already_exists then sentinel already_exists else wrapped "create organization" e

abbrev default_project_error : Error → Error
default_project_error e =
    if is e pg_already_exists
    then wrapped "create default project" (sentinel control_project_name_conflict)
    else wrapped "create default project" e

abbrev creator_error : Error → Error
creator_error e =
    if is e no_rows
    then both (sentinel org_creator_not_found) e
    else wrapped "add organization creator as member" e

-- How CreateOrganization maps the errors of createOrganization.
abbrev founder_error : Error → Error
founder_error e =
    if is e org_creator_not_found
    then wrapped "create organization" (sentinel not_found)
    else wrapped "create organization" e

abbrev create_project_error : Error → Error
create_project_error e =
    if is e no_rows
    then sentinel not_found
    else if is e pg_already_exists
    then sentinel already_exists
    else wrapped "create project" e

module _ {W : Type 0} (c : OrgCore W) where
  -- What the transaction does for a creator.
  unfoldable pub enroll : Option Uuid → ℕ → Action W Unit
  unfolding permissions_to_pg
  enroll none org_id = pure tt
  enroll (some creator_id) org_id = do
    c.org_storer.add_organization_member creator_id org_id on_error creator_error
    admin_role ←
        c.role_bootstrapper_store.create_organization_admin_role org_id
          (permissions_to_pg organization_admin_permissions)
        on_error wrapped "create organization administrator role"
    c.role_bootstrapper_store.assign_custom_role_to_org creator_id admin_role.external_id org_id
        on_error wrapped "assign organization administrator role"

  -- The transaction of createOrganization.
  unfoldable pub found_body : CreateOrganization → Option Uuid → Action W Pgorg.Organization
  unfolding enroll
  found_body co creator_id = do
    pg_org ←
        c.org_storer.create_organization (create_organization_to_pg co)
        on_error create_organization_error
    c.org_storer.create_project (record { org_id = pg_org.id; name = co.project_name })
        on_error default_project_error
    enroll creator_id pg_org.id
    pure pg_org

  -- createOrganization
  unfoldable pub create_organization_for : CreateOrganization → Option Uuid → Action W Organization
  create_organization_for co creator_id = do
    check_valid (validate_create_organization co)
    pg_org ← c.transactor.run_tx Pgorg.Organization (found_body co creator_id)
    pure (organization_from_pg pg_org)

  -- CreateOrganization
  unfoldable pub create_organization :
      Option AuthSession → CreateOrganization → Action W Organization
  create_organization ctx co = do
    sess ← require_session ctx
    create_organization_for co (some sess.user.user_id) on_error founder_error

  -- BootstrapOrganization
  unfoldable pub bootstrap_organization : CreateOrganization → Action W Organization
  unfolding create_organization_for
  bootstrap_organization co = create_organization_for co none

  -- CreateProject
  unfoldable pub create_project : CreateProject → Action W Project
  create_project cp = do
    check_valid (validate_create_project cp)
    pg_project ← c.org_storer.create_project (create_project_to_pg cp) on_error create_project_error
    pure (project_from_pg pg_project)

  -- OrganizationByName
  unfoldable pub organization_by_name : String → Action W Organization
  organization_by_name name = do
    pg_org ←
        c.org_storer.organization_by_name name
        on_error no_rows_as (sentinel not_found) "organization by name"
    pure (organization_from_pg pg_org)

  -- The transaction of CreateOrganizationUser.
  unfoldable pub join_body : ℕ → String → Action W Pguser.User
  join_body org_id email = do
    pg_user ←
        c.org_user_store.get_or_create_user_by_email email
        on_error wrapped "get or create organization user"
    c.org_storer.ensure_organization_member pg_user.external_id org_id
        on_error wrapped "add organization user as member"
    pure pg_user

  -- CreateOrganizationUser
  unfoldable pub create_organization_user : Option AuthSession → String → Action W User
  create_organization_user ctx email = do
    check_valid (validate_create_organization_user c.parse_address email)
    sess ← require_session ctx
    project ← require_project sess.project
    pg_user ←
        c.transactor.run_tx Pguser.User (join_body project.org_id email)
        on_error wrapped "create organization user"
    pure (user_from_pg pg_user)

  -- OrganizationUsers
  unfoldable pub organization_users :
      Option AuthSession → Pgorg.OrganizationUserFilter → ℕ → ℕ → Action W (List User × ℕ)
  organization_users ctx filter page_size page_offset = do
    sess ← require_session ctx
    project ← require_project sess.project
    page ←
        c.org_storer.organization_users project.org_id filter page_size page_offset
        on_error no_rows_as (sentinel not_found) "organization users"
    pure (users_from_pg page.0, page.1)

  -- ProjectByName
  unfoldable pub project_by_name : ℕ → String → Action W Project
  project_by_name org_id name = do
    pg_project ←
        c.org_storer.project_by_name org_id name
        on_error no_rows_as (sentinel not_found) "project by name"
    pure (project_from_pg pg_project)

  -- AccessibleProjects
  unfoldable pub accessible_projects :
      Option AuthSession → Pgorg.ProjectFilter → ℕ → ℕ → Action W (List Project × ℕ)
  accessible_projects ctx filter page_size page_offset = do
    sess ← require_session ctx
    page ←
        c.org_storer.accessible_projects sess.user.user_id filter page_size page_offset
        on_error no_rows_as (sentinel not_found) "accessible projects"
    pure (projects_from_pg page.0, page.1)
