-- ===== src/Org/Conv.antt =====
-- backend/internal/core/mdl/org.go and user.go, and backend/internal/core/org/conv.go.
use theapp.Prelude.{
  ℕ, String, Bool, not, Option, none, some, List, nat_beq, ◌==◌, string_comparable, if◌then◌else◌,
}
use theapp.Slices
use theapp.Errors.{Error, validation_error}
use theapp.Session.{Uuid, Time}
use theapp.Auth.{is_address_of}
use theapp.Pgorg
use theapp.Pguser

pub record Organization : Type 0 where
  pub id : ℕ
  pub name : String
  pub control_project_id : ℕ
  pub created_at : Time
  pub updated_at : Option Time

pub record Project : Type 0 where
  pub id : ℕ
  pub org_id : ℕ
  pub name : String
  pub is_control : Bool
  pub created_at : Time
  pub updated_at : Option Time
  pub etag : Uuid

-- mdl.User
pub record User : Type 0 where
  pub id : Uuid
  pub email : String
  pub name : String
  pub email_verified_at : Option Time
  pub created_at : Time
  pub updated_at : Option Time
  pub etag : Uuid

pub record CreateOrganization : Type 0 where
  pub name : String
  pub project_name : String

pub record CreateProject : Type 0 where
  pub org_id : ℕ
  pub name : String

unfoldable pub validate_create_organization : CreateOrganization → Option Error
validate_create_organization co =
    if co.name == ""
    then some (validation_error "name required")
    else if co.project_name == ""
    then some (validation_error "project name required")
    else none

-- cp.OrgID <= 0, of a number that is not negative.
unfoldable pub validate_create_project : CreateProject → Option Error
validate_create_project cp =
    if nat_beq cp.org_id 0
    then some (validation_error "org id required")
    else if cp.name == ""
    then some (validation_error "name required")
    else none

-- CreateOrganizationUser.Validate
unfoldable pub validate_create_organization_user : (String → Option String) → String → Option Error
validate_create_organization_user parse_address email =
    if email == ""
    then some (validation_error "email required")
    else if not (is_address_of email (parse_address email))
    then some (validation_error "email invalid")
    else none

unfoldable pub create_organization_to_pg : CreateOrganization → Pgorg.CreateOrganization
create_organization_to_pg co = record { name = co.name; control_project_name = "control" }

unfoldable pub organization_from_pg : Pgorg.Organization → Organization
organization_from_pg o = record {
  id = o.id;
  name = o.name;
  control_project_id = o.control_project_id;
  created_at = o.created_at;
  updated_at = o.updated_at;
}

unfoldable pub create_project_to_pg : CreateProject → Pgorg.CreateProject
create_project_to_pg cp = record { org_id = cp.org_id; name = cp.name }

unfoldable pub project_from_pg : Pgorg.Project → Project
project_from_pg p = record {
  id = p.id;
  org_id = p.org_id;
  name = p.name;
  is_control = p.is_control;
  created_at = p.created_at;
  updated_at = p.updated_at;
  etag = p.etag;
}

unfoldable pub projects_from_pg : List Pgorg.Project → List Project
unfolding Slices.map project_from_pg
projects_from_pg ps = Slices.map ps project_from_pg

unfoldable pub user_from_pg : Pguser.User → User
user_from_pg u = record {
  id = u.external_id;
  email = u.email;
  name = u.name;
  email_verified_at = u.email_verified_at;
  created_at = u.created_at;
  updated_at = u.updated_at;
  etag = u.etag;
}

unfoldable pub users_from_pg : List Pguser.User → List User
unfolding Slices.map user_from_pg
users_from_pg us = Slices.map us user_from_pg
