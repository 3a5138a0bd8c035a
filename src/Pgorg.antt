-- ===== src/Pgorg.antt =====
-- backend/internal/core/pgstores/pgorg/model.go: the rows of organizations and projects. The model in
-- backend/internal/core/mdl/org.go has records of the same fields.
use theapp.Prelude.{ℕ, String, Bool, Option}
use theapp.Session.{Uuid, Time}

pub record Organization : Type 0 where
  pub id : ℕ
  pub name : String
  pub control_project_id : ℕ
  pub created_at : Time
  pub updated_at : Option Time

pub record CreateOrganization : Type 0 where
  pub name : String
  pub control_project_name : String

pub record Project : Type 0 where
  pub id : ℕ
  pub org_id : ℕ
  pub name : String
  pub is_control : Bool
  pub created_at : Time
  pub updated_at : Option Time
  pub etag : Uuid

pub record ProjectFilter : Type 0 where
  pub name : String

pub record OrganizationUserFilter : Type 0 where
  pub project_id : Option ℕ

pub record CreateProject : Type 0 where
  pub org_id : ℕ
  pub name : String
