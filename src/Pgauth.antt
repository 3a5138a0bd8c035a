-- ===== src/Pgauth.antt =====
-- backend/internal/core/pgstores/pgauth/model.go: the rows that the store of tokens returns.
use theapp.Prelude.{ℕ, String, Bool, Option}
use theapp.Session.{Uuid, Time}

pub record MagicLinkToken : Type 0 where
  pub id : ℕ
  pub user_id : ℕ
  pub user_external_id : Uuid
  pub expires_at : Time
  pub created_at : Time

pub record CreateMagicLinkToken : Type 0 where
  pub user_id : ℕ
  pub token_hash : String
  pub expires_at : Time

pub record RefreshToken : Type 0 where
  pub id : ℕ
  pub user_id : ℕ
  pub user_external_id : Uuid
  pub expires_at : Time
  pub created_at : Time

pub record CreateRefreshToken : Type 0 where
  pub user_id : ℕ
  pub token_hash : String
  pub expires_at : Time

pub record AuthSessionData : Type 0 where
  pub user_external_id : Uuid
  pub email : String
  pub project_id : Option ℕ
  pub org_id : Option ℕ
  pub org_name : Option String
  pub is_control_project : Option Bool
  pub is_org_member : Option Bool
