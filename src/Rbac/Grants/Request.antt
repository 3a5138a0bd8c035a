-- ===== src/Rbac/Grants/Request.antt =====
-- What every method of the roles domain asks of a request first.
use theapp.Prelude.{◌≡◌, Option, some}
use theapp.Session.{AuthSession, AuthProject}

-- The session that a request carried, and the project that it selected.
pub record Selected (ctx : Option AuthSession) : Type 0 where
  pub sess : AuthSession
  pub selected : AuthProject
  pub has_session : ctx ≡ some sess
  pub has_project : sess.project ≡ some selected
