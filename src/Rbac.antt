-- ===== src/Rbac.antt =====
-- The permissions and roles domain: backend/internal/core/rbac.
pub mod Storer
pub mod Database
pub mod Conv
pub mod Errors
pub mod Queries
pub mod Edit
pub mod Assign
pub mod SystemRole
pub mod Grants
pub mod Locks
mod Examples
