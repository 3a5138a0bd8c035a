-- ===== src/Rbac/Locks.antt =====
-- The order in which an assignment change locks its two users.
use theapp.Prelude.{◌≡◌, arith}
use theapp.Session.{Uuid}
use theapp.Rbac.Storer.{RoleStorer}
use theapp.Rbac.SystemRole.{lock_system_role_users}

module _ {W : Type 0} (st : RoleStorer W) where
  -- Two changes over the same two users, whichever of them acts, take the same locks in the same
  -- order.
  pub lock_order_symmetric :
      (actor target : Uuid) (w : W)
      → lock_system_role_users st actor target w ≡ lock_system_role_users st target actor w
  unfolding lock_system_role_users
  lock_order_symmetric actor target w = ground arith
