-- ===== src/Rbac/Grants/Perms.antt =====
-- The permissions that a change adds or takes away, by membership.
use theapp.Prelude.{◌≡◌, true, not, ◌&&◌, ◌||◌, List, contains, string_comparable, arith}
use theapp.Set.{from_slice, add, remove, symmetric_difference}
use theapp.Set.Laws.{has-symmetric_difference, has-from_slice, contains-values, has-add, has-remove}
use theapp.Permission.{Permission, is_permission_superset}
use theapp.Permission.Scopes.{is_permission_superset_iff}
use theapp.Role
use theapp.Rbac.Edit.{changed_perms, next_perms}

-- The changed permissions are those in exactly one of the two lists.
contains-changed_perms :
    (curr next : List Permission) (p : Permission)
    → contains (changed_perms curr next) p
      ≡ ((contains curr p && not (contains next p)) || (contains next p && not (contains curr p)))
unfolding changed_perms
contains-changed_perms curr next p = ground (
  arith,
  contains-values (symmetric_difference (from_slice curr) (from_slice next)) p,
  has-symmetric_difference (from_slice curr) (from_slice next) p,
  has-from_slice curr p,
  has-from_slice next p,
)

-- The permissions after a change are those added or held before, less those removed.
pub contains-next_perms :
    (curr : List Permission) (mrp : Role.ModifyCustomRolePermissions) (p : Permission)
    → contains (next_perms curr mrp) p ≡ (
        not (contains mrp.remove_permissions p)
        && (contains mrp.add_permissions p || contains curr p))
unfolding next_perms
contains-next_perms curr mrp p = ground (
  arith,
  contains-values (remove (add (from_slice curr) mrp.add_permissions) mrp.remove_permissions) p,
  has-remove (add (from_slice curr) mrp.add_permissions) mrp.remove_permissions p,
  has-add (from_slice curr) mrp.add_permissions p,
  has-from_slice curr p,
)

-- Who passes the check of a change holds each permission that it touches.
pub held_of_superset :
    (held curr next : List Permission)
    → is_permission_superset held (changed_perms curr next) ≡ true
    → (p : Permission) → contains curr p ≡ not (contains next p)
    → contains held p ≡ true
held_of_superset held curr next h p d =
    (is_permission_superset_iff _ _).0 h p (ground (arith, contains-changed_perms curr next p))
