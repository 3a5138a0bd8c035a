-- ===== src/Grpc/Permissions.antt =====
-- backend/internal/api/grpc/internal/conv/permission.go: permissions between the model and the wire.
pub mod Laws
use theapp.Prelude.{
  ℕ, Bool, Option, none, some, List, [], ◌∷◌, Comparable, ◌==◌, nat_comparable, string_comparable,
  if◌then◌else◌,
}
use theapp.Permission.{
  Permission, AssignmentScope, project, organization, system, user_read, user_create, user_update,
  system_role_read, system_role_assign, system_role_unassign, project_discover_all, org_create,
  project_create, org_user_create, org_user_read, custom_role_create, custom_role_read,
  custom_role_update, custom_role_delete, custom_role_assign_project, custom_role_unassign_project,
  custom_role_assign_org, custom_role_unassign_org, custom_role_read_project_assignments,
  custom_role_read_org_assignments,
}

-- A map, and m[k] with whether the key is there.
unfoldable pub lookup : {A B : Type 0} ⦃e : Comparable A⦄ → List (A × B) → A → Option B
lookup [] k = none
lookup (entry ∷ rest) k = let found = lookup rest k in if k == entry.0 then some entry.1 else found

-- permissionToPB
abbrev pub permission_to_pb_map : List (Permission × ℕ)
permission_to_pb_map =
    (user_read, 1)
    ∷ (user_create, 2)
    ∷ (user_update, 3)
    ∷ (system_role_read, 4)
    ∷ (system_role_assign, 5)
    ∷ (system_role_unassign, 6)
    ∷ (project_discover_all, 17)
    ∷ (org_create, 18)
    ∷ (project_create, 19)
    ∷ (org_user_create, 20)
    ∷ (org_user_read, 21)
    ∷ (custom_role_create, 7)
    ∷ (custom_role_read, 8)
    ∷ (custom_role_update, 9)
    ∷ (custom_role_delete, 10)
    ∷ (custom_role_assign_project, 11)
    ∷ (custom_role_unassign_project, 12)
    ∷ (custom_role_assign_org, 13)
    ∷ (custom_role_unassign_org, 14)
    ∷ (custom_role_read_project_assignments, 15)
    ∷ (custom_role_read_org_assignments, 16)
    ∷ []

-- result[pbPerm] = mdlPerm, or the panic where the key is there already.
abbrev pub insert_new :
    ℕ × Permission → Option Permission → List (ℕ × Permission) → Option (List (ℕ × Permission))
insert_new entry none result = some (entry ∷ result)
insert_new entry (some _) result = none

-- The loop that reverses the map.
unfoldable pub reversed : List (Permission × ℕ) → Option (List (ℕ × Permission))
unfolding lookup
reversed [] = some []
reversed (entry ∷ rest) = elim (reversed rest) [
  | none ↦ none
  | some result ↦ insert_new (entry.1, entry.0) (lookup result entry.1) result
]

-- permissionFromPB
unfoldable pub permission_from_pb_map : Option (List (ℕ × Permission))
unfolding reversed
permission_from_pb_map = reversed permission_to_pb_map

-- PermissionToPB
unfoldable pub permission_to_pb : Permission → Option ℕ
unfolding lookup
permission_to_pb permission = lookup permission_to_pb_map permission

-- PermissionFromPB
unfoldable pub permission_from_pb : ℕ → Option Permission
unfolding lookup permission_from_pb_map
permission_from_pb permission = elim permission_from_pb_map [
  | none ↦ none
  | some map ↦ lookup map permission
]

abbrev pub cons_both : {A : Type 0} → Option A → Option (List A) → Option (List A)
cons_both (some a) (some rest) = some (a ∷ rest)
cons_both _ _ = none

-- PermissionsToPB, which panics on a permission without a number.
unfoldable pub permissions_to_pb : List Permission → Option (List ℕ)
unfolding permission_to_pb
permissions_to_pb [] = some []
permissions_to_pb (p ∷ ps) = cons_both (permission_to_pb p) (permissions_to_pb ps)

-- PermissionsFromPB
unfoldable pub permissions_from_pb : List ℕ → Option (List Permission)
unfolding permission_from_pb
permissions_from_pb [] = some []
permissions_from_pb (n ∷ ns) = cons_both (permission_from_pb n) (permissions_from_pb ns)

-- AssignmentScopeToPB
abbrev pub assignment_scope_to_pb : AssignmentScope → ℕ
assignment_scope_to_pb project = 1
assignment_scope_to_pb organization = 2
assignment_scope_to_pb system = 3
