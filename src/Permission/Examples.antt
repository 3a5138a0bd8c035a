-- ===== src/Permission/Examples.antt =====
-- Lists of permissions and their scopes.
use theapp.Prelude.{
  ◌≤◌, ◌≡◌, refl, ◌↔◌, true, some, List, [], ◌∷◌, contains, string_comparable, arith,
}
use theapp.Permission.{
  Permission, AssignmentScope, organization, rank, org_create, project_create,
  system_only_permissions, permission_assignment_scope, broadest_scope, minimum_assignment_scope,
  is_permission_superset,
}
use theapp.Permission.Scopes.{
  IsBoundedBy, minimum_assignment_scope_least, is_permission_superset_iff,
}

abbrev two : List Permission
two = org_create ∷ project_create ∷ []

abbrev swapped : List Permission
swapped = project_create ∷ org_create ∷ project_create ∷ []

two_scope : minimum_assignment_scope two ≡ some organization
unfolding minimum_assignment_scope broadest_scope permission_assignment_scope
    system_only_permissions contains
two_scope = refl

minimum_assignment_scope_least_example :
    IsBoundedBy organization two
    × ((b : AssignmentScope) → IsBoundedBy b two → rank organization ≤ rank b)
minimum_assignment_scope_least_example = minimum_assignment_scope_least two organization two_scope

same_members : (p : Permission) → contains two p ≡ contains swapped p
unfolding contains
same_members p = ground arith

is_permission_superset_iff_example :
    (is_permission_superset swapped two ≡ true)
    ↔ ((p : Permission) → contains two p ≡ true → contains swapped p ≡ true)
is_permission_superset_iff_example = is_permission_superset_iff swapped two
