-- ===== src/Grpc/Statuses.antt =====
-- backend/internal/api/grpc/custom_role.go: the statuses that the handlers answer the errors of the core
-- with. Of a status the code is kept; texts and details are left out.
use theapp.Prelude.{String, if◌then◌else◌}
use theapp.Errors.{
  Error, is, wrapped, status, not_found, already_exists, etag_mismatch, permission_denied,
  managed_role, invalid_assignment_scope, validation,
}
use theapp.Status

-- The switches behind the calls of the core.
abbrev pub create_error : Error → Error
create_error e =
    if is e validation
    then status Status.invalid_argument
    else if is e already_exists
    then status Status.invalid_argument
    else if is e permission_denied
    then status Status.permission_denied
    else if is e not_found
    then status Status.not_found
    else wrapped "create role" e

abbrev pub get_error : Error → Error
get_error e = if is e not_found then status Status.not_found else wrapped "get role" e

-- The cases that an update and a modification end with.
abbrev pub change_error : String → Error → Error
change_error m e =
    if is e etag_mismatch
    then status Status.aborted
    else if is e permission_denied
    then status Status.permission_denied
    else if is e managed_role
    then status Status.failed_precondition
    else if is e invalid_assignment_scope
    then status Status.failed_precondition
    else wrapped m e

abbrev pub update_error : Error → Error
update_error e =
    if is e not_found
    then status Status.not_found
    else if is e validation
    then status Status.invalid_argument
    else if is e already_exists
    then status Status.invalid_argument
    else change_error "update role" e

abbrev pub modify_error : Error → Error
modify_error e =
    if is e not_found
    then status Status.not_found
    else if is e validation
    then status Status.invalid_argument
    else change_error "modify role permissions" e

abbrev pub delete_error : Error → Error
delete_error e =
    if is e not_found
    then status Status.not_found
    else if is e permission_denied
    then status Status.permission_denied
    else if is e managed_role
    then status Status.failed_precondition
    else wrapped "delete role" e

abbrev pub assign_to_project_error : Error → Error
assign_to_project_error e =
    if is e not_found
    then status Status.not_found
    else if is e already_exists
    then status Status.already_exists
    else if is e permission_denied
    then status Status.permission_denied
    else if is e invalid_assignment_scope
    then status Status.failed_precondition
    else wrapped "assign role to project" e

abbrev pub assign_to_organization_error : Error → Error
assign_to_organization_error e =
    if is e not_found
    then status Status.not_found
    else if is e already_exists
    then status Status.already_exists
    else if is e permission_denied
    then status Status.permission_denied
    else wrapped "assign role to organization" e

-- The two switches behind an unassignment, which differ in their last text.
abbrev pub unassign_error : String → Error → Error
unassign_error m e =
    if is e not_found
    then status Status.not_found
    else if is e permission_denied
    then status Status.permission_denied
    else wrapped m e
