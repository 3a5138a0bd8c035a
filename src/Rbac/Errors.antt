-- ===== src/Rbac/Errors.antt =====
-- How the core of roles maps the errors of its store.
use theapp.Prelude.{String, if◌then◌else◌}
use theapp.Errors.{
  Error, sentinel, wrapped, is, not_found, already_exists, etag_mismatch, validation, no_rows,
  pg_already_exists, pg_etag_mismatch, pg_check_violated,
}

-- if errors.Is(err, sql.ErrNoRows) { return fmt.Errorf("m: %w", mdl.ErrNotFound) }
-- return fmt.Errorf("m: %w", err)
abbrev pub no_rows_as_not_found : String → Error → Error
no_rows_as_not_found m e = wrapped m (if is e no_rows then sentinel not_found else e)

-- The same, where ErrNotFound is returned as it is.
abbrev pub no_rows_as_bare_not_found : String → Error → Error
no_rows_as_bare_not_found m e = if is e no_rows then sentinel not_found else wrapped m e

-- The switch of CreateCustomRole.
abbrev pub create_error : Error → Error
create_error e =
    if is e pg_already_exists
    then wrapped "create custom role" (sentinel already_exists)
    else if is e pg_check_violated
    then wrapped "create custom role" (sentinel validation)
    else wrapped "create custom role" e

-- The switch of UpdateCustomRole where permissions change, and where they do not.
abbrev pub update_switch : String → Error → Error
update_switch m e =
    if is e pg_already_exists
    then wrapped m (sentinel already_exists)
    else if is e pg_etag_mismatch
    then wrapped m (sentinel etag_mismatch)
    else if is e pg_check_violated
    then wrapped m (sentinel validation)
    else wrapped m e

abbrev pub update_with_permissions_error : Error → Error
update_with_permissions_error = update_switch "update custom role with permission changes"

abbrev pub update_error : Error → Error
update_error e =
    if is e no_rows
    then wrapped "update custom role" (sentinel not_found)
    else update_switch "update custom role" e

abbrev pub modify_error : Error → Error
modify_error e =
    if is e pg_etag_mismatch
    then wrapped "modify custom role permissions" (sentinel etag_mismatch)
    else wrapped "modify custom role permissions" e

-- The switch behind the assignment of a role.
abbrev pub assign_error : String → Error → Error
assign_error m e =
    if is e no_rows
    then wrapped m (sentinel not_found)
    else if is e pg_already_exists
    then wrapped m (sentinel already_exists)
    else wrapped m e
