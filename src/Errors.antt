-- ===== src/Errors.antt =====
-- Go's errors: sentinels, messages and wrapping chains (backend/internal/core/mdl/errors.go,
-- backend/internal/data/pgdb/errors.go), and the outcome of a call that may fail or panic.
use theapp.Prelude.{ℕ, String, Bool, false, ◌||◌, nat_beq}
use theapp.Status.{GrpcCode}

-- The package-level error values that the program compares against. `no_rows` is sql.ErrNoRows;
-- those from `pg_already_exists` on are of pgdb, `tx_closed` is pgx.ErrTxClosed,
-- `org_creator_not_found` is of the org core, and the others are of mdl.
pub data Sentinel : Type 0 where
  not_found already_exists etag_mismatch permission_denied managed_role : Sentinel
  invalid_assignment_scope last_fully_privileged_system_admin token_invalid rate_limited : Sentinel
  validation control_project_name_conflict no_rows org_creator_not_found : Sentinel
  pg_already_exists pg_etag_mismatch pg_check_violated too_many_rows tx_closed : Sentinel

-- `status c` is status.Error(c, …). `wrapped m e` is fmt.Errorf("m: %w", e); `both` is errors.Join or a
-- format with two %w. `pg_error` is a *pgconn.PgError with its SQLSTATE.
pub data Error : Type 0 where
  sentinel : Sentinel → Error
  message : String → Error
  wrapped : String → Error → Error
  both : Error → Error → Error
  status : GrpcCode → Error
  pg_error : String → Error

abbrev pub number : Sentinel → ℕ
number not_found = 0
number already_exists = 1
number etag_mismatch = 2
number permission_denied = 3
number managed_role = 4
number invalid_assignment_scope = 5
number last_fully_privileged_system_admin = 6
number token_invalid = 7
number rate_limited = 8
number validation = 9
number control_project_name_conflict = 10
number no_rows = 11
number org_creator_not_found = 12
number pg_already_exists = 13
number pg_etag_mismatch = 14
number pg_check_violated = 15
number too_many_rows = 16
number tx_closed = 17

-- Two sentinels are one error value; each is created by its own call of errors.New.
abbrev pub same : Sentinel → Sentinel → Bool
same a b = nat_beq (number a) (number b)

-- errors.Is
abbrev pub is : Error → Sentinel → Bool
is (sentinel a) s = same a s
is (message m) s = false
is (wrapped m e) s = is e s
is (status c) s = false
is (pg_error code) s = false
is (both a b) s = is a s || is b s

-- validationError
abbrev pub validation_error : String → Error
validation_error msg = wrapped msg (sentinel validation)

-- `panics` carries no value: no code under src/ reads what was panicked with.
pub data Outcome {ℓ} (A : Type ℓ) : Type ℓ where
  ok : A → Outcome A
  err : Error → Outcome A
  panics : Outcome A
