-- ===== src/Pgdb.antt =====
-- backend/internal/data/pgdb: errors.go, typed_query.go, and RunBatch and RunExec of batch.go and
-- exec.go. A query is an action that returns its rows, each as its Scan function reads it. Spans
-- and the text of the statements are left out.
pub mod Laws
pub mod Sends
use theapp.Prelude.{
  String, Bool, true, false, Option, none, some, List, [], ◌∷◌, map, ◌==◌, string_comparable,
  if◌then◌else◌,
}
use theapp.Errors.{
  Error, Outcome, ok, err, panics, message, wrapped, both, status, pg_error, sentinel, no_rows,
  too_many_rows, pg_already_exists, pg_check_violated,
}
use theapp.Action.{Action, ◌on_error◌, ◌>>=◌, pure, fail, panic}

abbrev first : Option String → Option String → Option String
first (some code) other = some code
first none other = other

-- errors.As with a *pgconn.PgError: the SQLSTATE of the first one in the chain.
abbrev pub sqlstate : Error → Option String
sqlstate (pg_error code) = some code
sqlstate (wrapped m e) = sqlstate e
sqlstate (both d e) = first (sqlstate d) (sqlstate e)
sqlstate _ = none

abbrev pub unique_violation : String
unique_violation = "23505"

abbrev pub check_violation : String
check_violation = "23514"

abbrev translated : Error → Option String → Error
translated e none = e
translated e (some code) =
    if code == unique_violation
    then sentinel pg_already_exists
    else if code == check_violation
    then sentinel pg_check_violated
    else e

-- translatePgErr
unfoldable pub translate_pg_err : Error → Error
translate_pg_err e = translated e (sqlstate e)

-- ResultExpectation
pub data ResultExpectation : Type 0 where
  expect_many expect_one expect_exec expect_exec_one_row : ResultExpectation

-- TypedQuery: its statement, with Scan applied to the rows, and the number of rows it expects.
pub record TypedQuery (W A : Type 0) : Type 0 where
  pub statement : Action W (List (Outcome A))
  pub expect : ResultExpectation

-- The results of a batch, or the error of the function that queues its queries: what is queued never
-- depends on a result.
abbrev pub Batch : Type 0 → Type 0 → Type 0
Batch W A = Outcome (Action W A)

-- The result of Scan on a row.
unfoldable pub scanned : {W A : Type 0} → Outcome A → Action W A
scanned (ok a) w = (ok a, w)
scanned (err e) w = (err e, w)
scanned panics w = (panics, w)

module _ {W A : Type 0} where
  abbrev pub checked_count : List (Outcome A) → A → Action W A
  checked_count [] a = pure a
  checked_count (_ ∷ _) a = fail (sentinel too_many_rows)

  -- pgx.CollectOneRow reads the first row; the number of rows is checked after it.
  abbrev pub collect_one_row : List (Outcome A) → Action W A
  collect_one_row [] = fail (wrapped "collect one row" (sentinel no_rows))
  collect_one_row (r ∷ rs) = scanned r on_error wrapped "collect one row" >>= checked_count rs

  abbrev pub collect_rows : List (Outcome A) → Action W (List A)
  collect_rows [] = pure []
  collect_rows (r ∷ rs) = scanned r >>= λ a. collect_rows rs >>= λ rest. pure (a ∷ rest)

  abbrev pub queue_expecting_one : ResultExpectation → Action W (List (Outcome A)) → Batch W A
  queue_expecting_one expect_one statement =
      ok (statement on_error wrapped "collect one row" >>= collect_one_row)
  queue_expecting_one _ statement = err (message "ExpectOne is required")

  -- Queue
  unfoldable pub queue : TypedQuery W A → Batch W A
  unfolding ◌on_error◌ ◌>>=◌ pure fail scanned
  queue q = queue_expecting_one q.expect q.statement

  abbrev pub queue_expecting_many :
      ResultExpectation → Action W (List (Outcome A)) → Batch W (List A)
  queue_expecting_many expect_many statement = ok (
      statement on_error wrapped "collect rows" >>= λ rs.
      collect_rows rs on_error wrapped "collect rows")
  queue_expecting_many _ statement = err (message "ExpectMany is required")

  -- QueueMany
  unfoldable pub queue_many : TypedQuery W A → Batch W (List A)
  unfolding ◌on_error◌ ◌>>=◌ pure fail scanned
  queue_many q = queue_expecting_many q.expect q.statement

  -- An error of Queue, named by the function that queues.
  abbrev pub queue_error : String → Batch W A → Batch W A
  queue_error m (err e) = err (wrapped m e)
  queue_error m b = b

  abbrev run_queued : Batch W A → Action W A
  run_queued (ok send) = send on_error λ e. wrapped "close batch result" (translate_pg_err e)
  run_queued (err e) = fail (wrapped "queueFunc" e)
  run_queued panics = panic

  -- RunBatch, for a batch that reads or holds one statement.
  unfoldable pub run_batch : Batch W A → Action W A
  unfolding ◌on_error◌ fail panic translate_pg_err
  run_batch b = run_queued b

  abbrev restored : W → Outcome A × W → Outcome A × W
  restored w (ok a, w') = (ok a, w')
  restored w (err e, w') = (err e, w)
  restored w (panics, w') = (panics, w')

  -- RunBatchTx where it begins the transaction, on the database that the transaction sees: an error
  -- rolls back every statement.
  unfoldable pub run_batch_tx : Batch W A → Action W A
  unfolding run_batch
  run_batch_tx b w = restored w (run_batch b w)

-- One query queued after another.
module _ {W A B : Type 0} where
  infixl 6 ◌then◌
  abbrev pub ◌then◌ : Batch W A → Batch W B → Batch W (A × B)
  (ok m) then (ok n) = ok (m >>= λ a. n >>= λ b. pure (a, b))
  (ok m) then (err e) = err e
  (ok m) then panics = panics
  (err e) then n = err e
  panics then n = panics

-- RunExec: one statement whose rows are not read.
unfoldable pub run_exec : {W : Type 0} → Action W Unit → Action W Unit
unfolding translate_pg_err
run_exec m = m on_error translate_pg_err
