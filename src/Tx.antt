-- ===== src/Tx.antt =====
-- backend/internal/data/pgdb/tx.go and RunBatchTx of batch.go: who begins, commits and rolls back. The
-- driver pgx is the parameter `Pgx`; the SQL text of the settings is left out.
pub mod Laws
pub mod Nested
mod Examples
use theapp.Prelude.{
  ℕ, String, Bool, true, false, not, Option, none, some, List, [], ◌∷◌, ◌++◌, nat_beq, ◌==◌,
  string_comparable, if◌then◌else◌, ◌≡◌,
}
use theapp.Errors.{
  Error, Sentinel, Outcome, ok, err, panics, is, wrapped, both, sentinel, tx_closed,
  pg_already_exists, pg_check_violated,
}
use theapp.Action.{Action, ◌on_error◌, ◌>>=◌, ◌>>◌, done, pure}
use theapp.Pgdb.{translate_pg_err}
use theapp.Session.{Uuid, AuthSession, AuthProject, AuthUser, nil_uuid}

-- A value that a new transaction carries for the audit triggers.
pub data Setting : Type 0 where
  project_id : ℕ → Setting
  user_id : Uuid → Setting
  trace_id : String → Setting

-- The database through pgx. `C` is its state: what is committed, and what the open transaction sees.
pub record Pgx (C W : Type 0) : Type 0 where
  pub committed : C → W
  pub visible : C → W
  pub is_open : C → Bool
  pub begin_tx : Action C Unit
  pub set_config : List Setting → Action C Unit
  pub commit : Action C Unit
  pub rollback : Action C Unit

abbrev project_settings : Option AuthProject → List Setting
project_settings none = []
project_settings (some p) = project_id p.id ∷ []

abbrev user_settings : AuthUser → List Setting
user_settings u = if nat_beq u.user_id nil_uuid then [] else user_id u.user_id ∷ []

abbrev session_settings : Option AuthSession → List Setting
session_settings none = []
session_settings (some s) = project_settings s.project ++ user_settings s.user

abbrev trace_settings : String → List Setting
trace_settings trace = if trace == "" then [] else trace_id trace ∷ []

-- The settings that setLocalSettings collects from the context.
unfoldable pub local_settings : Option AuthSession → String → List Setting
local_settings ctx trace = session_settings ctx ++ trace_settings trace

module _ {C W : Type 0} (px : Pgx C W) where
  -- setLocalSettings
  unfoldable pub set_local_settings : List Setting → Action C Unit
  set_local_settings [] c = (ok tt, c)
  set_local_settings (s ∷ ss) c = px.set_config (s ∷ ss) c

  abbrev pub joined : Error → Outcome (Unit {0}) → Error
  joined e (err d) = if is d tx_closed then e else both e (wrapped "rollback tx" d)
  joined e _ = e

  -- A rollback on the way out with the error `e`.
  unfoldable pub abort : {A : Type 0} → Error → Action C A
  abort e c = let (r, c') = px.rollback c in (err (joined e r), c')

  abbrev pub after_settings : Outcome (Unit {0}) → Action C Unit
  after_settings (ok _) c = (ok tt, c)
  after_settings (err e) c = (abort e on_error wrapped "set transaction-local settings") c
  after_settings panics c = (panics, c)

  -- beginPoolTx. `in_tx` says whether the context carries a transaction, which is then reused.
  unfoldable pub begin_pool_tx : Bool → List Setting → Action C Unit
  unfolding set_local_settings abort
  begin_pool_tx true settings = done
  begin_pool_tx false settings = do
    px.begin_tx on_error wrapped "begin tx"
    λ c. let (r, c') = set_local_settings settings c in after_settings r c'

  abbrev pub after_commit :
      {A : Type 0} → String → (Error → Error) → A → Outcome (Unit {0}) → Action C A
  after_commit m f a (ok _) c = (ok a, c)
  after_commit m f a (err d) c = if is d tx_closed then (ok a, c) else abort (wrapped m (f d)) c
  after_commit m f a panics c = (panics, c)

  -- tx.Commit, where ErrTxClosed is no error, and the deferred rollback if it fails.
  unfoldable pub commit_or_abort : {A : Type 0} → (Error → Error) → A → Action C A
  unfolding abort
  commit_or_abort f a c = let (r, c') = px.commit c in after_commit "commit tx" f a r c'

  -- How RunTx ends. The deferred function rolls back only where the returned error is not nil, and
  -- a panic leaves it nil.
  abbrev pub finish : {A : Type 0} → Bool → Outcome A → Action C A
  finish true r c = (r, c)
  finish false (ok a) c = commit_or_abort (λ e. e) a c
  finish false (err e) c = abort e c
  finish false panics c = (panics, c)

  -- RunTx. `fn` is the callback, which runs with the transaction in its context.
  unfoldable pub run_tx : {A : Type 0} → Bool → List Setting → Action C A → Action C A
  unfolding begin_pool_tx commit_or_abort
  run_tx in_tx settings fn = do
    begin_pool_tx in_tx settings on_error wrapped "begin tx"
    λ c. let (r, c') = fn c in finish in_tx r c'

  abbrev pub finish_batch : Outcome (Unit {0}) → Action C Unit
  finish_batch (ok a) c = commit_or_abort translate_pg_err tt c
  finish_batch (err e) c = abort (wrapped "close batch result" (translate_pg_err e)) c
  finish_batch panics c = (panics, c)

  -- RunBatchTx. `batch` sends the queued statements and closes their results. It commits and rolls
  -- back whether or not it began the transaction.
  unfoldable pub run_batch_tx : Bool → List Setting → Action C Unit → Action C Unit
  unfolding begin_pool_tx commit_or_abort translate_pg_err
  run_batch_tx in_tx settings batch = do
    begin_pool_tx in_tx settings on_error wrapped "begin pool tx"
    λ c. let (r, c') = batch c in finish_batch r c'
