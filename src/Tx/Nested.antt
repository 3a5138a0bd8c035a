-- ===== src/Tx/Nested.antt =====
-- RunBatchTx inside a transaction of RunTx.
use theapp.Prelude.{◌≡◌, ap, ◌∙◌, true, false, List, arith}
use theapp.Errors.{Error, Outcome, ok, err, panics}
use theapp.Action.{Action, ◌>>=◌, ◌on_error◌, fail, pure}
use theapp.Pgdb.{translate_pg_err}
use theapp.Tx.{Pgx, Setting, run_tx, run_batch_tx, begin_pool_tx, finish_batch, abort}
use theapp.Tx.Laws.{Fails, Fails-joined, IsPgx, Performs, begin_pool_tx-ok, commit_or_abort-ok}

module _ {C W : Type 0} (px : Pgx C W) (law : IsPgx px) where
  finish_batch-ok :
      (r : Outcome Unit) (v c' : C)
      → px.is_open v ≡ true
      → finish_batch px r v ≡ (ok tt, c')
      → px.committed c' ≡ px.visible v
  unfolding abort
  finish_batch-ok (ok a) v c' o h = (commit_or_abort-ok px law (translate_pg_err) tt tt v c' o h).1
  finish_batch-ok (err e) v c' o h = ground arith
  finish_batch-ok panics v c' o h = ground arith

  -- A RunBatchTx that finds a transaction in its context and succeeds commits that transaction: what
  -- its caller and its batch have written so far is committed, before the caller has ended.
  pub nested_batch_commits :
      (batch : Action C Unit) (m : Action W Unit)
      → Performs px batch m
      → (s : List Setting) (c c' : C) → px.is_open c ≡ true
      → run_batch_tx px true s batch c ≡ (ok tt, c')
      → px.committed c' ≡ (m (px.visible c)).1
  unfolding run_batch_tx ◌>>=◌ ◌on_error◌ pure
  nested_batch_commits batch m k s c c' o h =
      let written = k.written c o in
      finish_batch-ok (batch c).0 (batch c).1 c' written.2 h ∙ written.0

  -- So a RunTx whose callback runs such a batch and then fails returns an error that is whatever the
  -- callback's error is, and yet the batch's writes stay committed.
  pub outer_failure_keeps_batch :
      (batch : Action C Unit) (m : Action W Unit)
      → Performs px batch m
      → (s : List Setting) (c c1 c2 : C) (e : Error) → begin_pool_tx px false s c ≡ (ok tt, c1)
      → run_batch_tx px true s batch c1 ≡ (ok tt, c2)
      → Fails e (run_tx px false s (run_batch_tx px true s batch >>= λ _. fail {A = Unit} e) c).0
        × (px.committed
              (run_tx px false s (run_batch_tx px true s batch >>= λ _. fail {A = Unit} e) c).1
            ≡ (m (px.committed c)).1)
  unfolding run_tx ◌>>=◌ ◌on_error◌ fail abort
  outer_failure_keeps_batch batch m k s c c1 c2 e b h =
      let (seen, kept, opened) = begin_pool_tx-ok px law s c c1 b in
      let committed = nested_batch_commits batch m k s c1 c2 opened h in
      rw (b, h)
        (
          Fails-joined px e (px.rollback c2).0,
          law.rolls_back c2 ∙ committed ∙ ap (λ w. (m w).1) seen,
        )
