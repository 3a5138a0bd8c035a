-- ===== src/Pgdb/Laws.antt =====
-- Inversion of a batch that holds one query.
use mathlib.Core.Path.{subst₂}
use theapp.Prelude.{◌≡◌, String, List, [], ◌∷◌, arith}
use theapp.Errors.{Error, Outcome, ok, err, panics, wrapped}
use theapp.Action.{Action, ◌on_error◌, ◌>>=◌, pure, fail}
use theapp.Action.Laws.{on_error-ok, step-ok}
use theapp.Pgdb.{
  queue, queue_error, run_batch, scanned, expect_one, TypedQuery, run_batch_tx, Batch,
  collect_one_row, restored, translate_pg_err, ResultExpectation, expect_many, expect_exec,
  expect_exec_one_row, queue_expecting_one,
}

module _ {W A : Type 0} where
  pub collect_one_row-ok :
      (rs : List (Outcome A)) (w : W) {a : A} {w' : W}
      → collect_one_row rs w ≡ (ok a, w')
      → (rs ≡ ok a ∷ []) × (w ≡ w')
  unfolding ◌on_error◌ ◌>>=◌ pure fail scanned
  collect_one_row-ok [] w h = ground arith
  collect_one_row-ok (ok a ∷ []) w h = (ground arith, ground arith)
  collect_one_row-ok (ok a ∷ _ ∷ _) w h = ground arith
  collect_one_row-ok (err e ∷ rs) w h = ground arith
  collect_one_row-ok (panics ∷ rs) w h = ground arith

  expecting_one-ok :
      (m : String) (x : ResultExpectation) (s : Action W (List (Outcome A))) (w : W) {a : A}
      {w' : W}
      → run_batch (queue_error m (queue_expecting_one x s)) w ≡ (ok a, w')
      → s w ≡ (ok (ok a ∷ []), w')
  unfolding run_batch fail ◌on_error◌
  expecting_one-ok m expect_one s w h =
      let body : Action W A = s on_error wrapped "collect one row" >>= collect_one_row in
      let close : Error → Error = λ e. wrapped "close batch result" (translate_pg_err e) in
      let (rs, v, e, k) =
        step-ok s (wrapped "collect one row") collect_one_row w (on_error-ok body close w h) in
      let (p, q) = collect_one_row-ok rs v k in subst₂ (λ x u. s w ≡ (ok x, u)) p q e
  expecting_one-ok m expect_many s w h = ground arith
  expecting_one-ok m expect_exec s w h = ground arith
  expecting_one-ok m expect_exec_one_row s w h = ground arith

  -- A batch of one query that returns had one row, and Scan accepted it.
  pub one-ok :
      (m : String) (q : TypedQuery W A) (w : W) {a : A} {w' : W}
      → run_batch (queue_error m (queue q)) w ≡ (ok a, w')
      → q.statement w ≡ (ok (ok a ∷ []), w')
  unfolding queue
  one-ok m q w h = expecting_one-ok m q.expect q.statement w h

  restored-ok :
      (w : W) (r : Outcome A × W) {a : A} {w' : W} → restored w r ≡ (ok a, w') → r ≡ (ok a, w')
  restored-ok w (ok a, v) h = h
  restored-ok w (err e, v) h = ground arith
  restored-ok w (panics, v) h = ground arith

  -- What a batch in its own transaction returned, its statements returned.
  pub run_batch_tx-ok :
      (b : Batch W A) (w : W) {a : A} {w' : W}
      → run_batch_tx b w ≡ (ok a, w')
      → run_batch b w ≡ (ok a, w')
  unfolding run_batch_tx
  run_batch_tx-ok b w h = restored-ok w (run_batch b w) h
