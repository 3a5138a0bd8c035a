-- ===== src/Pgrbac/Store/Laws.antt =====
-- Inversion of a method of the store that writes by one query.
use mathlib.Core.Path.{subst}
use theapp.Prelude.{◌≡◌, String, List, [], ◌∷◌}
use theapp.Errors.{Outcome, ok}
use theapp.Action.{Action, done, ◌>>=◌, ◌on_error◌, pure, fail}
use theapp.Action.Laws.{bind-ok, pure-ok, bind-run}
use theapp.Pgdb.{TypedQuery, Batch, run_batch_tx, run_batch, queue, scanned, expect_one}
use theapp.Pgdb.Laws.{one-ok}
use theapp.Pgrbac.Db.{Db}
use theapp.Pgrbac.Store.{one, sink}

-- The statement returned one row.
pub sink-ok :
    {A : Type 0} (m : String) (q : TypedQuery Db A) (w : Db) {w' : Db}
    → sink (run_batch (one m q)) w ≡ (ok tt, w')
    → (a : A) × (q.statement w ≡ (ok (ok a ∷ []), w'))
sink-ok m q w h =
    let (a, v, e, k) = bind-ok (run_batch (one m q)) _ w h in
    let same = (pure-ok tt v k).1 in
    (a, subst (λ u. q.statement w ≡ (ok (ok a ∷ []), u)) same (one-ok m q w e))

-- The other way around: one row is what such a method awaits.
pub sink-run :
    {A : Type 0} (m : String) (s : Action Db (List (Outcome A))) (w : Db) {a : A} {w' : Db}
    → s w ≡ (ok (ok a ∷ []), w')
    → sink (run_batch (one m (record { statement = s; expect = expect_one }))) w ≡ (ok tt, w')
unfolding ◌>>=◌ ◌on_error◌ pure fail scanned queue run_batch
sink-run m s w h = cc h

pub sink_tx-run :
    {A : Type 0} (b : Batch Db A) (w : Db) {a : A} {w' : Db}
    → run_batch_tx b w ≡ (ok a, w')
    → sink (run_batch_tx b) w ≡ (ok tt, w')
unfolding pure
sink_tx-run b w h = bind-run (run_batch_tx b) (λ _. done) w h
