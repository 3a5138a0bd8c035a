-- ===== src/Pgdb/Sends.antt =====
-- What a batch sends: each query returned, in the order in which they were queued.
use mathlib.Core.Path.{subst, subst₂}
use theapp.Prelude.{◌≡◌, refl, ◌∙◌, String, List, [], ◌∷◌, map, arith}
use theapp.Errors.{Outcome, ok, err, panics, wrapped}
use theapp.Action.{Action, ◌on_error◌, ◌>>=◌, pure, fail, panic}
use theapp.Action.Laws.{on_error-ok, step-ok, bind-ok, pure-ok}
use theapp.Pgdb.{
  TypedQuery, Batch, ResultExpectation, expect_many, expect_one, expect_exec, expect_exec_one_row,
  queue, queue_many, queue_error, queue_expecting_one, queue_expecting_many, ◌then◌, run_batch,
  run_batch_tx, scanned, collect_one_row, collect_rows,
}
use theapp.Pgdb.Laws.{collect_one_row-ok, run_batch_tx-ok}

-- The batch was queued, and its statements returned `a` and moved the database from `w` to `w'`.
pub record Sends {W A : Type 0} (b : Batch W A) (w : W) (a : A) (w' : W) : Type 0 where
  pub send : Action W A
  pub queued : b ≡ ok send
  pub sent : send w ≡ (ok a, w')

module _ {W A : Type 0} where
  pub run_batch-Sends :
      (b : Batch W A) (w : W) {a : A} {w' : W} → run_batch b w ≡ (ok a, w') → Sends b w a w'
  unfolding run_batch fail panic
  run_batch-Sends (ok send) w h = record {
    send = send;
    queued = refl;
    sent = on_error-ok send _ w h;
  }
  run_batch-Sends (err e) w h = ground arith
  run_batch-Sends panics w h = ground arith

  pub run_batch_tx-Sends :
      (b : Batch W A) (w : W) {a : A} {w' : W} → run_batch_tx b w ≡ (ok a, w') → Sends b w a w'
  run_batch_tx-Sends b w h = run_batch-Sends b w (run_batch_tx-ok b w h)

  pub Sends-run_batch_tx :
      (b : Batch W A) (w : W) {a : A} {w' : W} → Sends b w a w' → run_batch_tx b w ≡ (ok a, w')
  unfolding run_batch_tx run_batch ◌on_error◌
  Sends-run_batch_tx (ok send) w s = ground arith
  Sends-run_batch_tx (err e) w s = ground arith
  Sends-run_batch_tx panics w s = ground arith

  pub Sends-run_batch :
      (b : Batch W A) (w : W) {a : A} {w' : W} → Sends b w a w' → run_batch b w ≡ (ok a, w')
  unfolding run_batch ◌on_error◌
  Sends-run_batch (ok send) w s = ground arith
  Sends-run_batch (err e) w s = ground arith
  Sends-run_batch panics w s = ground arith

  collect_rows_all : (xs : List A) (w : W) → collect_rows (map ok xs) w ≡ (ok xs, w)
  unfolding ◌>>=◌ pure scanned
  collect_rows_all [] w = refl
  collect_rows_all (x ∷ xs) w = cc (collect_rows_all xs w)

  pub sent_as : (m : Action W A) (w : W) {a : A} {w' : W} → Sends (ok m) w a w' → m w ≡ (ok a, w')
  sent_as m w s = ground arith

  collect_rows_keeps :
      (rs : List (Outcome A)) (w : W) {xs : List A} {w' : W}
      → collect_rows rs w ≡ (ok xs, w')
      → w ≡ w'
  unfolding ◌>>=◌ pure scanned
  collect_rows_keeps [] w h = ground arith
  collect_rows_keeps (ok r ∷ rs) w h =
      let (xs, v, e, k) = bind-ok (collect_rows rs) _ w h in
      collect_rows_keeps rs w e ∙ (pure-ok _ v k).1
  collect_rows_keeps (err e ∷ rs) w h = ground arith
  collect_rows_keeps (panics ∷ rs) w h = ground arith

module _ {W A : Type 0} (m : String) where
  -- One row is what a query of a batch awaits.
  pub Sends-one :
      (s : Action W (List (Outcome A))) (w : W) {a : A} {w' : W}
      → s w ≡ (ok (ok a ∷ []), w')
      → Sends (queue_error m (queue (record { statement = s; expect = expect_one }))) w a w'
  unfolding queue ◌on_error◌ ◌>>=◌ pure fail scanned
  Sends-one s w h = record { send = _; queued = refl; sent = cc h }

  pub Sends-many :
      (s : Action W (List (Outcome A))) (w : W) (xs : List A) {w' : W}
      → s w ≡ (ok (map ok xs), w')
      → Sends (queue_error m (queue_many (record { statement = s; expect = expect_many }))) w xs w'
  unfolding queue_many ◌on_error◌ ◌>>=◌
  Sends-many s w xs {w' = v} h = record {
    send = _;
    queued = refl;
    sent = cc (h, collect_rows_all xs v);
  }

  pub one-Sends :
      (q : TypedQuery W A) (w : W) {a : A} {w' : W}
      → Sends (queue_error m (queue q)) w a w'
      → q.statement w ≡ (ok (ok a ∷ []), w')
  unfolding queue
  one-Sends q w s = go q.expect q.statement s
    where
      go :
          (x : ResultExpectation) (t : Action W (List (Outcome A))) {a : A} {w' : W}
          → Sends (queue_error m (queue_expecting_one x t)) w a w'
          → t w ≡ (ok (ok a ∷ []), w')
      go expect_one t s =
          let (rs, v, e, k) =
            step-ok t (wrapped "collect one row") collect_one_row w (sent_as _ w s) in
          let (p, r) = collect_one_row-ok rs v k in subst₂ (λ y u. t w ≡ (ok y, u)) p r e
      go expect_many t s = ground arith
      go expect_exec t s = ground arith
      go expect_exec_one_row t s = ground arith

  pub many-Sends :
      (q : TypedQuery W A) (w : W) {xs : List A} {w' : W}
      → Sends (queue_error m (queue_many q)) w xs w'
      → (rs : List (Outcome A)) × (q.statement w ≡ (ok rs, w'))
  unfolding queue_many
  many-Sends q w s = go q.expect q.statement s
    where
      go :
          (x : ResultExpectation) (t : Action W (List (Outcome A))) {xs : List A} {w' : W}
          → Sends (queue_error m (queue_expecting_many x t)) w xs w'
          → (rs : List (Outcome A)) × (t w ≡ (ok rs, w'))
      go expect_many t s =
          let (rs, v, e, k) =
            step-ok t (wrapped "collect rows")
              (λ rs. collect_rows rs on_error wrapped "collect rows") w (sent_as _ w s) in
          (
            rs,
            subst (λ u. t w ≡ (ok rs, u))
                (collect_rows_keeps rs v (on_error-ok (collect_rows rs) _ v k)) e,
          )
      go expect_one t s = ground arith
      go expect_exec t s = ground arith
      go expect_exec_one_row t s = ground arith

module _ {W A B : Type 0} where
  pub then-Sends :
      (b : Batch W A) (c : Batch W B) (w : W) {a : A} {d : B} {w' : W}
      → Sends (b then c) w (a, d) w'
      → (v : W) × Sends b w a v × Sends c v d w'
  unfolding ◌>>=◌
  then-Sends (ok m) (ok n) w s =
      let (x, v, e, k) = bind-ok m (λ a. n >>= λ b. pure (a, b)) w (sent_as _ w s) in
      let (y, u, f, l) = bind-ok n (λ b. pure (x, b)) v k in
      let (p, q) = pure-ok (x, y) u l in
      (
        v,
        record { send = _; queued = refl; sent = subst (λ z. m w ≡ (ok z.0, v)) p e },
        record { send = _; queued = refl; sent = subst₂ (λ z t. n v ≡ (ok z.1, t)) p q f },
      )
  then-Sends (ok m) (err e) w s = ground arith
  then-Sends (ok m) panics w s = ground arith
  then-Sends (err e) c w s = ground arith
  then-Sends panics c w s = ground arith

  pub Sends-then :
      (b : Batch W A) (c : Batch W B) (w v : W) {a : A} {d : B} {w' : W}
      → Sends b w a v
      → Sends c v d w'
      → Sends (b then c) w (a, d) w'
  unfolding ◌>>=◌ pure
  Sends-then (ok m) (ok n) w v s t =
      let p = sent_as m w s in
      let q = sent_as n v t in record { send = _; queued = refl; sent = cc (p, q) }
  Sends-then (ok m) (err e) w v s t = ground arith
  Sends-then (ok m) panics w v s t = ground arith
  Sends-then (err e) c w v s t = ground arith
  Sends-then panics c w v s t = ground arith
