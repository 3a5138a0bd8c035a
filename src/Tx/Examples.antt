-- ===== src/Tx/Examples.antt =====
-- A connection whose transactions hold one number, and transactions on it.
use theapp.Prelude.{ℕ, suc, ◌≡◌, refl, Bool, true, false, [], arith}
use theapp.Errors.{Error, ok, err, panics, message}
use theapp.Action.{Action, ◌>>=◌, ◌on_error◌, pure, fail}
use theapp.Pgdb.{translate_pg_err}
use theapp.Tx.{Pgx, set_local_settings, begin_pool_tx, abort, commit_or_abort, run_tx, run_batch_tx}
use theapp.Tx.Laws.{Fails, IsPgx, Performs, run_tx_commits, run_tx_rolls_back, run_tx_panic_leaks}
use theapp.Tx.Nested.{outer_failure_keeps_batch}

record Conn : Type 0 where
  stored : ℕ
  seen : ℕ
  in_progress : Bool

abbrev conn : ℕ → ℕ → Bool → Conn
conn s v b = record { stored = s; seen = v; in_progress = b }

abbrev px : Pgx Conn ℕ
px = record {
  committed = λ c. c.stored;
  visible = λ c. c.seen;
  is_open = λ c. c.in_progress;
  begin_tx = λ c. (ok tt, conn c.stored c.stored true);
  set_config = λ s c. (ok tt, c);
  commit = λ c. (ok tt, conn c.seen c.seen false);
  rollback = λ c. (ok tt, conn c.stored c.stored false);
}

px-IsPgx : IsPgx px
px-IsPgx = record {
  begun = λ c c' h. (ground arith, ground arith, ground arith);
  configured = λ c s. (refl, refl, refl);
  commits = λ c c' o h. ground arith;
  commit_open = λ c c' e o h. ground arith;
  rolls_back = λ c. refl;
}

-- Adds one.
abbrev increment : Action Conn (Unit {0})
increment c = (ok tt, conn c.stored (suc c.seen) c.in_progress)

abbrev successor : Action ℕ (Unit {0})
successor w = (ok tt, suc w)

increment-Performs : Performs px increment successor
increment-Performs = record { outcome = λ c o. refl; written = λ c o. (refl, refl, o) }

abbrev break_off : Error → Action Conn (Unit {0})
break_off e c = (err e, conn c.stored (suc c.seen) c.in_progress)

abbrev broken : Error → Action ℕ (Unit {0})
broken e w = (err e, suc w)

break_off-Performs : (e : Error) → Performs px (break_off e) (broken e)
break_off-Performs e = record { outcome = λ c o. refl; written = λ c o. (refl, refl, o) }

abbrev crash : Action Conn (Unit {0})
crash c = (panics, c)

abbrev crashed : Action ℕ (Unit {0})
crashed w = (panics, w)

crash-Performs : Performs px crash crashed
crash-Performs = record { outcome = λ c o. refl; written = λ c o. (refl, refl, o) }

commit_run : run_tx px false [] increment (conn 7 7 false) ≡ (ok tt, conn 8 8 false)
unfolding run_tx begin_pool_tx set_local_settings abort commit_or_abort ◌>>=◌ ◌on_error◌ pure
commit_run = refl

run_tx_commits_example : successor 7 ≡ (ok tt, 8)
run_tx_commits_example =
    run_tx_commits px px-IsPgx (Unit {0}) increment successor increment-Performs [] (conn 7 7 false)
      (conn 8 8 false) tt commit_run

begin_run : begin_pool_tx px false [] (conn 7 7 false) ≡ (ok tt, conn 7 7 true)
unfolding begin_pool_tx set_local_settings abort ◌>>=◌ ◌on_error◌ pure
begin_run = refl

run_tx_rolls_back_example :
    Fails (message "no") (run_tx px false [] (break_off (message "no")) (conn 7 7 false)).0
    × (px.committed (run_tx px false [] (break_off (message "no")) (conn 7 7 false)).1 ≡ 7)
run_tx_rolls_back_example =
    run_tx_rolls_back px px-IsPgx (Unit {0}) (break_off (message "no")) (broken (message "no"))
      (break_off-Performs (message "no")) [] (conn 7 7 false) (conn 7 7 true) (message "no")
      begin_run refl

run_tx_panic_leaks_example :
    ((run_tx px false [] crash (conn 7 7 false)).0 ≡ panics)
    × (px.is_open (run_tx px false [] crash (conn 7 7 false)).1 ≡ true)
run_tx_panic_leaks_example =
    run_tx_panic_leaks px px-IsPgx (Unit {0}) crash crashed crash-Performs [] (conn 7 7 false)
      (conn 7 7 true) begin_run refl

batch_run : run_batch_tx px true [] increment (conn 7 7 true) ≡ (ok tt, conn 8 8 false)
unfolding run_batch_tx begin_pool_tx set_local_settings abort commit_or_abort translate_pg_err ◌>>=◌
    ◌on_error◌ pure
batch_run = refl

abbrev outer : Action Conn (Unit {0})
outer =
    run_tx px false [] (run_batch_tx px true [] increment >>= λ _. fail {A = Unit} (message "no"))

outer_failure_keeps_batch_example :
    Fails (message "no") (outer (conn 7 7 false)).0
    × (px.committed (outer (conn 7 7 false)).1 ≡ (successor 7).1)
outer_failure_keeps_batch_example =
    outer_failure_keeps_batch px px-IsPgx increment successor increment-Performs [] (conn 7 7 false)
      (conn 7 7 true) (conn 8 8 false) (message "no") begin_run batch_run
