-- ===== src/Snapshots.antt =====
-- Transactions by a snapshot of the database, for tests: the interface Transactor can be met.
use theapp.Prelude.{◌≡◌, arith}
use theapp.Errors.{Outcome, ok, err, panics}
use theapp.Transactor.{Transactor, IsAtomic}

abbrev restore : {W A : Type 0} → W → Outcome A × W → Outcome A × W
restore w (ok a, v) = (ok a, v)
restore w (err e, v) = (err e, w)
restore w (panics, v) = (panics, v)

abbrev pub snapshots : {W : Type 0} → Transactor W
snapshots = record { run_tx = λ A m w. restore w (m w) }

restore-ok :
    {W A : Type 0} (w : W) (r : Outcome A × W) (a : A) (w' : W)
    → restore w r ≡ (ok a, w')
    → r ≡ (ok a, w')
restore-ok w (ok b, v) a w' h = h
restore-ok w (err e, v) a w' h = ground arith
restore-ok w (panics, v) a w' h = ground arith

pub snapshots-IsAtomic : {W : Type 0} → IsAtomic (snapshots {W = W})
snapshots-IsAtomic = record { returns = λ A m w w' a h. restore-ok w (m w) a w' h }
