-- ===== src/Transactor.antt =====
-- The interface Transactor of the cores, and what they rely on. The callback's captured variables
-- are the value that the action returns. Tx.antt models the implementation.
use theapp.Prelude.{◌≡◌}
use theapp.Errors.{ok}
use theapp.Action.{Action}

pub record Transactor (W : Type 0) : Type 1 where
  pub run_tx : (A : Type 0) → Action W A → Action W A

-- A transaction that returns keeps exactly what its body returned and wrote.
pub record IsAtomic {W : Type 0} (t : Transactor W) : Type 1 where
  pub returns :
      (A : Type 0) (m : Action W A) (w w' : W) (a : A)
      → t.run_tx A m w ≡ (ok a, w')
      → m w ≡ (ok a, w')
