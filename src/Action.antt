-- ===== src/Action.antt =====
-- Methods that read and change the database and may fail or panic. What was written before an
-- error stays written: only `run_tx` takes it back, so the state comes beside every outcome.
pub mod Laws
use theapp.Prelude.{Bool, true, false, Option, none, some}
use theapp.Errors.{Error, Outcome, ok, err, panics, wrapped}

abbrev pub Action {ℓ} : Type ℓ → Type ℓ → Type ℓ
Action W A = W → Outcome A × W

abbrev pub rename {ℓ} : {A : Type ℓ} → (Error → Error) → Outcome A → Outcome A
rename f (ok a) = ok a
rename f (err e) = err (f e)
rename f panics = panics

module _ {ℓ} {W A : Type ℓ} where
  unfoldable pub pure : A → Action W A
  pure a w = (ok a, w)

  unfoldable pub fail : Error → Action W A
  fail e w = (err e, w)

  -- panic(…)
  unfoldable pub panic : Action W A
  panic w = (panics, w)

  -- A pure result that panics where it is `none`.
  unfoldable pub or_panic : Option A → Action W A
  or_panic (some a) w = (ok a, w)
  or_panic none w = (panics, w)

  -- if err != nil { return f(err) }
  infixl 6 ◌on_error◌
  unfoldable pub ◌on_error◌ : Action W A → (Error → Error) → Action W A
  ◌on_error◌ m f w = let (r, w') = m w in (rename f r, w')

abbrev pub continue {ℓ} : {W A B : Type ℓ} → Outcome A → (A → Action W B) → Action W B
continue (ok a) f w = f a w
continue (err e) f w = (err e, w)
continue panics f w = (panics, w)

infixl 5 ◌>>=◌ ◌>>◌
unfoldable pub ◌>>=◌ {ℓ} : {W A B : Type ℓ} → Action W A → (A → Action W B) → Action W B
◌>>=◌ m f w = let (r, w') = m w in continue r f w'

abbrev pub ◌>>◌ {ℓ} : {W A B : Type ℓ} → Action W A → Action W B → Action W B
m >> k = m >>= λ _. k

abbrev pub done {ℓ} : {W : Type ℓ} → Action W (Unit {ℓ})
done = pure tt

-- if !b { return e }
unfoldable pub guard {ℓ} : {W : Type ℓ} → Bool → Error → Action W (Unit {ℓ})
guard true e w = (ok tt, w)
guard false e w = (err e, w)

-- if err := r.Validate(); err != nil { return fmt.Errorf("validate: %w", err) }
abbrev pub check_valid : {W : Type 0} → Option Error → Action W Unit
check_valid none = done
check_valid (some e) = fail (wrapped "validate" e)

-- To run an action on a database: a test that unfolds `run` unfolds the steps too.
unfoldable pub run {ℓ} : {W A : Type ℓ} → Action W A → W → Outcome A × W
unfolding ◌>>=◌ ◌on_error◌ pure fail panic or_panic guard
run m w = m w
