-- ===== src/Action/Laws.antt =====
-- Inversion of a step that returned.
use theapp.Prelude.{◌≡◌, refl, Bool, true, false, Option, none, some, arith, if◌then◌else◌}
use theapp.Errors.{Error, Outcome, ok, err, panics}
use theapp.Session.{AuthSession, AuthProject, require_session, require_project}
use theapp.Action.{
  Action, check_valid, pure, fail, ◌>>=◌, ◌on_error◌, guard, or_panic, continue, rename,
}

module _ {W A : Type 0} where
  pub on_error-ok :
      (m : Action W A) (f : Error → Error) (w : W) {a : A} {w' : W}
      → (m on_error f) w ≡ (ok a, w')
      → m w ≡ (ok a, w')
  unfolding ◌on_error◌
  on_error-ok m f w h = go (m w) h
    where
      go :
          (r : Outcome A × W) {a : A} {w' : W}
          → ◌≡◌ {A = Outcome A × W} (rename f r.0, r.1) (ok a, w')
          → r ≡ (ok a, w')
      go (ok a, v) p = p
      go (err e, v) p = ground arith
      go (panics, v) p = ground arith

module _ {W A B : Type 0} where
  pub bind-ok :
      (m : Action W A) (f : A → Action W B) (w : W) {b : B} {w' : W}
      → (m >>= f) w ≡ (ok b, w')
      → (a : A) × (v : W) × (m w ≡ (ok a, v)) × (f a v ≡ (ok b, w'))
  unfolding ◌>>=◌
  bind-ok m f w h = go (m w) h
    where
      go :
          (r : Outcome A × W) {b : B} {w' : W}
          → continue r.0 f r.1 ≡ (ok b, w')
          → (a : A) × (v : W) × (r ≡ (ok a, v)) × (f a v ≡ (ok b, w'))
      go (ok a, v) p = (a, v, refl, p)
      go (err e, v) p = ground arith
      go (panics, v) p = ground arith

  -- A step whose errors are renamed, and what follows it.
  pub step-ok :
      (m : Action W A) (h : Error → Error) (f : A → Action W B) (w : W) {b : B} {w' : W}
      → (m on_error h >>= f) w ≡ (ok b, w')
      → (a : A) × (v : W) × (m w ≡ (ok a, v)) × (f a v ≡ (ok b, w'))
  step-ok m h f w p =
      let (a, v, q, r) = bind-ok (m on_error h) f w p in (a, v, on_error-ok m h w q, r)

  pub or_panic-ok :
      (o : Option A) (f : A → Action W B) (w : W) {b : B} {w' : W}
      → (or_panic o >>= f) w ≡ (ok b, w')
      → (a : A) × (o ≡ some a) × (f a w ≡ (ok b, w'))
  unfolding ◌>>=◌ or_panic
  or_panic-ok (some a) f w p = (a, refl, p)
  or_panic-ok none f w p = ground arith

module _ {W B : Type 0} where
  pub guard-ok :
      (t : Bool) (e : Error) (f : Unit → Action W B) (w : W) {b : B} {w' : W}
      → (guard t e >>= f) w ≡ (ok b, w')
      → (t ≡ true) × (f tt w ≡ (ok b, w'))
  unfolding ◌>>=◌ guard
  guard-ok true e f w p = (refl, p)
  guard-ok false e f w p = ground arith

module _ {W B : Type 0} where
  pub session-ok :
      (ctx : Option AuthSession) (f : AuthSession → Action W B) (w : W) {b : B} {w' : W}
      → (require_session ctx >>= f) w ≡ (ok b, w')
      → (s : AuthSession) × (ctx ≡ some s) × (f s w ≡ (ok b, w'))
  unfolding ◌>>=◌ pure fail
  session-ok (some s) f w h = (s, refl, h)
  session-ok none f w h = ground arith

  pub project-ok :
      (p : Option AuthProject) (f : AuthProject → Action W B) (w : W) {b : B} {w' : W}
      → (require_project p >>= f) w ≡ (ok b, w')
      → (s : AuthProject) × (p ≡ some s) × (f s w ≡ (ok b, w'))
  unfolding ◌>>=◌ pure fail
  project-ok (some s) f w h = (s, refl, h)
  project-ok none f w h = ground arith

  pub check_valid-ok :
      (o : Option Error) (f : Unit → Action W B) (w : W) {b : B} {w' : W}
      → (check_valid o >>= f) w ≡ (ok b, w')
      → (o ≡ none) × (f tt w ≡ (ok b, w'))
  unfolding ◌>>=◌ pure fail
  check_valid-ok none f w h = (refl, h)
  check_valid-ok (some e) f w h = ground arith

-- The end of a method: the converted row is returned, or its conversion panics.
pub convert-ok :
    {W A : Type 0} (o : Option A) (w : W) {a : A} {w' : W}
    → or_panic o w ≡ (ok a, w')
    → (o ≡ some a) × (w ≡ w')
unfolding or_panic
convert-ok (some a) w h = (ground arith, ground arith)
convert-ok none w h = ground arith

pub pure-ok :
    {W A : Type 0} (a : A) (w : W) {b : A} {w' : W} → pure a w ≡ (ok b, w') → (a ≡ b) × (w ≡ w')
unfolding pure
pure-ok a w h = (ground arith, ground arith)

-- The end of a method that only tests.
pub guard_end-ok :
    {W : Type 0} (t : Bool) (e : Error) (w : W) {b : Unit} {w' : W}
    → guard t e w ≡ (ok b, w')
    → (t ≡ true) × (w ≡ w')
unfolding guard
guard_end-ok true e w h = (refl, ground arith)
guard_end-ok false e w h = ground arith

pub then-ok :
    {W A : Type 0} (t : Bool) (m n : Action W A) (w : W) {r : Outcome A × W}
    → t ≡ true
    → (if t then m else n) w ≡ r
    → m w ≡ r
then-ok true m n w p h = h
then-ok false m n w p h = ground arith

-- The other way around: a step that is known to return goes on with what it returned.
module _ {W A B : Type 0} where
  pub step-run :
      (m : Action W A) (h : Error → Error) (f : A → Action W B) (w : W) {a : A} {v : W}
      → m w ≡ (ok a, v)
      → (m on_error h >>= f) w ≡ f a v
  unfolding ◌>>=◌ ◌on_error◌
  step-run m h f w p = cc

  pub bind-run :
      (m : Action W A) (f : A → Action W B) (w : W) {a : A} {v : W}
      → m w ≡ (ok a, v)
      → (m >>= f) w ≡ f a v
  unfolding ◌>>=◌
  bind-run m f w p = cc

pub else-ok :
    {W A : Type 0} (t : Bool) (m n : Action W A) (w : W) {r : Outcome A × W}
    → t ≡ false
    → (if t then m else n) w ≡ r
    → n w ≡ r
else-ok true m n w p h = ground arith
else-ok false m n w p h = h

pub moved :
    {W A : Type 0} (m : Action W A) {v w : W} {r : Outcome A × W} → v ≡ w → m w ≡ r → m v ≡ r
moved m p h = cc
