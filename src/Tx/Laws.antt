-- ===== src/Tx/Laws.antt =====
-- RunTx commits what a callback that succeeded wrote, and nothing of one that failed.
use theapp.Prelude.{
  ◌≡◌, refl, sym, ap, ◌∙◌, true, false, List, [], ◌∷◌, arith, Bool-cases, inl, inr,
}
use theapp.Errors.{Error, Sentinel, Outcome, ok, err, panics, is, tx_closed, both, wrapped}
use theapp.Action.{Action, ◌on_error◌, ◌>>=◌}
use theapp.Action.Laws.{step-ok}
use theapp.Tx.{
  Pgx, Setting, run_tx, begin_pool_tx, abort, commit_or_abort, set_local_settings, after_settings,
  after_commit, finish, joined,
}

-- The documented behaviour of pgx transactions.
pub record IsPgx {C W : Type 0} (px : Pgx C W) : Type 0 where
  pub begun :
      (c c' : C)
      → px.begin_tx c ≡ (ok tt, c')
      → (px.visible c' ≡ px.committed c)
        × (px.committed c' ≡ px.committed c)
        × (px.is_open c' ≡ true)
  pub configured :
      (c : C) (s : List Setting)
      → (px.visible (px.set_config s c).1 ≡ px.visible c)
        × (px.committed (px.set_config s c).1 ≡ px.committed c)
        × (px.is_open (px.set_config s c).1 ≡ px.is_open c)
  pub commits :
      (c c' : C) → px.is_open c ≡ true → px.commit c ≡ (ok tt, c') → px.committed c' ≡ px.visible c
  pub commit_open :
      (c c' : C) (e : Error)
      → px.is_open c ≡ true
      → px.commit c ≡ (err e, c')
      → is e tx_closed ≡ false
  pub rolls_back : (c : C) → px.committed (px.rollback c).1 ≡ px.committed c

-- A callback whose statements are `m` on what the transaction sees: it commits nothing itself.
pub record Performs {C W A : Type 0} (px : Pgx C W) (fn : Action C A) (m : Action W A)
    : Type 0 where
  pub outcome : (c : C) → px.is_open c ≡ true → (fn c).0 ≡ (m (px.visible c)).0
  pub written :
      (c : C)
      → px.is_open c ≡ true
      → (px.visible (fn c).1 ≡ (m (px.visible c)).1)
        × (px.committed (fn c).1 ≡ px.committed c)
        × (px.is_open (fn c).1 ≡ true)

-- An outcome that is an error, and is every sentinel that the error `e` is.
pub record Fails {A : Type 0} (e : Error) (r : Outcome A) : Type 0 where
  pub error : Error
  pub is_error : r ≡ err error
  pub keeps : (s : Sentinel) → is e s ≡ true → is error s ≡ true

-- A rollback on the way out keeps the error, perhaps joined with its own.
pub Fails-joined :
    {C W A : Type 0} (px : Pgx C W) (e : Error) (r : Outcome Unit)
    → Fails {A = A} e (err (joined px e r))
Fails-joined px e (err d) = elim (Bool-cases (is d tx_closed)) [
  | inl closed ↦ record { error = e; is_error = ground arith; keeps = λ s h. h }
  | inr failed ↦ record {
    error = both e (wrapped "rollback tx" d);
    is_error = ground arith;
    keeps = λ s h. ground arith;
  }
]
Fails-joined px e (ok _) = record { error = e; is_error = refl; keeps = λ s h. h }
Fails-joined px e panics = record { error = e; is_error = refl; keeps = λ s h. h }

module _ {C W : Type 0} (px : Pgx C W) (law : IsPgx px) where
  settings_keep :
      (s : List Setting) (c : C)
      → (px.visible (set_local_settings px s c).1 ≡ px.visible c)
        × (px.committed (set_local_settings px s c).1 ≡ px.committed c)
        × (px.is_open (set_local_settings px s c).1 ≡ px.is_open c)
  unfolding set_local_settings
  settings_keep [] c = (refl, refl, refl)
  settings_keep (x ∷ s) c = law.configured c (x ∷ s)

  after_settings-ok : (r : Outcome Unit) (c c' : C) → after_settings px r c ≡ (ok tt, c') → c ≡ c'
  unfolding abort ◌on_error◌
  after_settings-ok (ok _) c c' h = ground arith
  after_settings-ok (err e) c c' h = ground arith
  after_settings-ok panics c c' h = ground arith

  pub begin_pool_tx-ok :
      (s : List Setting) (c c' : C)
      → begin_pool_tx px false s c ≡ (ok tt, c')
      → (px.visible c' ≡ px.committed c)
        × (px.committed c' ≡ px.committed c)
        × (px.is_open c' ≡ true)
  unfolding begin_pool_tx
  begin_pool_tx-ok s c c' h =
      let (_, c1, e, k) = step-ok _ _ _ c h in
      let (seen, kept, opened) = law.begun c c1 e in
      let (seen', kept', opened') = settings_keep s c1 in
      let same = after_settings-ok _ (set_local_settings px s c1).1 c' k in
      rw (← same) (seen' ∙ seen, kept' ∙ kept, opened' ∙ opened)

  pub commit_or_abort-ok :
      {A : Type 0} (f : Error → Error) (a b : A) (c c' : C)
      → px.is_open c ≡ true
      → commit_or_abort px f a c ≡ (ok b, c')
      → (a ≡ b) × (px.committed c' ≡ px.visible c)
  unfolding commit_or_abort abort
  commit_or_abort-ok {A} f a b c c' o h = go (px.commit c) refl h
    where
      go :
          (r : Outcome Unit × C)
          → px.commit c ≡ r
          → after_commit px "commit tx" f a r.0 r.1 ≡ (ok b, c')
          → (a ≡ b) × (px.committed c' ≡ px.visible c)
      go (ok _, v) e k = (ground arith, law.commits c c' o (ground arith))
      go (err d, v) e k = ground (arith, law.commit_open c v d o e)
      go (panics, v) e k = ground arith

  pub finish-ok :
      {A : Type 0} (r : Outcome A) (a : A) (v c' : C)
      → px.is_open v ≡ true
      → finish px false r v ≡ (ok a, c')
      → (r ≡ ok a) × (px.committed c' ≡ px.visible v)
  unfolding abort
  finish-ok (ok b) a v c' o h =
      let (same, done) = commit_or_abort-ok (λ e. e) b a v c' o h in (ap ok same, done)
  finish-ok (err e) a v c' o h = ground arith
  finish-ok panics a v c' o h = ground arith

  -- When RunTx, called with no transaction in the context, returns: its callback returned the same
  -- value from the database as it was committed, and what the callback wrote is what is committed.
  pub run_tx_commits :
      (A : Type 0) (fn : Action C A) (m : Action W A)
      → Performs px fn m
      → (s : List Setting) (c c' : C) (a : A) → run_tx px false s fn c ≡ (ok a, c')
      → m (px.committed c) ≡ (ok a, px.committed c')
  unfolding run_tx
  run_tx_commits A fn m k s c c' a h =
      let (_, c1, e, p) = step-ok _ _ _ c h in
      let (seen, kept, opened) = begin_pool_tx-ok s c c1 e in
      let (returned, done) = finish-ok (fn c1).0 a (fn c1).1 c' (k.written c1 opened).2 p in
      let value = sym (k.outcome c1 opened) ∙ returned in
      let state = sym (k.written c1 opened).0 ∙ sym done in rw (← seen) (λ i. (value i, state i))

  -- Where RunTx begins its own transaction and the callback fails, RunTx returns an error that is
  -- whatever the callback's error is, and what was committed before is what is committed after.
  pub run_tx_rolls_back :
      (A : Type 0) (fn : Action C A) (m : Action W A)
      → Performs px fn m
      → (s : List Setting) (c c1 : C) (e : Error) → begin_pool_tx px false s c ≡ (ok tt, c1)
      → (m (px.committed c)).0 ≡ err e
      → Fails e (run_tx px false s fn c).0
        × (px.committed (run_tx px false s fn c).1 ≡ px.committed c)
  unfolding run_tx ◌>>=◌ ◌on_error◌ abort
  run_tx_rolls_back A fn m k s c c1 e b h =
      let (seen, kept, opened) = begin_pool_tx-ok s c c1 b in
      let failed = k.outcome c1 opened ∙ ap (λ w. (m w).0) seen ∙ h in
      let written = k.written c1 opened in
      rw b (
        rw failed (
          Fails-joined px e (px.rollback (fn c1).1).0,
          law.rolls_back (fn c1).1 ∙ written.1 ∙ kept,
        ))

  -- When the callback panics, RunTx neither commits nor rolls back: the panic goes on, and the
  -- transaction that RunTx began is still open.
  pub run_tx_panic_leaks :
      (A : Type 0) (fn : Action C A) (m : Action W A)
      → Performs px fn m
      → (s : List Setting) (c c1 : C) → begin_pool_tx px false s c ≡ (ok tt, c1)
      → (m (px.committed c)).0 ≡ panics
      → ((run_tx px false s fn c).0 ≡ panics) × (px.is_open (run_tx px false s fn c).1 ≡ true)
  unfolding run_tx ◌>>=◌ ◌on_error◌
  run_tx_panic_leaks A fn m k s c c1 b h =
      let (seen, kept, opened) = begin_pool_tx-ok s c c1 b in
      let panicked = k.outcome c1 opened ∙ ap (λ w. (m w).0) seen ∙ h in
      rw b (rw panicked (refl, (k.written c1 opened).2))
