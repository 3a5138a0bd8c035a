-- ===== src/Server/Guards.antt =====
-- What one interceptor has checked when the handler behind it has answered.
use theapp.Prelude.{
  String, ◌≡◌, refl, sym, ◌∙◌, ap, inl, inr, Bool, true, false, not, Option, none, some, List,
  contains, string_comparable, arith, Bool-cases,
}
use theapp.Set.{has}
use theapp.Slices.{all_sound}
use theapp.Status.{GrpcCode, invalid_argument}
use theapp.Errors.{Error, Outcome, ok, err, panics, status, message, is, validation}
use theapp.Action.{Action, ◌>>=◌, fail, pure, rename}
use theapp.Action.Laws.{step-ok, guard-ok, guard_end-ok, then-ok, else-ok, moved}
use theapp.Permission.{Permission}
use theapp.Session.{AuthSession, AuthProject, is_system_control_project}
use theapp.Server.{
  public_methods, system_control_project_methods, org_control_project_methods, permission_registry,
  registered,
}
use theapp.Server.Interceptors.{
  Context, Handler, or_unregistered, or_status, or_missing, session_project,
  require_system_control_project, require_organization_control_project,
  permission_unary_interceptor, system_control_project_unary_interceptor,
  organization_control_project_unary_interceptor, recovered, external_error, code_or_internal,
  grpc_status,
}

-- A control project that the session selected.
pub record SystemControl (s : AuthSession) : Type 0 where
  pub project : AuthProject
  pub selected : s.project ≡ some project
  pub is_system : is_system_control_project project ≡ true
  pub is_member : project.is_org_member ≡ true

pub record OrganizationControl (s : AuthSession) : Type 0 where
  pub project : AuthProject
  pub selected : s.project ≡ some project
  pub is_control : project.is_control ≡ true

not_both : (b : Bool) → b ≡ true → b ≡ false → ⊥
not_both b t f = ground arith

module _ {W A B : Type 0} where
  pub or_status-ok :
      (c : GrpcCode) (o : Option A) (f : A → Action W B) (w : W) {b : B} {w' : W}
      → (or_status c o >>= f) w ≡ (ok b, w')
      → (a : A) × (o ≡ some a) × (f a w ≡ (ok b, w'))
  unfolding ◌>>=◌ pure fail
  or_status-ok c (some a) f w h = (a, refl, h)
  or_status-ok c none f w h = ground arith

module _ {W B : Type 0} where
  pub or_unregistered-ok :
      (o : Option (List Permission)) (f : List Permission → Action W B) (w : W) {b : B} {w' : W}
      → (or_unregistered o >>= f) w ≡ (ok b, w')
      → (ps : List Permission) × (o ≡ some ps) × (f ps w ≡ (ok b, w'))
  unfolding ◌>>=◌ pure fail
  or_unregistered-ok (some ps) f w h = (ps, refl, h)
  or_unregistered-ok none f w h = ground arith

  pub or_missing-ok :
      (o : Option AuthProject) (f : AuthProject → Action W B) (w : W) {b : B} {w' : W}
      → (or_missing o >>= f) w ≡ (ok b, w')
      → (p : AuthProject) × (o ≡ some p) × (f p w ≡ (ok b, w'))
  unfolding ◌>>=◌ pure fail
  or_missing-ok (some p) f w h = (p, refl, h)
  or_missing-ok none f w h = ground arith

module _ {W A : Type 0} (method : String) (handler : Handler W A) (ctx : Context) where
  pub org_guard-ok :
      (w w' : W) (a : A) (s : AuthSession)
      → ctx.session ≡ some s
      → organization_control_project_unary_interceptor method handler ctx w ≡ (ok a, w')
      → (has org_control_project_methods method ≡ true → OrganizationControl s)
        × (handler ctx w ≡ (ok a, w'))
  unfolding organization_control_project_unary_interceptor require_organization_control_project
  org_guard-ok w w' a s e h = elim (Bool-cases (has org_control_project_methods method)) [
    | inl t ↦
        let (_, w1, e1, h1) = step-ok _ _ _ w (else-ok _ _ _ w (ap not t) h) in
        let (p, f, h2) = or_missing-ok (session_project ctx.session) _ w e1 in
        let (c, q) = guard_end-ok _ _ w h2 in
        (
          λ _. record { project = p; selected = ap session_project (sym e) ∙ f; is_control = c },
          moved (handler ctx) q h1,
        )
    | inr n ↦ (λ t. absurd (not_both _ t n), then-ok _ _ _ w (ap not n) h)
  ]

  pub system_guard-ok :
      (w w' : W) (a : A) (s : AuthSession)
      → ctx.session ≡ some s
      → system_control_project_unary_interceptor method handler ctx w ≡ (ok a, w')
      → (has system_control_project_methods method ≡ true → SystemControl s)
        × (handler ctx w ≡ (ok a, w'))
  unfolding system_control_project_unary_interceptor require_system_control_project
  system_guard-ok w w' a s e h = elim (Bool-cases (has system_control_project_methods method)) [
    | inl t ↦
        let (_, w1, e1, h1) = step-ok _ _ _ w (else-ok _ _ _ w (ap not t) h) in
        let (p, f, h2) = or_missing-ok (session_project ctx.session) _ w e1 in
        let (c, h3) = guard-ok _ _ _ w h2 in
        let (m, q) = guard_end-ok _ _ w h3 in
        (
          λ _. record {
            project = p;
            selected = ap session_project (sym e) ∙ f;
            is_system = c;
            is_member = m;
          },
          moved (handler ctx) q h1,
        )
    | inr n ↦ (λ t. absurd (not_both _ t n), then-ok _ _ _ w (ap not n) h)
  ]

  pub permission-ok :
      (w w' : W) (a : A) (s : AuthSession)
      → has public_methods method ≡ false
      → ctx.session ≡ some s
      → permission_unary_interceptor method handler ctx w ≡ (ok a, w')
      → (ps : List Permission) × (registered permission_registry method ≡ some ps)
        × ((p : Permission) → contains ps p ≡ true → contains s.user.permissions p ≡ true)
        × (handler ctx w ≡ (ok a, w'))
  unfolding permission_unary_interceptor
  permission-ok w w' a s n e h =
      let (ps, f, h1) = or_unregistered-ok _ _ w (else-ok _ _ _ w n h) in
      let (s', e', h2) = or_status-ok _ ctx.session _ w h1 in
      let (g, h3) = guard-ok _ _ _ w h2 in
      (ps, f, λ p m. same_session s' s (sym e' ∙ e) p (all_sound ps _ p g m), h3)
    where
      same_session :
          (s' s : AuthSession)
          → some s' ≡ some s
          → (p : Permission) → contains s'.user.permissions p ≡ true
          → contains s.user.permissions p ≡ true
      same_session s' s q p h = ground arith

external_is_status : (e : Error) → (c : GrpcCode) × (external_error e ≡ status c)
unfolding external_error
external_is_status e = elim (Bool-cases (is e validation)) [
  | inl t ↦ (invalid_argument, rw t refl)
  | inr f ↦ (code_or_internal (grpc_status e), rw f refl)
]

status_of_err :
    {W A : Type 0} (d : Error) (v : W) (e : Error) (w' : W)
    → ◌≡◌ {A = Outcome A × W} (err (external_error d), v) (err e, w')
    → (c : GrpcCode) × (e ≡ status c)
status_of_err d v e w' h = let (c, p) = external_is_status d in (c, ground (arith, p))

pub answer_shape :
    {W A : Type 0} (r : Outcome A × W) (w' : W)
    → ((e : Error)
        → ◌≡◌ {A = Outcome A × W} (rename external_error (recovered r.0), r.1) (err e, w')
        → (c : GrpcCode) × (e ≡ status c))
      × (¬ (◌≡◌ {A = Outcome A × W} (rename external_error (recovered r.0), r.1) (panics, w')))
answer_shape (ok a, v) w' = (λ e h. ground arith, λ h. ground arith)
answer_shape (err d, v) w' = (λ e h. status_of_err d v e w' h, λ h. ground arith)
answer_shape (panics, v) w' = (λ e h. status_of_err (message "PANIC") v e w' h, λ h. ground arith)

pub recovered-ok :
    {W A : Type 0} (r : Outcome A × W) (a : A) (w' : W)
    → ◌≡◌ {A = Outcome A × W} (recovered r.0, r.1) (ok a, w')
    → r ≡ (ok a, w')
recovered-ok (ok b, v) a w' h = h
recovered-ok (err e, v) a w' h = ground arith
recovered-ok (panics, v) a w' h = ground arith
