-- ===== src/Server/Projects.antt =====
-- The project that a call names: how its number is read, and that it is there where it is used.
use Prim.Native.Char.{code}
use theapp.Prelude.{
  String, ℕ, ◌≤◌, ◌<◌, ◌≡◌, refl, sym, ◌∙◌, ◌⊎◌, inl, inr, Bool, true, false, Option, none, some,
  List, [], ◌∷◌, string_comparable, arith, Bool-cases, nat_beq, ◌==◌,
}
use theapp.Set.{has}
use theapp.Status.{GrpcCode}
use theapp.Errors.{ok, panics}
use theapp.Action.{◌>>=◌, or_panic, fail, pure}
use theapp.Action.Laws.{step-ok, bind-ok, guard-ok, then-ok, else-ok, pure-ok}
use theapp.Session.{Uuid}
use theapp.Server.{no_project_methods, method_requires_organization_scope}
use theapp.Server.Tables.{projectless_methods}
use theapp.Server.Numbers.{atoi, digits, in_range, unsigned}
use theapp.Server.Interceptors.{
  Context, AuthCore, parse_project_id, positive, project_id_of, resolve_session, or_status,
  first_of,
}
use theapp.Server.Guards.{or_status-ok}

-- The number is the size of what Atoi read, it is positive and it fits in 63 bits.
in_range-positive :
    (sign : Bool) (o : Option ℕ) (n : ℕ)
    → positive (in_range sign o) ≡ some n
    → (1 ≤ n) × (n < 0x8000000000000000)
in_range-positive true none n h = ground arith
in_range-positive true (some m) n h = ground arith
in_range-positive false none n h = ground arith
in_range-positive false (some m) n h = ground arith

unsigned-positive :
    (sign : Bool) (s : String) (n : ℕ)
    → positive (unsigned sign s) ≡ some n
    → (1 ≤ n) × (n < 0x8000000000000000)
unsigned-positive sign s n h = elim (Bool-cases (s == "")) [
  | inl t ↦ ground (arith, h, t)
  | inr f ↦ in_range-positive sign (digits 0 s) n (rw f at h)
]

atoi-positive :
    (s : String) (n : ℕ) → positive (atoi s) ≡ some n → (1 ≤ n) × (n < 0x8000000000000000)
unfolding atoi
atoi-positive String.[] n h = ground arith
atoi-positive (String.◌∷◌ c s) n h = elim (Bool-cases (nat_beq (code c) 45)) [
  | inl t ↦ unsigned-positive true s n (rw t at h)
  | inr f ↦ elim (Bool-cases (nat_beq (code c) 43)) [
    | inl t ↦ unsigned-positive false s n (rw (f, t) at h)
    | inr g ↦ unsigned-positive false (String.◌∷◌ c s) n (rw (f, g) at h)
  ]
]

module _ {W : Type 0} where
  or_status_end-ok :
      {A : Type 0} (c : GrpcCode) (o : Option A) (w : W) {a : A} {v : W}
      → or_status c o w ≡ (ok a, v)
      → (o ≡ some a) × (w ≡ v)
  unfolding pure fail
  or_status_end-ok c (some a) w h = (ground arith, ground arith)
  or_status_end-ok c none w h = ground arith

  first_of-ok :
      (c : GrpcCode) (vs : List String) (w : W) {a : String} {v : W}
      → first_of c vs w ≡ (ok a, v)
      → w ≡ v
  unfolding pure fail
  first_of-ok c (x ∷ vs) w h = ground arith
  first_of-ok c [] w h = ground arith

  parse-positive :
      (ctx : Context) (w v : W) (id : ℕ)
      → parse_project_id ctx w ≡ (ok id, v)
      → (1 ≤ id) × (id < 0x8000000000000000) × (w ≡ v)
  unfolding parse_project_id
  parse-positive ctx w v id h =
      let (md, e, h1) = or_status-ok _ _ _ w h in
      let (val, w1, e1, h2) = bind-ok _ _ w h1 in
      let (t, h3) = guard-ok _ _ _ w1 h2 in
      let (n, q) = or_status_end-ok _ _ w1 h3 in
      let (lo, hi) = atoi-positive val id n in (lo, hi, first_of-ok _ _ w e1 ∙ q)

  -- The project of a call: none for a method without a project, and else a positive number that fits
  -- in 63 bits; and the database has not been asked.
  pub located_projects :
      (method : String) (ctx : Context) (w v : W) (p : Option ℕ)
      → project_id_of method ctx w ≡ (ok p, v)
      → (w ≡ v)
        × (((has no_project_methods method ≡ true) × (p ≡ none))
            ⊎ ((has no_project_methods method ≡ false)
                × (id : ℕ) × (p ≡ some id)
                × (1 ≤ id)
                × (id < 0x8000000000000000)))
  unfolding project_id_of
  located_projects method ctx w v p h = elim (Bool-cases (has no_project_methods method)) [
    | inl t ↦ let (e, q) = pure-ok _ w (then-ok _ _ _ w t h) in (q, inl (t, sym e))
    | inr f ↦
        let (id, w1, e1, h1) = step-ok _ _ _ w (else-ok _ _ _ w f h) in
        let (e, q) = pure-ok _ w1 h1 in
        let (lo, hi, k) = parse-positive ctx w w1 id e1 in (k ∙ q, inr (f, id, sym e, lo, hi))
  ]

  resolve-some :
      (core : AuthCore W) (method : String) (user_id : Uuid) (v w' : W) (id : ℕ)
      → resolve_session core method user_id (some id) v ≡ (panics, w')
      → (core.auth_session user_id (some id) v ≡ (panics, w'))
        ⊎ (core.organization_auth_session user_id id v ≡ (panics, w'))
  unfolding resolve_session or_panic ◌>>=◌
  resolve-some core method user_id v w' id h =
      elim (Bool-cases (method_requires_organization_scope method)) [
        | inl t ↦ inr (then-ok _ _ _ v t h)
        | inr f ↦ inl (else-ok _ _ _ v f h)
      ]

  -- The session of a call is resolved without a panic of the interceptor's own: the project is there
  -- wherever it is dereferenced, and a panic is one of the core that was called.
  pub projects_are_dereferenced_safely :
      (core : AuthCore W) (method : String) (ctx : Context) (user_id : Uuid) (w v w' : W)
      (p : Option ℕ)
      → project_id_of method ctx w ≡ (ok p, v)
      → resolve_session core method user_id p v ≡ (panics, w')
      → (core.auth_session user_id p v ≡ (panics, w'))
        ⊎ ((id : ℕ) × (p ≡ some id) × (core.organization_auth_session user_id id v ≡ (panics, w')))
  unfolding resolve_session
  projects_are_dereferenced_safely core method ctx user_id w v w' none l h =
      elim (located_projects method ctx w v none l).1 [
        | inl (t, e) ↦ inl (else-ok _ _ _ v (projectless_methods method t).0 h)
        | inr (f, id, e, lo, hi) ↦ ground arith
      ]
  projects_are_dereferenced_safely core method ctx user_id w v w' (some id) l h =
      elim (resolve-some core method user_id v w' id h) [
        | inl a ↦ inl a
        | inr a ↦ inr (id, refl, a)
      ]
