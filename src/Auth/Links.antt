-- ===== src/Auth/Links.antt =====
-- A magic link is sent to a known user, not too often, and outdates the links before it.
use theapp.Prelude.{
  ℕ, ◌+◌, ◌≤◌, ◌≡◌, ap, ◌∙◌, ◌⊎◌, inl, inr, String, false, not, Option, none, some, arith,
  Bool-cases, ltb,
}
use mathlib.Core.Path.{subst₂}
use theapp.Errors.{ok, wrapped}
use theapp.Action.{pure, fail}
use theapp.Action.Laws.{bind-ok, step-ok, pure-ok, then-ok, else-ok, check_valid-ok}
use theapp.Session.{Time}
use theapp.Transactor.{Transactor, IsAtomic}
use theapp.Pgauth
use theapp.Pguser
use theapp.Auth.Storer.{Core}
use theapp.Auth.{
  validate_request, optional, is_rate_limited, check_rate_limit, magic_link_body, or_rate_limited,
  magic_link_token,
}
use theapp.Auth.Issued.{Generated, generate-ok}

module _ {W : Type 0} (c : Core W) where
  -- What was read about the last link, where links are limited.
  pub record Waited (user_id : ℕ) (w w' : W) : Type 0 where
    pub last_sent : Option Time
    pub now : Time
    pub at_last : W
    pub last_read :
        optional
          (c.auth_storer.latest_magic_link_token_created_at user_id)
          (wrapped "check magic link rate limit")
          w
        ≡ (ok last_sent, at_last)
    pub clock : c.lib.now at_last ≡ (ok now, w')
    pub waited : (t : Time) → last_sent ≡ some t → (t + c.cfg.magic_link_rate_limit) ≤ now

  waited_of_unlimited :
      (last : Option Time) (now : Time)
      → is_rate_limited c last now ≡ false
      → (t : Time) → last ≡ some t
      → (t + c.cfg.magic_link_rate_limit) ≤ now
  unfolding is_rate_limited
  waited_of_unlimited none now h t e = ground arith
  waited_of_unlimited (some s) now h t e = ground arith

  rate-ok :
      (user_id : ℕ) (w w' : W)
      → check_rate_limit c user_id w ≡ (ok false, w')
      → (c.cfg.magic_link_rate_limit ≡ 0) ⊎ Waited user_id w w'
  unfolding check_rate_limit
  rate-ok user_id w w' h = elim (Bool-cases (ltb 0 c.cfg.magic_link_rate_limit)) [
    | inr f ↦ inl (ground arith)
    | inl t ↦
        let (last, w1, e1, h1) = bind-ok _ _ w (else-ok _ _ _ w (ap not t) h) in
        let (now, w2, e2, h2) = bind-ok _ _ w1 h1 in
        let (p, q) = pure-ok _ w2 h2 in
        inr (record {
          last_sent = last;
          now = now;
          at_last = w1;
          last_read = e1;
          clock = e2 ∙ ap (λ v. (ok now, v)) q;
          waited = waited_of_unlimited last now p;
        })
  ]

  -- The transaction of a link that was issued.
  pub record IssuedLink (user_id : ℕ) (w w' : W) (tok : String) : Type 0 where
    pub now : Time
    pub hash : String
    pub row : Pgauth.MagicLinkToken
    pub at_lock : W
    pub at_check : W
    pub at_invalidate : W
    pub at_token : W
    pub at_now : W
    pub locked : c.auth_storer.lock_user user_id w ≡ (ok tt, at_lock)
    pub unlimited : (c.cfg.magic_link_rate_limit ≡ 0) ⊎ Waited user_id at_lock at_check
    pub invalidated :
        c.auth_storer.invalidate_user_magic_link_tokens user_id at_check ≡ (ok tt, at_invalidate)
    pub token : Generated c at_invalidate at_token tok hash
    pub clock : c.lib.now at_token ≡ (ok now, at_now)
    pub stored :
        c.auth_storer.create_magic_link_token
          (record { user_id = user_id; token_hash = hash; expires_at = now + c.cfg.magic_link_ttl })
          at_now
        ≡ (ok row, w')

  token_of_answer :
      (o : Option String) (w : W) {tok : String} {w' : W}
      → or_rate_limited c o w ≡ (ok tok, w')
      → (o ≡ some tok) × (w ≡ w')
  unfolding pure fail
  token_of_answer none w h = ground arith
  token_of_answer (some t) w h = (ground arith, ground arith)

  not_none :
      (tok : String) (w w' : W) → ¬ (pure {W = W} {A = Option String} none w ≡ (ok (some tok), w'))
  unfolding pure
  not_none tok w w' h = ground arith

  same_token : (s t : String) → some s ≡ some t → s ≡ t
  same_token s t h = ground arith

  body-ok :
      (user_id : ℕ) (w w' : W) (tok : String)
      → magic_link_body c user_id w ≡ (ok (some tok), w')
      → IssuedLink user_id w w' tok
  unfolding magic_link_body
  body-ok user_id w w' tok h =
      let (_, w1, e1, h1) = step-ok _ _ _ w h in
      let (limited, w2, e2, h2) = bind-ok _ _ w1 h1 in
      elim (Bool-cases limited) [
        | inl t ↦ absurd (not_none tok w2 w' (then-ok limited _ _ w2 t h2))
        | inr f ↦
            let (_, w3, e3, h3) = step-ok _ _ _ w2 (else-ok limited _ _ w2 f h2) in
            let ((raw, hash), w4, e4, h4) = step-ok _ _ _ w3 h3 in
            let (now, w5, e5, h5) = bind-ok _ _ w4 h4 in
            let (row, w6, e6, h6) = step-ok _ _ _ w5 h5 in
            let (p, q) = pure-ok _ w6 h6 in
            subst₂ (λ x v. IssuedLink user_id w v x) (same_token raw tok p) q
              (record {
                now = now;
                hash = hash;
                row = row;
                at_lock = w1;
                at_check = w2;
                at_invalidate = w3;
                at_token = w4;
                at_now = w5;
                locked = e1;
                unlimited = rate-ok user_id w1 w2 (e2 ∙ ap (λ b. (ok b, w2)) f);
                invalidated = e3;
                token = generate-ok c w3 w4 (raw, hash) e4;
                clock = e5;
                stored = e6;
              })
      ]

  module _ (tr : Transactor W) (atomic : IsAtomic tr) where
    -- A link that was issued goes to the user with the lower-cased address, was issued under the lock
    -- of that user, keeps the configured distance from the user's last link where there is one, comes
    -- after the invalidation of the links before it, and is stored by its digest with its lifetime.
    pub links_keep_their_distance :
        (email : String) (w w' : W) (tok : String)
        → magic_link_token c tr email w ≡ (ok tok, w')
        → (validate_request c.lib email ≡ none)
          × (user : Pguser.User) × (v : W) × (c.user_storer.user_by_email (c.lib.to_lower email) w
              ≡ (ok user, v))
          × IssuedLink user.id v w' tok
    unfolding magic_link_token
    links_keep_their_distance email w w' tok h =
        let (valid, h0) = check_valid-ok _ _ w h in
        let (user, w1, e1, h1) = step-ok _ _ _ w h0 in
        let (o, w2, t, h2) = step-ok _ _ _ w1 h1 in
        let (p, q) = token_of_answer o w2 h2 in
        let committed = t ∙ ap (λ x. (ok x, w2)) p ∙ ap (λ x. (ok (some tok), x)) q in
        let body = atomic.returns (Option String) _ w1 w' (some tok) committed in
        (valid, user, w1, e1, body-ok user.id w1 w' tok body)
