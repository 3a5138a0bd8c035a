-- ===== src/Auth/Issued.antt =====
-- Tokens are issued only against what was consumed, and only their digests are stored.
use theapp.Prelude.{ℕ, ◌+◌, ◌≡◌, refl, String, none, List}
use mathlib.Core.Path.{subst₂}
use theapp.Errors.{ok}
use theapp.Action.Laws.{on_error-ok, bind-ok, step-ok, pure-ok, check_valid-ok}
use theapp.Session.{Uuid, Time}
use theapp.Transactor.{Transactor, IsAtomic}
use theapp.Pgauth
use theapp.Auth.Storer.{Core}
use theapp.Auth.{
  AuthTokenPair, validate_token, generate_token, issue_token_pair, verify_body, refresh_body,
  verify_magic_link, refresh_access_token,
}

module _ {W : Type 0} (c : Core W) where
  -- A random token and the digest of it.
  pub record Generated (w w' : W) (raw hash : String) : Type 0 where
    pub bytes : List ℕ
    pub drawn : c.lib.read_random 32 w ≡ (ok bytes, w')
    pub is_encoded : raw ≡ c.lib.encode_raw_url bytes
    pub is_digest : hash ≡ c.lib.sha256_hex raw

  -- A pair for one user: the access token is signed for the user's external id, with the configured
  -- issuer, audience and lifetime, and the refresh token is new and stored by its digest.
  pub record IssuedPair (user_id : ℕ) (external_id : Uuid) (w w' : W) (pair : AuthTokenPair)
      : Type 0 where
    pub now : Time
    pub at_now : W
    pub at_sign : W
    pub at_store : W
    pub hash : String
    pub row : Pgauth.RefreshToken
    pub clock : c.lib.now w ≡ (ok now, at_now)
    pub signed :
        c.lib.sign_hs256
          (record {
            user_id = external_id;
            issuer = c.cfg.jwt_issuer;
            audience = c.cfg.jwt_audience;
            issued_at = now;
            expires_at = now + c.cfg.access_token_ttl;
          })
          c.cfg.jwt_key
          at_now
        ≡ (ok pair.access_token, at_sign)
    pub token : Generated at_sign at_store pair.refresh_token hash
    pub stored :
        c.auth_storer.create_refresh_token
          (record {
            user_id = user_id;
            token_hash = hash;
            expires_at = now + c.cfg.refresh_token_ttl;
          })
          at_store
        ≡ (ok row, w')
    pub lifetime : pair.expires_in ≡ c.cfg.access_token_ttl

  pub generate-ok :
      (w w' : W) (t : String × String) → generate_token c w ≡ (ok t, w') → Generated w w' t.0 t.1
  unfolding generate_token
  generate-ok w w' t h =
      let (b, w1, e, h1) = step-ok _ _ _ w h in
      let (p, q) = pure-ok _ w1 h1 in
      subst₂ (λ x v. Generated w v x.0 x.1) p q
        (record { bytes = b; drawn = e; is_encoded = refl; is_digest = refl })

  issue-ok :
      (user_id : ℕ) (ext : Uuid) (w w' : W) (pair : AuthTokenPair)
      → issue_token_pair c user_id ext w ≡ (ok pair, w')
      → IssuedPair user_id ext w w' pair
  unfolding issue_token_pair
  issue-ok user_id ext w w' pair h =
      let (now, w1, e1, h1) = bind-ok _ _ w h in
      let (access, w2, e2, h2) = step-ok _ _ _ w1 h1 in
      let ((raw, hash), w3, e3, h3) = step-ok _ _ _ w2 h2 in
      let (row, w4, e4, h4) = step-ok _ _ _ w3 h3 in
      let (p, q) = pure-ok _ w4 h4 in
      subst₂ (λ x v. IssuedPair user_id ext w v x) p q
        (record {
          now = now;
          at_now = w1;
          at_sign = w2;
          at_store = w3;
          hash = hash;
          row = row;
          clock = e1;
          signed = e2;
          token = generate-ok w2 w3 (raw, hash) e3;
          stored = e4;
          lifetime = refl;
        })

  -- A sign-in: the link was found by the digest of the token, and in one transaction it was consumed,
  -- the address marked as verified, and a pair issued to the link's user.
  pub record SignIn (tr : Transactor W) (token : String) (w w' : W) (pair : AuthTokenPair)
      : Type 0 where
    pub link : Pgauth.MagicLinkToken
    pub at_link : W
    pub at_consume : W
    pub at_verify : W
    pub found :
        c.auth_storer.magic_link_token_by_hash (c.lib.sha256_hex token) w ≡ (ok link, at_link)
    pub ran : tr.run_tx AuthTokenPair (verify_body c link) at_link ≡ (ok pair, w')
    pub consumed : c.auth_storer.consume_magic_link_token link.id at_link ≡ (ok tt, at_consume)
    pub verified :
        c.user_storer.mark_email_verified link.user_external_id at_consume ≡ (ok tt, at_verify)
    pub issued : IssuedPair link.user_id link.user_external_id at_verify w' pair

  -- A rotation: in one transaction the old token was consumed by its digest, and a pair issued to the same user.
  pub record Rotation (tr : Transactor W) (token : String) (w w' : W) (pair : AuthTokenPair)
      : Type 0 where
    pub old : Pgauth.RefreshToken
    pub at_consume : W
    pub ran : tr.run_tx AuthTokenPair (refresh_body c (c.lib.sha256_hex token)) w ≡ (ok pair, w')
    pub consumed :
        c.auth_storer.consume_refresh_token (c.lib.sha256_hex token) w ≡ (ok old, at_consume)
    pub issued : IssuedPair old.user_id old.user_external_id at_consume w' pair

  module _ (tr : Transactor W) (atomic : IsAtomic tr) where
    -- A token pair for a magic link comes from a valid token whose link this call consumed, after which
    -- it marked the address as verified and issued the pair to the user of the link, all in one
    -- transaction: the access token is signed for that user, and the refresh token is stored for them.
    pub sign_ins_consume :
        (token : String) (w w' : W) (pair : AuthTokenPair)
        → verify_magic_link c tr token w ≡ (ok pair, w')
        → (validate_token token ≡ none) × SignIn tr token w w' pair
    unfolding verify_magic_link verify_body
    sign_ins_consume token w w' pair h =
        let (v, h0) = check_valid-ok _ _ w h in
        let (link, w1, e1, h1) = step-ok _ _ _ w h0 in
        let body = atomic.returns AuthTokenPair _ w1 w' pair (on_error-ok _ _ w1 h1) in
        let (_, w2, e2, h2) = step-ok _ _ _ w1 body in
        let (_, w3, e3, h3) = step-ok _ _ _ w2 h2 in
        (
          v,
          record {
            link = link;
            at_link = w1;
            at_consume = w2;
            at_verify = w3;
            found = e1;
            ran = on_error-ok _ _ w1 h1;
            consumed = e2;
            verified = e3;
            issued = issue-ok link.user_id link.user_external_id w3 w' pair (on_error-ok _ _ w3 h3);
          },
        )

    -- A token pair that replaces a refresh token goes to the user of the token that this call consumed
    -- in the same transaction: the access token is signed for that user, and the new refresh token is
    -- stored for them.
    pub rotations_consume :
        (token : String) (w w' : W) (pair : AuthTokenPair)
        → refresh_access_token c tr token w ≡ (ok pair, w')
        → (validate_token token ≡ none) × Rotation tr token w w' pair
    unfolding refresh_access_token refresh_body
    rotations_consume token w w' pair h =
        let (v, h0) = check_valid-ok _ _ w h in
        let body = atomic.returns AuthTokenPair _ w w' pair (on_error-ok _ _ w h0) in
        let (old, w1, e1, h1) = step-ok _ _ _ w body in
        (
          v,
          record {
            old = old;
            at_consume = w1;
            ran = on_error-ok _ _ w h0;
            consumed = e1;
            issued = issue-ok old.user_id old.user_external_id w1 w' pair (on_error-ok _ _ w1 h1);
          },
        )
