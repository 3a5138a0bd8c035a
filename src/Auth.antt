-- ===== src/Auth.antt =====
-- backend/internal/core/auth: sign-in by magic link, token pairs, and the sessions of requests.
pub mod Storer
pub mod Session
pub mod Issued
mod Examples
pub mod Links
use theapp.Prelude.{
  ℕ, ◌+◌, String, Bool, true, false, not, ◌&&◌, Option, none, some, List, [], ◌∷◌, ltb, ◌==◌,
  string_comparable, if◌then◌else◌,
}
use theapp.Errors.{
  Error, Outcome, ok, err, panics, is, sentinel, wrapped, message, validation_error, not_found,
  rate_limited, token_invalid, no_rows,
}
use theapp.Action.{Action, pure, fail, guard, done, check_valid, ◌>>=◌, ◌>>◌, ◌on_error◌}
use theapp.Session.{Uuid, Time}
use theapp.Pgauth
use theapp.Transactor.{Transactor}
use theapp.Auth.Storer.{AuthStorer, UserStorer, Config, Libraries, AuthClaims, Core}

-- mdl.AuthTokenPair
pub record AuthTokenPair : Type 0 where
  pub access_token : String
  pub refresh_token : String
  pub expires_in : Time

-- mdl.IsValidEmail: the parsed address is the text itself.
abbrev pub is_address_of : String → Option String → Bool
is_address_of addr none = false
is_address_of addr (some parsed) = parsed == addr

-- RequestMagicLink.Validate
unfoldable pub validate_request : {W : Type 0} → Libraries W → String → Option Error
validate_request lib email =
    if email == ""
    then some (validation_error "email required")
    else if not (is_address_of email (lib.parse_address email))
    then some (validation_error "email invalid")
    else none

-- VerifyMagicLink.Validate and RefreshToken.Validate
unfoldable pub validate_token : String → Option Error
validate_token token = if token == "" then some (validation_error "token required") else none

-- if errors.Is(err, sql.ErrNoRows) { return e }
-- return fmt.Errorf("m: %w", err)
abbrev pub no_rows_as : Error → String → Error → Error
no_rows_as s m e = if is e no_rows then s else wrapped m e

-- A read whose sql.ErrNoRows is no error; the others are wrapped.
abbrev pub some_row : {A : Type 0} → (Error → Error) → Outcome A → Outcome (Option A)
some_row f (ok a) = ok (some a)
some_row f (err e) = if is e no_rows then ok none else err (f e)
some_row f panics = panics

unfoldable pub optional : {W A : Type 0} → Action W A → (Error → Error) → Action W (Option A)
optional m f w = let (r, w') = m w in (some_row f r, w')

module _ {W : Type 0} (c : Core W) where
  -- generateToken
  unfoldable pub generate_token : Action W (String × String)
  generate_token = do
    b ← c.lib.read_random 32 on_error wrapped "read random bytes"
    pure (c.lib.encode_raw_url b, c.lib.sha256_hex (c.lib.encode_raw_url b))

  -- issueTokenPair
  unfoldable pub issue_token_pair : ℕ → Uuid → Action W AuthTokenPair
  issue_token_pair user_id user_external_id = do
    now ← c.lib.now
    access_token ←
        c.lib.sign_hs256
          (record {
            user_id = user_external_id;
            issuer = c.cfg.jwt_issuer;
            audience = c.cfg.jwt_audience;
            issued_at = now;
            expires_at = now + c.cfg.access_token_ttl;
          })
          c.cfg.jwt_key
        on_error wrapped "sign access token"
    (raw_refresh, refresh_hash) ← generate_token on_error wrapped "generate refresh token"
    c.auth_storer.create_refresh_token (record {
      user_id = user_id;
      token_hash = refresh_hash;
      expires_at = now + c.cfg.refresh_token_ttl;
    })
        on_error wrapped "store refresh token"
    pure (record {
      access_token = access_token;
      refresh_token = raw_refresh;
      expires_in = c.cfg.access_token_ttl;
    })

  -- err == nil && time.Since(lastSent) < c.cfg.MagicLinkRateLimit
  unfoldable pub is_rate_limited : Option Time → Time → Bool
  is_rate_limited none now = false
  is_rate_limited (some last_sent) now = ltb now (last_sent + c.cfg.magic_link_rate_limit)

  -- The test in front of a new link: whether one was sent too lately.
  unfoldable pub check_rate_limit : ℕ → Action W Bool
  check_rate_limit user_id = if not (ltb 0 c.cfg.magic_link_rate_limit) then pure false else do
    last_sent ←
        optional (c.auth_storer.latest_magic_link_token_created_at user_id)
          (wrapped "check magic link rate limit")
    now ← c.lib.now
    pure (is_rate_limited last_sent now)

  -- The transaction of MagicLinkToken; `none` is the flag rateLimited.
  unfoldable pub magic_link_body : ℕ → Action W (Option String)
  magic_link_body user_id = do
    c.auth_storer.lock_user user_id on_error wrapped "lock user"
    limited ← check_rate_limit user_id
    if limited then pure none else do
      c.auth_storer.invalidate_user_magic_link_tokens user_id
          on_error wrapped "invalidate existing magic link tokens"
      (tok, hash) ← generate_token on_error wrapped "generate magic link token"
      now ← c.lib.now
      c.auth_storer.create_magic_link_token (record {
        user_id = user_id;
        token_hash = hash;
        expires_at = now + c.cfg.magic_link_ttl;
      })
          on_error wrapped "store magic link token"
      pure (some tok)

  -- The transaction of VerifyMagicLink.
  unfoldable pub verify_body : Pgauth.MagicLinkToken → Action W AuthTokenPair
  verify_body tok = do
    c.auth_storer.consume_magic_link_token tok.id
        on_error no_rows_as (sentinel token_invalid) "consume magic link token"
    c.user_storer.mark_email_verified tok.user_external_id on_error wrapped "mark email verified"
    issue_token_pair tok.user_id tok.user_external_id on_error wrapped "issue token pair"

  -- The transaction of RefreshAccessToken.
  unfoldable pub refresh_body : String → Action W AuthTokenPair
  refresh_body hash = do
    refresh_tok ←
        c.auth_storer.consume_refresh_token hash
        on_error no_rows_as (sentinel token_invalid) "consume refresh token"
    issue_token_pair refresh_tok.user_id refresh_tok.user_external_id
        on_error wrapped "issue token pair"

  abbrev pub or_rate_limited : Option String → Action W String
  or_rate_limited none = fail (sentinel rate_limited)
  or_rate_limited (some raw_tok) = pure raw_tok

  module _ (tr : Transactor W) where
    -- MagicLinkToken
    unfoldable pub magic_link_token : String → Action W String
    magic_link_token email = do
      check_valid (validate_request c.lib email)
      user ←
          c.user_storer.user_by_email (c.lib.to_lower email)
          on_error no_rows_as (sentinel not_found) "user by email"
      raw_tok ← tr.run_tx (Option String) (magic_link_body user.id) on_error wrapped "run tx"
      or_rate_limited raw_tok

    -- VerifyMagicLink
    unfoldable pub verify_magic_link : String → Action W AuthTokenPair
    verify_magic_link token = do
      check_valid (validate_token token)
      tok ←
          c.auth_storer.magic_link_token_by_hash (c.lib.sha256_hex token)
          on_error no_rows_as (sentinel token_invalid) "look up magic link token"
      tr.run_tx AuthTokenPair (verify_body tok) on_error wrapped "run tx"

    -- RefreshAccessToken
    unfoldable pub refresh_access_token : String → Action W AuthTokenPair
    refresh_access_token token = do
      check_valid (validate_token token)
      tr.run_tx AuthTokenPair (refresh_body (c.lib.sha256_hex token)) on_error wrapped "run tx"

  -- RevokeRefreshToken
  unfoldable pub revoke_refresh_token : String → Action W Unit
  revoke_refresh_token token = do
    check_valid (validate_token token)
    c.auth_storer.consume_refresh_token (c.lib.sha256_hex token)
        on_error no_rows_as (sentinel token_invalid) "revoke refresh token"
    done

  -- RevokeAllUserRefreshTokens
  unfoldable pub revoke_all_user_refresh_tokens : Uuid → Action W Unit
  revoke_all_user_refresh_tokens user_external_id =
      c.auth_storer.revoke_all_user_refresh_tokens user_external_id
      on_error wrapped "revoke all user refresh tokens"
