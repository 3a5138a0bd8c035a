-- ===== src/Auth/Storer.antt =====
-- backend/internal/core/auth/auth.go: the interfaces of the stores, the configuration, and what the
-- core uses of the libraries.
use theapp.Prelude.{ℕ, String, Option, List}
use theapp.Action.{Action}
use theapp.Session.{Uuid, Time}
use theapp.Pgauth
use theapp.Pgrbac
use theapp.Pguser

pub record AuthStorer (W : Type 0) : Type 0 where
  pub auth_session_data : Uuid → Option ℕ → Action W Pgauth.AuthSessionData
  pub latest_magic_link_token_created_at : ℕ → Action W Time
  pub invalidate_user_magic_link_tokens : ℕ → Action W Unit
  pub create_magic_link_token : Pgauth.CreateMagicLinkToken → Action W Pgauth.MagicLinkToken
  pub magic_link_token_by_hash : String → Action W Pgauth.MagicLinkToken
  pub consume_magic_link_token : ℕ → Action W Unit
  pub lock_user : ℕ → Action W Unit
  pub create_refresh_token : Pgauth.CreateRefreshToken → Action W Pgauth.RefreshToken
  pub consume_refresh_token : String → Action W Pgauth.RefreshToken
  pub revoke_all_user_refresh_tokens : Uuid → Action W Unit

pub record UserStorer (W : Type 0) : Type 0 where
  pub user_by_email : String → Action W Pguser.User
  pub mark_email_verified : Uuid → Action W Unit

pub record PermissionStorer (W : Type 0) : Type 0 where
  pub permissions_by_scope : Uuid → ℕ → Action W Pgrbac.PermissionsByScope
  pub system_permissions : Uuid → Action W (List String)
  pub project_permissions : Uuid → ℕ → Action W Pgrbac.ProjectPermissions
  pub org_permissions_by_project_id : Uuid → ℕ → Action W Pgrbac.OrgPermissions

pub record Config : Type 0 where
  pub jwt_key : String
  pub jwt_issuer : String
  pub jwt_audience : String
  pub magic_link_ttl : Time
  pub magic_link_rate_limit : Time
  pub access_token_ttl : Time
  pub refresh_token_ttl : Time

-- mdl.AuthClaims with the registered claims that the core sets; the subject is the user's id too.
pub record AuthClaims : Type 0 where
  pub user_id : Uuid
  pub issuer : String
  pub audience : String
  pub issued_at : Time
  pub expires_at : Time

-- The libraries. `now` is time.Now, `read_random` is io.ReadFull on rand.Reader and reads as many bytes
-- as it is asked for, `encode_raw_url` is base64.RawURLEncoding, `sha256_hex` is the hex digest of
-- crypto/sha256, `sign_hs256` is github.com/golang-jwt/jwt, `to_lower` is strings.ToLower with
-- Unicode's tables, and `parse_address` is net/mail, which gives the address or an error.
pub record Libraries (W : Type 0) : Type 0 where
  pub now : Action W Time
  pub read_random : ℕ → Action W (List ℕ)
  pub encode_raw_url : List ℕ → String
  pub sha256_hex : String → String
  pub sign_hs256 : AuthClaims → String → Action W String
  pub to_lower : String → String
  pub parse_address : String → Option String

pub record Core (W : Type 0) : Type 0 where
  pub auth_storer : AuthStorer W
  pub user_storer : UserStorer W
  pub permission_storer : PermissionStorer W
  pub cfg : Config
  pub lib : Libraries W
