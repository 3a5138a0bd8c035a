-- ===== src/Auth/Examples.antt =====
-- Sign-ins on a database that counts what was stored; its clock stands at 100.
use theapp.Prelude.{ℕ, suc, ◌≡◌, refl, none, some, [], ◌∷◌}
use theapp.Errors.{ok, err, sentinel, no_rows}
use theapp.Action.{◌>>=◌, ◌on_error◌, pure, fail}
use theapp.Pgauth
use theapp.Pguser
use theapp.Auth.Storer.{Core}
use theapp.Auth.{
  AuthTokenPair, validate_request, validate_token, optional, generate_token, issue_token_pair,
  is_rate_limited, check_rate_limit, magic_link_body, verify_body, refresh_body, magic_link_token,
  verify_magic_link, refresh_access_token,
}
use theapp.Auth.Issued.{SignIn, Rotation, sign_ins_consume, rotations_consume}
use theapp.Auth.Links.{IssuedLink, links_keep_their_distance}
use theapp.Snapshots.{snapshots, snapshots-IsAtomic}

abbrev ann : Pguser.User
ann = record {
  id = 2;
  external_id = 5;
  email = "ann@example.com";
  name = "Ann";
  email_verified_at = none;
  created_at = 1;
  updated_at = none;
  etag = 50;
}

abbrev link : Pgauth.MagicLinkToken
link = record { id = 4; user_id = 2; user_external_id = 5; expires_at = 200; created_at = 30 }

abbrev refresh_token : Pgauth.RefreshToken
refresh_token = record {
  id = 6;
  user_id = 2;
  user_external_id = 5;
  expires_at = 200;
  created_at = 30;
}

abbrev core : Core ℕ
core = record {
  auth_storer = record {
    auth_session_data = λ id project w. (err (sentinel no_rows), w);
    latest_magic_link_token_created_at = λ id w. (ok 30, w);
    invalidate_user_magic_link_tokens = λ id w. (ok tt, w);
    create_magic_link_token = λ cm w. (ok link, suc w);
    magic_link_token_by_hash = λ hash w. (ok link, w);
    consume_magic_link_token = λ id w. (ok tt, w);
    lock_user = λ id w. (ok tt, w);
    create_refresh_token = λ cr w. (ok refresh_token, suc w);
    consume_refresh_token = λ hash w. (ok refresh_token, w);
    revoke_all_user_refresh_tokens = λ id w. (ok tt, w);
  };
  user_storer = record {
    user_by_email = λ email w. (ok ann, w);
    mark_email_verified = λ id w. (ok tt, w);
  };
  permission_storer = record {
    permissions_by_scope = λ id project w. (err (sentinel no_rows), w);
    system_permissions = λ id w. (ok [], w);
    project_permissions = λ id project w. (err (sentinel no_rows), w);
    org_permissions_by_project_id = λ id project w. (err (sentinel no_rows), w);
  };
  cfg = record {
    jwt_key = "secret";
    jwt_issuer = "theapp";
    jwt_audience = "theapp-api";
    magic_link_ttl = 15;
    magic_link_rate_limit = 60;
    access_token_ttl = 10;
    refresh_token_ttl = 500;
  };
  lib = record {
    now = λ w. (ok 100, w);
    read_random = λ n w. (ok (1 ∷ []), w);
    encode_raw_url = λ b. "AQ";
    sha256_hex = λ s. "digest";
    sign_hs256 = λ claims key w. (ok "jwt", w);
    to_lower = λ s. s;
    parse_address = λ s. some s;
  };
}

abbrev pair : AuthTokenPair
pair = record { access_token = "jwt"; refresh_token = "AQ"; expires_in = 10 }

link_run : magic_link_token core snapshots "ann@example.com" 0 ≡ (ok "AQ", 1)
unfolding magic_link_token magic_link_body check_rate_limit is_rate_limited optional generate_token
    validate_request ◌>>=◌ ◌on_error◌ pure fail
link_run = refl

links_keep_their_distance_example :
    (validate_request core.lib "ann@example.com" ≡ none)
    × (user : Pguser.User) × (v : ℕ) × (core.user_storer.user_by_email
          (core.lib.to_lower "ann@example.com")
          0
        ≡ (ok user, v))
    × IssuedLink core user.id v 1 "AQ"
links_keep_their_distance_example =
    links_keep_their_distance core snapshots snapshots-IsAtomic "ann@example.com" 0 1 "AQ" link_run

verify_run : verify_magic_link core snapshots "AQ" 0 ≡ (ok pair, 1)
unfolding verify_magic_link verify_body issue_token_pair generate_token validate_token ◌>>=◌
    ◌on_error◌ pure fail
verify_run = refl

sign_ins_consume_example : (validate_token "AQ" ≡ none) × SignIn core snapshots "AQ" 0 1 pair
sign_ins_consume_example =
    sign_ins_consume core snapshots snapshots-IsAtomic "AQ" 0 1 pair verify_run

rotate_run : refresh_access_token core snapshots "AQ" 0 ≡ (ok pair, 1)
unfolding refresh_access_token refresh_body issue_token_pair generate_token validate_token ◌>>=◌
    ◌on_error◌ pure fail
rotate_run = refl

rotations_consume_example : (validate_token "AQ" ≡ none) × Rotation core snapshots "AQ" 0 1 pair
rotations_consume_example =
    rotations_consume core snapshots snapshots-IsAtomic "AQ" 0 1 pair rotate_run
