-- ===== src/Users/Examples.antt =====
-- A user, created with an address in capitals and blanks, in a database that holds the last address.
use theapp.Prelude.{String, ◌==◌, string_comparable, if◌then◌else◌, ◌≡◌, refl, none, some, []}
use theapp.Errors.{ok, err, sentinel, no_rows}
use theapp.Action.{◌>>=◌, ◌on_error◌, pure, fail}
use theapp.Text.{trim_space, trim_left, trim_right, is_space}
use theapp.Pguser
use theapp.Org.Conv.{User, user_from_pg}
use theapp.Users.{
  UserCore, CreateUser, validate_create_user, create_user_to_pg, normal_address, create_user,
  user_by_email,
}
use theapp.Users.Normal.{created_users_are_found}

abbrev row : String → Pguser.User
row address = record {
  id = 2;
  external_id = 5;
  email = address;
  name = "Ann";
  email_verified_at = none;
  created_at = 1;
  updated_at = none;
  etag = 50;
}

abbrev core : UserCore String
core = record {
  user_storer = record {
    user_by_external_id = λ id w. (ok (row w), w);
    user_by_email = λ address w. (ok (row address), w);
    users = λ filter order size offset w. (ok ([], 0), w);
    create_user = λ cu w. (ok (row cu.email), cu.email);
    update_user = λ uu w. (err (sentinel no_rows), w);
  };
  to_lower = λ s. if s == "Ann@example.com" then "ann@example.com" else s;
  parse_address = λ s. some s;
}

abbrev request : CreateUser
request = record { email = " Ann@example.com "; name = "Ann" }

abbrev ann : User
ann = record {
  id = 5;
  email = "ann@example.com";
  name = "Ann";
  email_verified_at = none;
  created_at = 1;
  updated_at = none;
  etag = 50;
}

created_run : create_user core request "" ≡ (ok ann, "ann@example.com")
unfolding create_user normal_address validate_create_user create_user_to_pg user_from_pg trim_space
    trim_left trim_right is_space ◌>>=◌ ◌on_error◌ pure fail
created_run = refl

found_run : user_by_email core " Ann@example.com " "" ≡ (ok ann, "")
unfolding user_by_email normal_address user_from_pg trim_space trim_left trim_right is_space ◌>>=◌
    ◌on_error◌ pure
found_run = refl

created_users_are_found_example :
    (r s : Pguser.User) × (validate_create_user core.parse_address
        (record { email = core.to_lower (trim_space " Ann@example.com "); name = "Ann" })
      ≡ none)
    × (core.user_storer.create_user
          (record { email = core.to_lower (trim_space " Ann@example.com "); name = "Ann" })
          ""
        ≡ (ok r, "ann@example.com"))
    × (user_from_pg r ≡ ann)
    × (core.user_storer.user_by_email (core.to_lower (trim_space " Ann@example.com ")) ""
        ≡ (ok s, ""))
    × (user_from_pg s ≡ ann)
created_users_are_found_example =
    created_users_are_found core request "" "ann@example.com" "" "" ann ann created_run found_run
