-- ===== src/Org/Examples.antt =====
-- A caller who creates an organization, on a database that counts what was stored.
use theapp.Prelude.{ℕ, suc, ◌≡◌, refl, none, some, [], false, true}
use theapp.Errors.{ok, err, sentinel, no_rows}
use theapp.Action.{◌>>=◌, ◌on_error◌, pure, fail}
use theapp.Session.{AuthSession}
use theapp.Pgorg
use theapp.Pguser
use theapp.Pgrbac
use theapp.Snapshots.{snapshots, snapshots-IsAtomic}
use theapp.Org.Conv.{
  Organization, CreateOrganization, validate_create_organization, organization_from_pg,
}
use theapp.Org.{OrgCore, enroll, found_body, create_organization_for, create_organization}
use theapp.Rbac.Grants.Request.{Selected}
use theapp.Org.Conv.{User, validate_create_organization_user, user_from_pg}
use theapp.Org.{join_body, create_organization_user}
use theapp.Org.Members.{Joined, members_join_by_given_address}
use theapp.Org.Founded.{Founded, founders_administrate}

abbrev row : Pgorg.Organization
row = record { id = 8; name = "acme"; control_project_id = 1; created_at = 5; updated_at = none }

abbrev project_row : Pgorg.Project
project_row = record {
  id = 2;
  org_id = 8;
  name = "app";
  is_control = false;
  created_at = 5;
  updated_at = none;
  etag = 9;
}

abbrev ann : Pguser.User
ann = record {
  id = 2;
  external_id = 5;
  email = "ann@example.com";
  name = "Ann";
  email_verified_at = none;
  created_at = 1;
  updated_at = none;
  etag = 50;
}

abbrev admin : Pgrbac.CustomRole
admin = record {
  id = 1;
  external_id = 7;
  name = "Administrator";
  managed_key = some "organization_admin";
  permission_names = [];
  created_at = 5;
  updated_at = none;
  etag = 70;
}

abbrev core : OrgCore ℕ
core = record {
  org_storer = record {
    create_organization = λ co w. (ok row, suc w);
    create_project = λ cp w. (ok project_row, suc w);
    add_organization_member = λ id org_id w. (ok tt, suc w);
    ensure_organization_member = λ id org_id w. (ok tt, w);
    organization_users = λ org_id filter size offset w. (ok ([], 0), w);
    organization_by_name = λ name w. (err (sentinel no_rows), w);
    project_by_name = λ org_id name w. (err (sentinel no_rows), w);
    accessible_projects = λ id filter size offset w. (ok ([], 0), w);
  };
  org_user_store = record { get_or_create_user_by_email = λ email w. (ok ann, w) };
  role_bootstrapper_store = record {
    create_organization_admin_role = λ org_id names w. (ok admin, suc w);
    assign_custom_role_to_org = λ user_id role_id org_id w. (ok tt, suc w);
  };
  transactor = snapshots;
  parse_address = λ s. some s;
}

abbrev session : AuthSession
session = record {
  user = record { user_id = 5; email = "ann@example.com"; permissions = [] };
  project = none;
}

abbrev request : CreateOrganization
request = record { name = "acme"; project_name = "app" }

abbrev acme : Organization
acme = record { id = 8; name = "acme"; control_project_id = 1; created_at = 5; updated_at = none }

founded_run : create_organization core (some session) request 0 ≡ (ok acme, 5)
unfolding create_organization create_organization_for found_body enroll validate_create_organization
    organization_from_pg ◌>>=◌ ◌on_error◌ pure fail
founded_run = refl

founders_administrate_example :
    (sess : AuthSession) × (r : Pgorg.Organization) × (some session ≡ some sess)
    × (validate_create_organization request ≡ none)
    × (organization_from_pg r ≡ acme)
    × (snapshots.run_tx Pgorg.Organization (found_body core request (some sess.user.user_id)) 0
        ≡ (ok r, 5))
    × Founded core request sess.user.user_id 0 5 r
founders_administrate_example =
    founders_administrate core snapshots-IsAtomic (some session) request 0 5 acme founded_run

abbrev member_session : AuthSession
member_session = record {
  user = record { user_id = 5; email = "ann@example.com"; permissions = [] };
  project =
      some
        (record { id = 2; org_id = 8; org_name = "acme"; is_control = true; is_org_member = true });
}

abbrev joined : User
joined = record {
  id = 5;
  email = "ann@example.com";
  name = "Ann";
  email_verified_at = none;
  created_at = 1;
  updated_at = none;
  etag = 50;
}

join_run : create_organization_user core (some member_session) "Ann@example.com" 0 ≡ (ok joined, 0)
unfolding create_organization_user join_body validate_create_organization_user user_from_pg ◌>>=◌
    ◌on_error◌ pure fail
join_run = refl

members_join_by_given_address_example :
    (s : Selected (some member_session)) × (r : Pguser.User) × (validate_create_organization_user
        core.parse_address "Ann@example.com"
      ≡ none)
    × (snapshots.run_tx Pguser.User (join_body core s.selected.org_id "Ann@example.com") 0
        ≡ (ok r, 0))
    × Joined core s.selected.org_id "Ann@example.com" 0 0 r
    × (user_from_pg r ≡ joined)
members_join_by_given_address_example =
    members_join_by_given_address core snapshots-IsAtomic (some member_session) "Ann@example.com" 0
      0 joined join_run
