-- ===== src/Grpc/RolePages/Examples.antt =====
-- Page tokens of a small alphabet, and the theorems of pages on them.
use Prim.Native.Char.{Char, code}
use Prim.Native.String.{[], ◌∷◌}
use theapp.Prelude.{
  map, ℕ, zero, suc, ◌+◌, ◌≡◌, ◌⊎◌, inl, inr, refl, sym, ap, ◌∙◌, String, Bool, false, true, Option,
  none, some, List, ◌==◌, string_comparable, arith, if◌then◌else◌, nat_beq, contains, Bool-cases,
  eq_iff,
}
use theapp.Grpc.PageToken.{PageTokenEncoded, PageToken, Wire, encode_page_token, decode_page_token}
use theapp.Permission.{
  Permission, minimum_assignment_scope, permission_assignment_scope, system_only_permissions,
}
use theapp.Role
use theapp.Role.{custom, role_minimum_assignment_scope}
use theapp.Session.{AuthSession, AuthProject}
use theapp.Snapshots.{snapshots}
use theapp.Pgrbac.Db.{Db, CustomRoleRow, where'}
use theapp.Pgrbac.Roles.{custom_role_row}
use theapp.Pgrbac.Queries.{by_name_alone}
use theapp.Pgrbac.Schema.{custom_role_permission_names}
use theapp.Pgrbac.Schema.Laws.{IsOrdering}
use theapp.Pgrbac.Examples.{postgres, sample}
use theapp.Rbac.Conv.{custom_roles_from_pg}
use theapp.Rbac.Database.{database_store}
use theapp.Grpc.RolePages.Followed.{follow}
use theapp.Grpc.RolePages.Stored.{rbac_core, stored_roles, every_role_is_listed}
use theapp.Grpc.{RoleOutput, Uuids}
use theapp.Grpc.Permissions.{permission_to_pb, permissions_to_pb}
use theapp.Grpc.RoleConv.{custom_role_to_pb}
use theapp.Grpc.RolePages.{custom_roles_to_pb}
use theapp.Grpc.PageToken.Laws.{IsWire, page_token_roundtrip}

abbrev ones : ℕ → String → String
ones zero s = "B" ∷ s
ones (suc n) s = "A" ∷ ones n s

abbrev unary : List ℕ → String
unary List.[] = ""
unary (List.◌∷◌ n ns) = ones n (unary ns)

abbrev cons_some : ℕ → Option (List ℕ) → Option (List ℕ)
cons_some n none = none
cons_some n (some ns) = some (List.◌∷◌ n ns)

abbrev count : ℕ → String → Option (List ℕ)
count n [] = some List.[]
count n (c ∷ s) =
    let next = count (suc n) s in
    let fresh = count zero s in if nat_beq (code c) 65 then next else cons_some n fresh

count-ones : (n k : ℕ) (s : String) → count k (ones n s) ≡ cons_some (n + k) (count 0 s)
count-ones zero k s = ap (λ m. cons_some m (count 0 s)) (omega arith)
count-ones (suc n) k s = count-ones n (suc k) s ∙ ap (λ m. cons_some m (count 0 s)) (omega arith)

count-unary : (ns : List ℕ) → count 0 (unary ns) ≡ some ns
count-unary List.[] = refl
count-unary (List.◌∷◌ n ns) =
    count-ones n 0 (unary ns)
    ∙ ap (λ m. cons_some m (count 0 (unary ns))) (omega arith)
    ∙ ap (cons_some n) (count-unary ns)

abbrev is_empty : String → Bool
is_empty [] = true
is_empty (c ∷ s) = false

not_empty : (c : Char) (s : String) → ((c ∷ s) == "") ≡ false
not_empty c s = elim (Bool-cases ((c ∷ s) == "")) [
  | inl same ↦ let empty = ap is_empty ((eq_iff (c ∷ s) "").0 same) in ground arith
  | inr other ↦ other
]

live : (n : ℕ) (s : String) → (ones n s == "") ≡ false
live zero s = not_empty "B" s
live (suc n) s = not_empty "A" (ones n s)

abbrev read : List ℕ → Option PageTokenEncoded
read List.[] = none
read (List.◌∷◌ n ns) = some (record { offset = n; order_by = ""; filter = ns })

abbrev wire : Wire Unit
wire = record {
  marshal = λ f. some List.[];
  unmarshal = λ bytes. some tt;
  marshal_json = λ enc. some (List.◌∷◌ enc.offset enc.filter);
  unmarshal_json = read;
  encode_base64 = unary;
  decode_base64 = count 0;
}

lawful : IsWire wire ""
lawful = record {
  filter_returns = λ f. (List.[], refl, refl);
  json_returns = λ enc plain. (
    enc.offset,
    enc.filter,
    refl,
    ap (λ o. some (record { offset = enc.offset; order_by = o; filter = enc.filter })) (sym plain),
  );
  base64_returns = λ b bytes. (count-unary (List.◌∷◌ b bytes), live b (unary bytes));
}

page_token_roundtrip_example :
    (token : String) × (pt : PageToken Unit) × (encode_page_token wire 3 "" tt ≡ some token)
    × ((token == "") ≡ false)
    × (decode_page_token wire token ≡ some pt)
    × (pt.offset ≡ 3)
    × (pt.order_by ≡ "")
    × ((pt.filter ≡ some tt) ⊎ ((pt.filter ≡ none) × (wire.marshal tt ≡ some List.[])))
page_token_roundtrip_example = page_token_roundtrip wire 3 "" tt lawful

abbrev role : ℕ → ℕ → String → CustomRoleRow
role id external_id name = record {
  id = id;
  external_id = external_id;
  name = name;
  org_id = 1;
  managed_key = none;
  created_at = 60;
  updated_at = none;
  etag = 500;
}

-- Two roles, of which the first holds a permission.
abbrev tables : Db
tables = record sample {
  custom_roles = List.◌∷◌ (role 5 50 "editor") (List.◌∷◌ (role 6 60 "reader") List.[]);
}

abbrev shown : ℕ → String → List Permission → Role.CustomRole
shown id name permissions = record {
  id = id;
  name = name;
  permissions = permissions;
  kind = custom;
  created_at = 60;
  updated_at = none;
  etag = 500;
}

abbrev roles : List Role.CustomRole
roles =
    List.◌∷◌ (shown 50 "editor" (List.◌∷◌ "org:user-read" List.[]))
      (List.◌∷◌ (shown 60 "reader" List.[]) List.[])

abbrev uuids : Uuids
uuids = record { parse = λ s. none; text = λ n. "id" }

abbrev project : AuthProject
project = record { id = 3; org_id = 1; org_name = "acme"; is_control = false; is_org_member = true }

abbrev session : AuthSession
session = record {
  user = record { user_id = 11; email = "a@b.c"; permissions = List.[] };
  project = some project;
}

abbrev output : String → List ℕ → ℕ → RoleOutput
output name permissions scope = record {
  id = "id";
  name = name;
  permissions = permissions;
  kind = 1;
  minimum_assignment_scope = scope;
  create_time = 60;
  update_time = none;
  etag = "id";
}

abbrev outputs : List RoleOutput
outputs =
    List.◌∷◌ (output "editor" (List.◌∷◌ 21 List.[]) 2)
      (List.◌∷◌ (output "reader" List.[] 1) List.[])

roles_read :
    custom_roles_from_pg (map (custom_role_row postgres tables) (stored_roles postgres tables 1))
    ≡ some roles
unfolding custom_roles_from_pg by_name_alone where' custom_role_permission_names
roles_read = refl

roles_converted : custom_roles_to_pb uuids roles ≡ some outputs
unfolding custom_roles_to_pb custom_role_to_pb permissions_to_pb permission_to_pb
    role_minimum_assignment_scope minimum_assignment_scope permission_assignment_scope contains
    system_only_permissions
roles_converted = refl

ordering : IsOrdering postgres
ordering = record { keeps = λ A text number rows f. refl; counts = λ A text number rows. refl }

every_role_is_listed_example :
    follow uuids wire (rbac_core (database_store postgres) snapshots) (some session) 1 3 "" tables
    ≡ some outputs
every_role_is_listed_example =
    every_role_is_listed postgres tables uuids wire snapshots session project 1 roles outputs lawful
      ordering refl roles_read roles_converted (omega arith)
