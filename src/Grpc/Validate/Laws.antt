-- ===== src/Grpc/Validate/Laws.antt =====
-- The tests of a request and those of the model agree on roles.
use theapp.Prelude.{
  ℕ, suc, ◌≡◌, refl, sym, ap, ◌∙◌, ◌↔◌, inl, inr, String, false, Option, none, some, List, [], ◌∷◌,
  ◌++◌, string_comparable, nat_comparable, contains, arith, Bool-cases,
}
use theapp.Permission.{Permission, system_only_permissions}
use theapp.Role
use theapp.Role.{
  or_else, wrap_error, validate_custom_role_perms, validate_role_name, validate_create,
}
use theapp.Errors.{Error}
use theapp.Grpc.{RoleInput}
use theapp.Grpc.Permissions.{permission_from_pb, permissions_from_pb, cons_both}
use theapp.Grpc.RoleConv.{create_custom_role_from_pb}
use theapp.Grpc.Validate
use theapp.Grpc.Validate.{
  Violation, permission_violations, permission_violation, name_violations, role_violations,
  unless_empty,
}

-- Permissions that may stand in a request: each is known, and none is reserved for system roles.
abbrev pub Allowed : List ℕ → Type 0
Allowed numbers =
    (ps : List Permission) × (permissions_from_pb numbers ≡ some ps)
    × (validate_custom_role_perms ps ≡ none)

one_allowed :
    (field : String) (i : ℕ) (o : Option Permission) (rest : List Violation)
    → permission_violation field i o ++ rest ≡ []
    → (p : Permission) × (o ≡ some p) × (contains system_only_permissions p ≡ false) × (rest ≡ [])
one_allowed field i none rest h = ground arith
one_allowed field i (some p) rest h = elim (Bool-cases (contains system_only_permissions p)) [
  | inl reserved ↦ ground arith
  | inr free ↦ (p, refl, free, ground arith)
]

pub permission_violations_none :
    (field : String) (i : ℕ) (numbers : List ℕ)
    → permission_violations field i numbers ≡ []
    → Allowed numbers
unfolding permission_violations permissions_from_pb validate_custom_role_perms
permission_violations_none field i [] h = ([], refl, refl)
permission_violations_none field i (n ∷ ns) h =
    let (p, known, free, rest) =
      one_allowed field i (permission_from_pb n) (permission_violations field (suc i) ns) h in
    let (ps, e, valid) = permission_violations_none field (suc i) ns rest in
    (p ∷ ps, cc (known, e), ground arith)

pub cons_both-some :
    {A : Type 0} (o : Option A) (r : Option (List A)) (xs : List A)
    → cons_both o r ≡ some xs
    → (a : A) × (rest : List A) × (o ≡ some a) × (r ≡ some rest) × (xs ≡ a ∷ rest)
cons_both-some none r xs h = ground arith
cons_both-some (some a) none xs h = ground arith
cons_both-some (some a) (some rest) xs h = (a, rest, refl, refl, ground arith)

valid_cons :
    (p : Permission) (ps : List Permission)
    → validate_custom_role_perms (p ∷ ps) ≡ none
    → (contains system_only_permissions p ≡ false) × (validate_custom_role_perms ps ≡ none)
unfolding validate_custom_role_perms
valid_cons p ps h = elim (Bool-cases (contains system_only_permissions p)) [
  | inl reserved ↦ ground arith
  | inr free ↦ (free, ground arith)
]

allowed_one :
    (field : String) (i : ℕ) (o : Option Permission) (p : Permission) (rest : List Violation)
    → o ≡ some p
    → contains system_only_permissions p ≡ false
    → rest ≡ []
    → permission_violation field i o ++ rest ≡ []
allowed_one field i none p rest e free h = ground arith
allowed_one field i (some q) p rest e free h = ground arith

pub permission_violations-Allowed :
    (field : String) (i : ℕ) (numbers : List ℕ)
    → Allowed numbers
    → permission_violations field i numbers ≡ []
unfolding permission_violations permissions_from_pb
permission_violations-Allowed field i [] h = refl
permission_violations-Allowed field i (n ∷ ns) (ps, e, valid) =
    let (p, qs, known, others, split) =
      cons_both-some (permission_from_pb n) (permissions_from_pb ns) ps e in
    let (free, more) = valid_cons p qs (ap validate_custom_role_perms (sym split) ∙ valid) in
    allowed_one field i (permission_from_pb n) p (permission_violations field (suc i) ns) known free
      (permission_violations-Allowed field (suc i) ns (qs, others, more))

name_violations_iff :
    (name : String) → (name_violations name ≡ []) ↔ (validate_role_name name ≡ none)
unfolding name_violations validate_role_name
name_violations_iff name = (λ h. ground arith, λ h. ground arith)

pub both_empty : (xs ys : List Violation) → xs ++ ys ≡ [] → (xs ≡ []) × (ys ≡ [])
both_empty [] ys h = (refl, h)
both_empty (x ∷ xs) ys h = ground arith

pub unless_empty-none : (vs : List Violation) → unless_empty vs ≡ none → vs ≡ []
unless_empty-none [] h = refl
unless_empty-none (_ ∷ _) h = ground arith

or_else-none : (a b : Option Error) → (or_else a b ≡ none) ↔ ((a ≡ none) × (b ≡ none))
or_else-none none b = (λ h. (refl, h), λ h. h.1)
or_else-none (some e) b = (λ h. ground arith, λ h. ground arith)

wrap_error-none : (m : String) (o : Option Error) → (wrap_error m o ≡ none) ↔ (o ≡ none)
wrap_error-none m none = (λ h. h, λ h. h)
wrap_error-none m (some e) = (λ h. ground arith, λ h. ground arith)

converted :
    (role : RoleInput) (o : Option (List Permission)) {cr : Role.CreateCustomRole}
    → elim o [ none ↦ none | some ps ↦ some (record { name = role.name; permissions = ps }) ]
      ≡ some cr
    → (ps : List Permission) × (o ≡ some ps) × (record { name = role.name; permissions = ps } ≡ cr)
converted role none h = ground arith
converted role (some ps) h = (ps, refl, ground arith)

-- A request to create a role passes the tests of the service exactly when it can be converted and the
-- role that it is converted to passes the tests of the model: what the service accepts, the model
-- never refuses as invalid, and the other way around.
pub create_requests_agree :
    (role : RoleInput)
    → (Validate.create_role (some (record { role = some role })) ≡ none) ↔ (
        (cr : Role.CreateCustomRole) × (create_custom_role_from_pb role ≡ some cr)
        × (validate_create cr ≡ none))
unfolding Validate.create_role role_violations create_custom_role_from_pb validate_create
create_requests_agree role =
    let names = name_violations_iff role.name in
    (
      λ h.
          let (named, listed) = both_empty _ _ (unless_empty-none _ h) in
          let (ps, e, valid) =
            permission_violations_none "role.permissions" 0 role.permissions listed in
          (
            record { name = role.name; permissions = ps },
            cc e,
            (or_else-none _ _).1 (names.0 named, (wrap_error-none _ _).1 valid),
          ),
      λ (cr, e, valid).
          let (ps, known, same) = converted role (permissions_from_pb role.permissions) e in
          let (named, listed) = (or_else-none _ _).0 (ap validate_create same ∙ valid) in
          let free = (wrap_error-none "validate permissions" _).0 listed in
          ap unless_empty (
            ap (λ vs. vs ++ permission_violations "role.permissions" 0 role.permissions)
              (names.1 named)
            ∙ permission_violations-Allowed "role.permissions" 0 role.permissions
                (ps, known, free)),
    )
