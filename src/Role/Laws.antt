-- ===== src/Role/Laws.antt =====
-- When the requests are valid.
use theapp.Prelude.{
  inl, inr, String, ◌≢◌, nat_beq_iff, ◌&&◌, ◌≡◌, refl, ◌↔◌, true, false, Option, none, some, List,
  [], ◌∷◌, ◌++◌, ◌==◌, string_comparable, eq_iff, contains, contains-head, contains-tail,
  Bool-cases, arith, length,
}
use theapp.Set.{Set, from_slice, intersection, len, has}
use theapp.Set.Laws.{has-intersection, has-from_slice}
use theapp.Errors.{Error}
use theapp.Permission.{Permission, system_only_permissions}
use theapp.Session.{nil_uuid}
use theapp.Text.{trim_space}
use theapp.Role.{
  validate_custom_role_perms, validate_role_name, CreateCustomRole, UpdateCustomRole,
  ModifyCustomRolePermissions, validate_create, validate_update, validate_modify, wrap_error,
  or_else,
}

-- No permission of the list is reserved for system roles.
pub record IsCustomOnly (ps : List Permission) : Type 0 where
  pub not_system :
      (p : Permission) → contains ps p ≡ true → contains system_only_permissions p ≡ false

perms_valid_sound :
    (ps : List Permission)
    → validate_custom_role_perms ps ≡ none
    → (p : Permission) → contains ps p ≡ true
    → contains system_only_permissions p ≡ false
unfolding validate_custom_role_perms contains
perms_valid_sound [] h p m = cc
perms_valid_sound (q ∷ ps) h p m = elim (Bool-cases (p == q)) [
  | inl same ↦ rw ((eq_iff p q).0 same) (ground arith)
  | inr other ↦ perms_valid_sound ps (ground arith) p (ground arith)
]

perms_valid_complete :
    (ps : List Permission) → IsCustomOnly ps → validate_custom_role_perms ps ≡ none
unfolding validate_custom_role_perms
perms_valid_complete [] k = refl
perms_valid_complete (q ∷ ps) k =
    let rest =
      perms_valid_complete ps
        (record { not_system = λ p m. k.not_system p (contains-tail q ps p m) }) in
    ground (arith, rest, k.not_system q (contains-head q ps))

pub perms_valid_iff :
    (ps : List Permission) → (validate_custom_role_perms ps ≡ none) ↔ IsCustomOnly ps
perms_valid_iff ps = (λ h. record { not_system = perms_valid_sound ps h }, perms_valid_complete ps)

or_else-none : (a b : Option Error) → (or_else a b ≡ none) ↔ ((a ≡ none) × (b ≡ none))
or_else-none none b = (λ h. (refl, h), λ h. h.1)
or_else-none (some e) b = (λ h. cc, λ h. cc)

wrap_error-none : (m : String) (o : Option Error) → (wrap_error m o ≡ none) ↔ (o ≡ none)
wrap_error-none m none = (λ h. h, λ h. h)
wrap_error-none m (some e) = (λ h. cc, λ h. cc)

-- A name with neither end blank, and not empty.
abbrev pub IsName : String → Type 0
IsName name = (trim_space name ≡ name) × (name ≢ "")

validate_role_name_iff : (name : String) → (validate_role_name name ≡ none) ↔ IsName name
unfolding validate_role_name
validate_role_name_iff name = (
  λ h. ground (arith, eq_iff (trim_space name) "", eq_iff (trim_space name) name),
  λ h. ground (arith, eq_iff (trim_space name) "", eq_iff (trim_space name) name),
)

-- A request to create a role is valid exactly when its name is a name and none of its permissions
-- is reserved for system roles.
pub validate_create_iff :
    (cr : CreateCustomRole)
    → (validate_create cr ≡ none) ↔ (IsName cr.name × IsCustomOnly cr.permissions)
unfolding validate_create
validate_create_iff cr =
    let split =
      or_else-none (validate_role_name cr.name)
        (wrap_error "validate permissions" (validate_custom_role_perms cr.permissions)) in
    let wraps =
      wrap_error-none "validate permissions" (validate_custom_role_perms cr.permissions) in
    (
      λ h. (
        (validate_role_name_iff cr.name).0 (split.0 h).0,
        (perms_valid_iff cr.permissions).0 (wraps.0 (split.0 h).1),
      ),
      λ h. split.1 (
        (validate_role_name_iff cr.name).1 h.0,
        wraps.1 ((perms_valid_iff cr.permissions).1 h.1),
      ),
    )

name_part :
    (ur : UpdateCustomRole)
    → ur.fields.name ≡ true
    → validate_update ur ≡ none
    → validate_role_name ur.name ≡ none
unfolding validate_update
name_part ur f h = ground arith

permissions_part :
    (ur : UpdateCustomRole)
    → ur.fields.permissions ≡ true
    → validate_update ur ≡ none
    → validate_custom_role_perms ur.permissions ≡ none
unfolding validate_update
permissions_part ur f h = ground arith

-- A request to update a role is valid exactly when its ETag is not nil and each selected field is
-- valid; the fields that are not selected do not matter.
pub validate_update_iff :
    (ur : UpdateCustomRole)
    → (validate_update ur ≡ none) ↔ (
        (ur.etag ≢ nil_uuid)
        × (ur.fields.name ≡ true → IsName ur.name)
        × (ur.fields.permissions ≡ true → IsCustomOnly ur.permissions))
unfolding validate_update
validate_update_iff ur = (
  λ h. (
    λ e. ground (arith, nat_beq_iff ur.etag nil_uuid),
    λ f. (validate_role_name_iff ur.name).0 (name_part ur f h),
    λ f. (perms_valid_iff ur.permissions).0 (permissions_part ur f h),
  ),
  λ (live, name_ok, perms_ok). elim (Bool-cases ur.fields.name) [
    | inl n ↦ elim (Bool-cases ur.fields.permissions) [
      | inl p ↦ ground (
        arith,
        nat_beq_iff ur.etag nil_uuid,
        live,
        (validate_role_name_iff ur.name).1 (name_ok n),
        (perms_valid_iff ur.permissions).1 (perms_ok p),
      )
      | inr p ↦ ground (
        arith,
        nat_beq_iff ur.etag nil_uuid,
        live,
        (validate_role_name_iff ur.name).1 (name_ok n),
      )
    ]
    | inr n ↦ elim (Bool-cases ur.fields.permissions) [
      | inl p ↦ ground (
        arith,
        nat_beq_iff ur.etag nil_uuid,
        live,
        (perms_valid_iff ur.permissions).1 (perms_ok p),
      )
      | inr p ↦ ground (arith, nat_beq_iff ur.etag nil_uuid, live)
    ]
  ],
)

-- No permission stands in both lists.
pub record AreDisjoint (ps qs : List Permission) : Type 0 where
  pub apart : (p : Permission) → contains ps p ≡ true → contains qs p ≡ false

empty_of_none : (xs : List Permission) → ((p : Permission) → contains xs p ≡ false) → length xs ≡ 0
empty_of_none [] h = refl
empty_of_none (x ∷ xs) h = cc (h x, contains-head x xs)

none_of_empty : (xs : List Permission) → length xs ≡ 0 → (p : Permission) → contains xs p ≡ false
unfolding contains
none_of_empty [] h p = refl
none_of_empty (x ∷ xs) h p = absurd (omega arith)

len-eq-zero_iff : (s : Set Permission) → (len s ≡ 0) ↔ ((p : Permission) → has s p ≡ false)
unfolding len has
len-eq-zero_iff s = (none_of_empty s.entries, empty_of_none s.entries)

-- The overlap of the two lists of a request.
abbrev overlap : ModifyCustomRolePermissions → Set Permission
overlap mrp = intersection (from_slice mrp.add_permissions) (from_slice mrp.remove_permissions)

has-overlap :
    (mrp : ModifyCustomRolePermissions) (p : Permission)
    → has (overlap mrp) p ≡ (contains mrp.add_permissions p && contains mrp.remove_permissions p)
has-overlap mrp p = ground (
  arith,
  has-intersection (from_slice mrp.add_permissions) (from_slice mrp.remove_permissions) p,
  has-from_slice mrp.add_permissions p,
  has-from_slice mrp.remove_permissions p,
)

overlap_empty_iff :
    (mrp : ModifyCustomRolePermissions)
    → (len (overlap mrp) ≡ 0) ↔ AreDisjoint mrp.add_permissions mrp.remove_permissions
overlap_empty_iff mrp = (
  λ h. record {
    apart = λ p m. ground (arith, has-overlap mrp p, (len-eq-zero_iff (overlap mrp)).0 h p);
  },
  λ k. (len-eq-zero_iff (overlap mrp)).1 (λ p. ground (arith, has-overlap mrp p, k.apart p)),
)

modify_parts :
    (mrp : ModifyCustomRolePermissions)
    → validate_modify mrp ≡ none
    → (mrp.etag ≢ nil_uuid)
      × (len (overlap mrp) ≡ 0)
      × (validate_custom_role_perms (mrp.add_permissions ++ mrp.remove_permissions) ≡ none)
unfolding validate_modify
modify_parts mrp h = (λ e. ground arith, ground arith, ground arith)

modify_of_parts :
    (mrp : ModifyCustomRolePermissions)
    → mrp.etag ≢ nil_uuid
    → len (overlap mrp) ≡ 0
    → validate_custom_role_perms (mrp.add_permissions ++ mrp.remove_permissions) ≡ none
    → validate_modify mrp ≡ none
unfolding validate_modify
modify_of_parts mrp live empty perms = ground arith

-- A request to modify a role's permissions is valid exactly when its ETag is not nil, no permission
-- is both added and removed, and none is reserved for system roles.
pub validate_modify_iff :
    (mrp : ModifyCustomRolePermissions)
    → (validate_modify mrp ≡ none) ↔ (
        (mrp.etag ≢ nil_uuid)
        × AreDisjoint mrp.add_permissions mrp.remove_permissions
        × IsCustomOnly (mrp.add_permissions ++ mrp.remove_permissions))
validate_modify_iff mrp = (
  λ h.
      let (live, empty, perms) = modify_parts mrp h in
      (live, (overlap_empty_iff mrp).0 empty, (perms_valid_iff _).0 perms),
  λ (live, apart, perms).
      modify_of_parts mrp live ((overlap_empty_iff mrp).1 apart) ((perms_valid_iff _).1 perms),
)
