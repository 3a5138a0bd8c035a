-- ===== src/Grpc/Validate/Modify.antt =====
-- The tests of a request that modifies permissions, and those of the model.
use mathlib.Core.Path.{subst}
use theapp.Prelude.{
  ℕ, suc, ◌≡◌, refl, sym, ap, ◌∙◌, ◌⊎◌, inl, inr, true, false, Option, none, some, List, [], ◌∷◌,
  ◌++◌, nat_comparable, string_comparable, nat_beq, nat_beq_iff, contains, contains-append,
  contains-head, contains-tail, arith, Bool-cases, eq_iff, ◌==◌,
}
use theapp.Permission.{Permission}
use theapp.Role
use theapp.Role.{validate_custom_role_perms, validate_modify}
use theapp.Role.Laws.{AreDisjoint, IsCustomOnly, validate_modify_iff, perms_valid_iff}
use theapp.Errors.{Error}
use theapp.Session.{Uuid, nil_uuid}
use theapp.Grpc.{ModifyRolePermissionsRequest, Uuids}
use theapp.Grpc.Permissions.{permission_from_pb, permissions_from_pb}
use theapp.Grpc.Permissions.Laws.{number_roundtrip}
use theapp.Grpc.RoleConv.{modify_custom_role_permissions_from_pb}
use theapp.Grpc.Validate
use theapp.Grpc.Validate.{
  Violation, overlap_violations, permission_violations, unless_empty, or_next, valid_uuid, when,
}
use theapp.Grpc.Validate.Laws.{
  permission_violations_none, cons_both-some, both_empty, unless_empty-none,
}

no_overlap :
    (removed : List ℕ) (i : ℕ) (added : List ℕ)
    → overlap_violations removed i added ≡ []
    → (n : ℕ) → contains added n ≡ true
    → contains removed n ≡ false
unfolding overlap_violations contains
no_overlap removed i [] h n m = ground arith
no_overlap removed i (a ∷ added) h n m =
    let (here, rest) =
      both_empty (when (contains removed a) (Validate.violation_at "add_permissions" i ∷ []))
        (overlap_violations removed (suc i) added) h in
    ground (arith, no_overlap removed (suc i) added rest n, nat_beq_iff n a)

nil_of : (ps : List Permission) → ◌≡◌ {A = Option (List Permission)} (some []) (some ps) → [] ≡ ps
nil_of ps h = ground arith

contains_nil : (p : Permission) → contains [] p ≡ false
unfolding contains
contains_nil p = refl

later :
    (p q : Permission) (qs : List Permission)
    → (p == q) ≡ false
    → contains (q ∷ qs) p ≡ true
    → contains qs p ≡ true
unfolding contains
later p q qs other m = ground arith

-- A converted permission comes from a number of the request.
number_of :
    (ns : List ℕ) (ps : List Permission) (p : Permission)
    → permissions_from_pb ns ≡ some ps
    → contains ps p ≡ true
    → (n : ℕ) × (contains ns n ≡ true) × (permission_from_pb n ≡ some p)
unfolding permissions_from_pb
number_of [] ps p e m =
    let none_held : contains ps p ≡ false =
      subst (λ xs. contains xs p ≡ false) (nil_of ps e) (contains_nil p) in
    ground arith
number_of (n ∷ ns) ps p e m =
    let (q, qs, known, others, split) =
      cons_both-some (permission_from_pb n) (permissions_from_pb ns) ps e in
    let m' : contains (q ∷ qs) p ≡ true = subst (λ xs. contains xs p ≡ true) split m in
    elim (Bool-cases (p == q)) [
      | inl same ↦ (n, contains-head n ns, known ∙ ap some (sym ((eq_iff p q).0 same)))
      | inr other ↦
          let (k, inside, from) = number_of ns qs p others (later p q qs other m') in
          (k, contains-tail n ns k inside, from)
    ]

-- A permission that is both added and removed would be one number in both lists.
apart_of_numbers :
    (adds removes : List ℕ) (ps qs : List Permission)
    → permissions_from_pb adds ≡ some ps
    → permissions_from_pb removes ≡ some qs
    → ((n : ℕ) → contains adds n ≡ true → contains removes n ≡ false)
    → AreDisjoint ps qs
apart_of_numbers adds removes ps qs e f apart = record {
  apart = λ p m. elim (Bool-cases (contains qs p)) [
    | inr free ↦ free
    | inl both ↦
        let (a, added, from_a) = number_of adds ps p e m in
        let (b, removed, from_b) = number_of removes qs p f both in
        let one = sym (number_roundtrip a p from_a).0 ∙ (number_roundtrip b p from_b).0 in
        let same : a ≡ b = ground arith in
        let out = subst (λ n. contains removes n ≡ false) same (apart a added) in ground arith
  ];
}

both_custom :
    (ps qs : List Permission) → IsCustomOnly ps → IsCustomOnly qs → IsCustomOnly (ps ++ qs)
both_custom ps qs k l = record {
  not_system = λ p m. ground (arith, contains-append ps qs p, k.not_system p, l.not_system p);
}

pub or_next-none : (a b : Option Error) → or_next a b ≡ none → (a ≡ none) × (b ≡ none)
or_next-none none b h = (refl, h)
or_next-none (some e) b h = ground arith

pub valid_uuid-none : (o : Option Uuid) → valid_uuid o ≡ none → (id : Uuid) × (o ≡ some id)
valid_uuid-none none h = ground arith
valid_uuid-none (some id) h = (id, refl)

-- A modification that passes the tests of the service can be converted, with the tag of the request,
-- and the tests of the model accept it too, unless the tag of the request is the nil UUID, which only
-- the model refuses.
pub modify_requests_agree :
    (uuid : Uuids) (req : ModifyRolePermissionsRequest) (id : Uuid)
    → Validate.modify_role_permissions uuid (some req) ≡ none
    → (mrp : Role.ModifyCustomRolePermissions) × (modify_custom_role_permissions_from_pb uuid req id
        ≡ some mrp)
      × (uuid.parse req.etag ≡ some mrp.etag)
      × ((validate_modify mrp ≡ none) ⊎ (uuid.parse req.etag ≡ some nil_uuid))
unfolding Validate.modify_role_permissions modify_custom_role_permissions_from_pb
modify_requests_agree uuid req id h =
    let overlaps = overlap_violations req.remove_permissions 0 req.add_permissions in
    let adds = permission_violations "add_permissions" 0 req.add_permissions in
    let removes = permission_violations "remove_permissions" 0 req.remove_permissions in
    let tests = unless_empty (overlaps ++ adds ++ removes) in
    let tag_tests = or_next (valid_uuid (uuid.parse req.etag)) tests in
    let (_, h1) = or_next-none (valid_uuid (uuid.parse req.id)) tag_tests h in
    let (tagged, h2) = or_next-none (valid_uuid (uuid.parse req.etag)) tests h1 in
    let (etag, parsed) = valid_uuid-none (uuid.parse req.etag) tagged in
    let (h3, others) =
      both_empty (overlaps ++ adds) removes (unless_empty-none (overlaps ++ adds ++ removes) h2) in
    let (overlap, listed) = both_empty overlaps adds h3 in
    let (ps, e, free) = permission_violations_none "add_permissions" 0 req.add_permissions listed in
    let (qs, f, clear) =
      permission_violations_none "remove_permissions" 0 req.remove_permissions others in
    let mrp : Role.ModifyCustomRolePermissions = record {
      id = id;
      etag = etag;
      add_permissions = ps;
      remove_permissions = qs;
    } in
    let apart =
      apart_of_numbers req.add_permissions req.remove_permissions ps qs e f
        (no_overlap req.remove_permissions 0 req.add_permissions overlap) in
    let customs = both_custom ps qs ((perms_valid_iff ps).0 free) ((perms_valid_iff qs).0 clear) in
    (
      mrp,
      cc (e, f, parsed),
      parsed,
      elim (Bool-cases (nat_beq etag nil_uuid)) [
        | inl same ↦ inr (parsed ∙ ap some ((nat_beq_iff etag nil_uuid).0 same))
        | inr live ↦ inl ((validate_modify_iff mrp).1 (λ x. ground arith, apart, customs))
      ],
    )
