-- ===== src/Permission/Scopes.antt =====
-- `minimum_assignment_scope` is the least upper bound of the scopes of its permissions.
use theapp.Prelude.{
  ◌≤◌, ◌≡◌, refl, sym, ap, Bool-cases, ◌∙◌, ◌↔◌, inl, inr, true, Option, none, some, List, [], ◌∷◌,
  ◌==◌, string_comparable, eq_iff, Option-cases, contains, contains-head, contains-tail, arith,
}
use theapp.Set.{from_slice}
use theapp.Set.Laws.{is_superset_iff, has-from_slice}
use theapp.Permission.{
  Permission, AssignmentScope, project, system, rank, permission_assignment_scope, max_scope,
  broaden, broadest_scope, minimum_assignment_scope, is_permission_superset,
}

-- Every permission of the list has a scope, and it is at most `b`.
pub record IsBoundedBy (b : AssignmentScope) (ps : List Permission) : Type 0 where
  pub at_member :
      (p : Permission)
      → contains ps p ≡ true
      → (s : AssignmentScope) × (permission_assignment_scope p ≡ some s) × (rank s ≤ rank b)

rank_injective : (s t : AssignmentScope) → rank s ≤ rank t → rank t ≤ rank s → s ≡ t
rank_injective s t h k = ground arith

rank-le-system : (s : AssignmentScope) → rank s ≤ rank system
rank-le-system s = ground arith

broaden-eq-some :
    (s : AssignmentScope) (o : Option AssignmentScope) (t : AssignmentScope)
    → broaden s o ≡ some t
    → (u : AssignmentScope) × (o ≡ some u) × (rank s ≤ rank t) × (rank u ≤ rank t)
broaden-eq-some s none t h = cc
broaden-eq-some s (some u) t h = (u, refl, ground arith, ground arith)

broaden_least :
    (s u b t : AssignmentScope)
    → rank s ≤ rank b
    → rank u ≤ rank b
    → broaden s (some u) ≡ some t
    → rank t ≤ rank b
broaden_least s u b t h k e = ground arith

-- One round of the loop that does not panic.
broadest_scope-cons :
    (s t : AssignmentScope) (p : Permission) (ps : List Permission)
    → broadest_scope s (p ∷ ps) ≡ some t
    → (u : AssignmentScope) × (broaden s (permission_assignment_scope p) ≡ some u)
      × (broadest_scope u ps ≡ some t)
unfolding broadest_scope
broadest_scope-cons s t p ps h = elim (Option-cases (broaden s (permission_assignment_scope p))) [
  | inl e ↦ cc (rw (e, broadest_scope) at h)
  | inr e ↦ (e.0, e.1, rw (e.1, broadest_scope) at h)
]

broadest_scope_grows :
    (s t : AssignmentScope) (ps : List Permission) → broadest_scope s ps ≡ some t → rank s ≤ rank t
broadest_scope_grows s t [] h = unfold broadest_scope in ground arith
broadest_scope_grows s t (p ∷ ps) h =
    let (u, e, k) = broadest_scope-cons s t p ps h in
    omega (arith, broadest_scope_grows u t ps k, (broaden-eq-some s _ u e).2)

broadest_scope_above :
    (s t : AssignmentScope) (ps : List Permission)
    → broadest_scope s ps ≡ some t
    → (p : Permission) → contains ps p ≡ true
    → (u : AssignmentScope) × (permission_assignment_scope p ≡ some u) × (rank u ≤ rank t)
unfolding contains
broadest_scope_above s t [] h p m = cc
broadest_scope_above s t (q ∷ ps) h p m =
    let (u, e, k) = broadest_scope-cons s t q ps h in
    let (v, f, _, g) = broaden-eq-some s _ u e in
    elim (Bool-cases (p == q)) [
      | inl same ↦ (v, rw ((eq_iff p q).0 same) f, omega (arith, broadest_scope_grows u t ps k))
      | inr other ↦ broadest_scope_above u t ps k p (ground arith)
    ]

broadest_scope_least :
    (b s t : AssignmentScope) (ps : List Permission)
    → rank s ≤ rank b
    → IsBoundedBy b ps
    → broadest_scope s ps ≡ some t
    → rank t ≤ rank b
broadest_scope_least b s t [] h k e = unfold broadest_scope in ground arith
broadest_scope_least b s t (p ∷ ps) h k e =
    let (u, step, rest) = broadest_scope-cons s t p ps e in
    let (v, f, below) = k.at_member p (contains-head p ps) in
    broadest_scope_least b u t ps (broaden_least s v b u h below (rw f at step))
      (record { at_member = λ q m. k.at_member q (contains-tail p ps q m) }) rest

-- If each permission has a scope, no round of the loop panics.
broadest_scope_total :
    (s : AssignmentScope) (ps : List Permission)
    → IsBoundedBy system ps
    → (t : AssignmentScope) × (broadest_scope s ps ≡ some t)
unfolding broadest_scope
broadest_scope_total s [] k = (s, refl)
broadest_scope_total s (p ∷ ps) k =
    let (v, f, below) = k.at_member p (contains-head p ps) in
    rw (f, broadest_scope)
      (broadest_scope_total (max_scope s v) ps
        (record { at_member = λ q m. k.at_member q (contains-tail p ps q m) }))

-- When MinimumAssignmentScope returns `t`, every permission of the list has a scope, at most `t`;
-- and `t` is at most any scope from the project's up that is above them all.
pub minimum_assignment_scope_least :
    (ps : List Permission) (t : AssignmentScope)
    → minimum_assignment_scope ps ≡ some t
    → IsBoundedBy t ps × ((b : AssignmentScope) → IsBoundedBy b ps → rank t ≤ rank b)
unfolding minimum_assignment_scope
minimum_assignment_scope_least ps t h = (
  record { at_member = λ p m. broadest_scope_above project t ps h p m },
  λ b k. broadest_scope_least b project t ps (ground arith) k h,
)

-- MinimumAssignmentScope returns, with no panic, exactly on lists whose permissions all have a scope.
pub minimum_assignment_scope_total_iff :
    (ps : List Permission)
    → ((t : AssignmentScope) × (minimum_assignment_scope ps ≡ some t)) ↔ IsBoundedBy system ps
unfolding minimum_assignment_scope
minimum_assignment_scope_total_iff ps = (
  λ (t, h). record {
    at_member =
        λ p m. let (u, e, _) = broadest_scope_above project t ps h p m in (u, e, rank-le-system u);
  },
  λ k. broadest_scope_total project ps k,
)

IsBoundedBy-congr :
    (b : AssignmentScope) (ps qs : List Permission)
    → ((p : Permission) → contains ps p ≡ contains qs p)
    → IsBoundedBy b ps
    → IsBoundedBy b qs
IsBoundedBy-congr b ps qs h k = record { at_member = λ p m. k.at_member p (h p ∙ m) }

-- The scope depends on which permissions the list holds, not on their order or repetition: the
-- unspecified order in which Go lists a set does not change it, and neither does it change a panic.
pub minimum_assignment_scope_congr :
    (ps qs : List Permission)
    → ((p : Permission) → contains ps p ≡ contains qs p)
    → minimum_assignment_scope ps ≡ minimum_assignment_scope qs
minimum_assignment_scope_congr ps qs h = elim (Option-cases (minimum_assignment_scope ps)) [
  | inl e ↦ elim (Option-cases (minimum_assignment_scope qs)) [
    | inl f ↦ e ∙ sym f
    | inr (t, f) ↦
        let k =
          IsBoundedBy-congr system qs ps (λ p. sym (h p))
            ((minimum_assignment_scope_total_iff qs).0 (t, f)) in
        let (u, g) = (minimum_assignment_scope_total_iff ps).1 k in cc (e, g)
  ]
  | inr (t, e) ↦
      let (k, least) = minimum_assignment_scope_least ps t e in
      let (u, f) =
        (minimum_assignment_scope_total_iff qs).1
          (IsBoundedBy-congr system ps qs h ((minimum_assignment_scope_total_iff ps).0 (t, e))) in
      let (l, least') = minimum_assignment_scope_least qs u f in
      let same =
        rank_injective t u (least u (IsBoundedBy-congr u qs ps (λ p. sym (h p)) l))
          (least' t (IsBoundedBy-congr t ps qs h k)) in
      e ∙ ap some same ∙ sym f
]

-- The permission check passes exactly when each required permission is held.
pub is_permission_superset_iff :
    (held required : List Permission)
    → (is_permission_superset held required ≡ true)
      ↔ ((p : Permission) → contains required p ≡ true → contains held p ≡ true)
unfolding is_permission_superset
is_permission_superset_iff held required =
    let superset_iff = is_superset_iff (from_slice held) (from_slice required) in
    (
      λ h p m. sym (has-from_slice held p) ∙ superset_iff.0 h p (has-from_slice required p ∙ m),
      λ h.
          superset_iff.1 (λ p m. has-from_slice held p ∙ h p (sym (has-from_slice required p) ∙ m)),
    )
