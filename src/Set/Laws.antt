-- ===== src/Set/Laws.antt =====
-- What each operation of the set does to membership, and that every set it builds is distinct.
use theapp.Prelude.{
  ◌≡◌, refl, ◌↔◌, true, false, ◌&&◌, ◌||◌, not, List, [], ◌∷◌, Comparable, ◌==◌, contains,
  contains-head, contains-tail, arith,
}
use theapp.Set.{
  Set, new, values, store, delete, add_entries, remove_entries, add, remove, from_slice, has,
  holds_all, is_superset, clone, union, add_missing, difference, symmetric_difference, add_shared,
  intersection,
}

module _ {ℓ} {A : Type ℓ} ⦃e : Comparable A⦄ where
  contains-store : (xs : List A) (a b : A) → contains (store xs a) b ≡ (b == a || contains xs b)
  unfolding store
  contains-store xs a b = ground (arith, e.equals_iff b a)

  pub contains-delete :
      (xs : List A) (a b : A) → contains (delete xs a) b ≡ (not (b == a) && contains xs b)
  unfolding delete contains
  contains-delete [] a b = ground arith
  contains-delete (x ∷ xs) a b =
      ground (arith, contains-delete xs a b, e.equals_iff a x, e.equals_iff b x, e.equals_iff b a)

  contains-add_entries :
      (xs vs : List A) (b : A) → contains (add_entries xs vs) b ≡ (contains vs b || contains xs b)
  unfolding add_entries contains
  contains-add_entries xs [] b = refl
  contains-add_entries xs (v ∷ vs) b =
      ground (arith, contains-add_entries (store xs v) vs b, contains-store xs v b)

  contains-remove_entries :
      (xs vs : List A) (b : A)
      → contains (remove_entries xs vs) b ≡ (not (contains vs b) && contains xs b)
  unfolding remove_entries contains
  contains-remove_entries xs [] b = refl
  contains-remove_entries xs (v ∷ vs) b =
      ground (arith, contains-remove_entries (delete xs v) vs b, contains-delete xs v b)

  pub has-new : (b : A) → has new b ≡ false
  unfolding has new contains
  has-new b = refl

  pub has-add : (s : Set A) (vs : List A) (b : A) → has (add s vs) b ≡ (contains vs b || has s b)
  unfolding has add
  has-add s vs b = contains-add_entries s.entries vs b

  pub has-remove :
      (s : Set A) (vs : List A) (b : A) → has (remove s vs) b ≡ (not (contains vs b) && has s b)
  unfolding has remove
  has-remove s vs b = contains-remove_entries s.entries vs b

  pub has-from_slice : (vs : List A) (b : A) → has (from_slice vs) b ≡ contains vs b
  unfolding from_slice
  has-from_slice vs b = ground (arith, has-add new vs b, has-new b)

  pub contains-values : (s : Set A) (b : A) → contains (values s) b ≡ has s b
  unfolding has values
  contains-values s b = refl

  contains-entries : (s : Set A) (b : A) → contains s.entries b ≡ has s b
  unfolding has
  contains-entries s b = refl

  has-clone : (s : Set A) (b : A) → has (clone s) b ≡ has s b
  unfolding clone
  has-clone s b = ground (arith, has-add new s.entries b, has-new b, contains-entries s b)

  pub has-union : (s t : Set A) (b : A) → has (union s t) b ≡ (has s b || has t b)
  unfolding union
  has-union s t b =
      ground (arith, has-add (clone s) t.entries b, has-clone s b, contains-entries t b)

  contains-add_missing :
      (other : Set A) (acc vs : List A) (b : A)
      → contains (add_missing other acc vs) b
        ≡ (contains acc b || (contains vs b && not (has other b)))
  unfolding add_missing contains
  contains-add_missing other acc [] b = ground arith
  contains-add_missing other acc (v ∷ vs) b = ground (
    arith,
    contains-add_missing other acc vs b,
    contains-add_missing other (store acc v) vs b,
    contains-store acc v b,
    e.equals_iff b v,
  )

  pub has-difference : (s t : Set A) (b : A) → has (difference s t) b ≡ (has s b && not (has t b))
  unfolding difference has new contains
  has-difference s t b = contains-add_missing t [] s.entries b

  -- Membership in the symmetric difference is the exclusive or of the memberships.
  pub has-symmetric_difference :
      (s t : Set A) (b : A)
      → has (symmetric_difference s t) b
        ≡ ((has s b && not (has t b)) || (has t b && not (has s b)))
  unfolding symmetric_difference
  has-symmetric_difference s t b = ground (
    arith,
    has-union (difference s t) (difference t s) b,
    has-difference s t b,
    has-difference t s b,
  )

  contains-add_shared :
      (other : Set A) (acc vs : List A) (b : A)
      → contains (add_shared other acc vs) b ≡ (contains acc b || (contains vs b && has other b))
  unfolding add_shared contains
  contains-add_shared other acc [] b = ground arith
  contains-add_shared other acc (v ∷ vs) b = ground (
    arith,
    contains-add_shared other acc vs b,
    contains-add_shared other (store acc v) vs b,
    contains-store acc v b,
    e.equals_iff b v,
  )

  -- Whichever set is walked, the intersection holds what both hold.
  pub has-intersection : (s t : Set A) (b : A) → has (intersection s t) b ≡ (has s b && has t b)
  unfolding intersection has contains
  has-intersection s t b =
      ground (arith, contains-add_shared s [] t.entries b, contains-add_shared t [] s.entries b)

  holds_all_sound :
      (s : Set A) (vs : List A)
      → holds_all s vs ≡ true
      → (b : A) → contains vs b ≡ true
      → has s b ≡ true
  unfolding holds_all contains
  holds_all_sound s [] h b m = cc
  holds_all_sound s (v ∷ vs) h b m =
      ground (arith, holds_all_sound s vs, e.equals_iff b v, holds_all_sound s vs (ground arith) b)

  holds_all_complete :
      (s : Set A) (vs : List A)
      → ((b : A) → contains vs b ≡ true → has s b ≡ true)
      → holds_all s vs ≡ true
  unfolding holds_all
  holds_all_complete s [] h = refl
  holds_all_complete s (v ∷ vs) h =
      let here = h v (contains-head v vs) in
      let rest = holds_all_complete s vs (λ b m. h b (contains-tail v vs b m)) in
      ground (arith, here, rest)

  -- The superset test decides inclusion of the memberships.
  pub is_superset_iff :
      (s t : Set A) → (is_superset s t ≡ true) ↔ ((b : A) → has t b ≡ true → has s b ≡ true)
  unfolding is_superset has
  is_superset_iff s t = (holds_all_sound s t.entries, holds_all_complete s t.entries)
