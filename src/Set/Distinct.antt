-- ===== src/Set/Distinct.antt =====
-- The list of a set's keys holds each key once, so that `len` counts the members.
use theapp.Prelude.{
  ◌+◌, ◌≡◌, refl, sym, ◌∙◌, inl, inr, true, false, List, [], ◌∷◌, Comparable, Bool-cases, length,
  contains, contains-head, IsDistinct, arith, ltb,
}
use theapp.Set.{
  Set, new, len, store, delete, add_entries, remove_entries, add, remove, from_slice, has, clone,
  union, add_missing, difference, add_shared, intersection,
}
use theapp.Set.Laws.{contains-delete}

-- No key is listed twice, as in a Go map.
pub record IsKeyed {ℓ} {A : Type ℓ} ⦃e : Comparable A⦄ (s : Set A) : Type 0 where
  pub distinct : IsDistinct s.entries

module _ {ℓ} {A : Type ℓ} ⦃e : Comparable A⦄ where
  store-IsDistinct : (xs : List A) (a : A) → IsDistinct xs → IsDistinct (store xs a)
  unfolding store
  store-IsDistinct xs a d = ground arith

  delete-IsDistinct : (xs : List A) (a : A) → IsDistinct xs → IsDistinct (delete xs a)
  unfolding delete
  delete-IsDistinct [] a d = tt
  delete-IsDistinct (x ∷ xs) a d =
      ground (arith, delete-IsDistinct xs a d.1, contains-delete xs a x)

  add_entries-IsDistinct : (xs vs : List A) → IsDistinct xs → IsDistinct (add_entries xs vs)
  unfolding add_entries
  add_entries-IsDistinct xs [] d = d
  add_entries-IsDistinct xs (v ∷ vs) d =
      add_entries-IsDistinct (store xs v) vs (store-IsDistinct xs v d)

  remove_entries-IsDistinct : (xs vs : List A) → IsDistinct xs → IsDistinct (remove_entries xs vs)
  unfolding remove_entries
  remove_entries-IsDistinct xs [] d = d
  remove_entries-IsDistinct xs (v ∷ vs) d =
      remove_entries-IsDistinct (delete xs v) vs (delete-IsDistinct xs v d)

  add_missing-IsDistinct :
      (other : Set A) (acc vs : List A) → IsDistinct acc → IsDistinct (add_missing other acc vs)
  unfolding add_missing
  add_missing-IsDistinct other acc [] d = d
  add_missing-IsDistinct other acc (v ∷ vs) d = elim (Bool-cases (has other v)) [
    | inl t ↦ rw t (add_missing-IsDistinct other acc vs d)
    | inr f ↦ rw f (add_missing-IsDistinct other (store acc v) vs (store-IsDistinct acc v d))
  ]

  add_shared-IsDistinct :
      (other : Set A) (acc vs : List A) → IsDistinct acc → IsDistinct (add_shared other acc vs)
  unfolding add_shared
  add_shared-IsDistinct other acc [] d = d
  add_shared-IsDistinct other acc (v ∷ vs) d = elim (Bool-cases (has other v)) [
    | inl t ↦ rw t (add_shared-IsDistinct other (store acc v) vs (store-IsDistinct acc v d))
    | inr f ↦ rw f (add_shared-IsDistinct other acc vs d)
  ]

  pub add-IsKeyed : (s : Set A) (vs : List A) → IsKeyed s → IsKeyed (add s vs)
  unfolding add
  add-IsKeyed s vs k = record { distinct = add_entries-IsDistinct s.entries vs k.distinct }

  pub remove-IsKeyed : (s : Set A) (vs : List A) → IsKeyed s → IsKeyed (remove s vs)
  unfolding remove
  remove-IsKeyed s vs k = record { distinct = remove_entries-IsDistinct s.entries vs k.distinct }

  pub from_slice-IsKeyed : (vs : List A) → IsKeyed (from_slice vs)
  unfolding from_slice add new
  from_slice-IsKeyed vs = record { distinct = add_entries-IsDistinct [] vs tt }

  pub union-IsKeyed : (s t : Set A) → IsKeyed (union s t)
  unfolding union clone new add
  union-IsKeyed s t = record {
    distinct = add_entries-IsDistinct _ t.entries (add_entries-IsDistinct [] s.entries tt);
  }

  pub difference-IsKeyed : (s t : Set A) → IsKeyed (difference s t)
  unfolding difference new
  difference-IsKeyed s t = record { distinct = add_missing-IsDistinct t [] s.entries tt }

  pub intersection-IsKeyed : (s t : Set A) → IsKeyed (intersection s t)
  unfolding intersection
  intersection-IsKeyed s t = elim (Bool-cases (ltb (len t) (len s))) [
    | inl b ↦ rw b (record { distinct = add_shared-IsDistinct s [] t.entries tt })
    | inr b ↦ rw b (record { distinct = add_shared-IsDistinct t [] s.entries tt })
  ]

  delete_absent : (xs : List A) (a : A) → contains xs a ≡ false → delete xs a ≡ xs
  unfolding delete contains
  delete_absent [] a h = refl
  delete_absent (x ∷ xs) a h = ground (arith, delete_absent xs a)

  length-delete :
      (xs : List A) (a : A)
      → IsDistinct xs
      → contains xs a ≡ true
      → length (delete xs a) + 1 ≡ length xs
  unfolding delete contains
  length-delete [] a d m = cc
  length-delete (x ∷ xs) a d m =
      ground (arith, length-delete xs a d.1, delete_absent xs a, e.equals_iff a x)

  contains-rest :
      (x : A) (xs ys : List A)
      → IsDistinct (x ∷ xs)
      → ((a : A) → contains (x ∷ xs) a ≡ contains ys a)
      → (a : A) → contains xs a ≡ contains (delete ys x) a
  unfolding contains
  contains-rest x xs ys d h a = ground (arith, d.0, h a, contains-delete ys x a, e.equals_iff a x)

  pub length_unique :
      (xs ys : List A)
      → IsDistinct xs
      → IsDistinct ys
      → ((a : A) → contains xs a ≡ contains ys a)
      → length xs ≡ length ys
  length_unique [] [] d f h = refl
  length_unique [] (y ∷ ys) d f h =
      let none_held : contains {A = A} [] y ≡ false = unfold contains in refl in
      cc (h y, contains-head y ys, none_held)
  length_unique (x ∷ xs) ys d f h =
      let rest =
        length_unique xs (delete ys x) d.1 (delete-IsDistinct ys x f) (contains-rest x xs ys d h) in
      omega (arith, rest, length-delete ys x f (sym (h x) ∙ contains-head x xs))

  -- Sets with the same members have the same number of members, however they were built.
  pub len_unique :
      (s t : Set A) → IsKeyed s → IsKeyed t → ((a : A) → has s a ≡ has t a) → len s ≡ len t
  unfolding len has
  len_unique s t k l h = length_unique s.entries t.entries k.distinct l.distinct h
