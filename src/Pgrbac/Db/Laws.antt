-- ===== src/Pgrbac/Db/Laws.antt =====
-- Which rows the parts of a statement keep, find and join.
use theapp.Prelude.{
  ◌≡◌, refl, ap, Bool, true, false, not, ◌&&◌, ◌||◌, some, List, [], ◌∷◌, ◌++◌, map, Comparable,
  ◌==◌, nat_comparable, contains, contains-append, Bool-cases, arith, inl, inr,
}
use theapp.Slices.{contains_func}
use theapp.Pgrbac.Db.{where', find, join}

module _ {A : Type 0} where
  -- A row passes both tests where it passes the second among those that passed the first.
  pub contains_func-where' :
      (xs : List A) (f g : A → Bool)
      → contains_func (where' xs f) g ≡ contains_func xs (λ x. f x && g x)
  unfolding where' contains_func
  contains_func-where' [] f g = refl
  contains_func-where' (x ∷ xs) f g = ground (arith, contains_func-where' xs f g)

  pub contains_func-append :
      (xs ys : List A) (f : A → Bool)
      → contains_func (xs ++ ys) f ≡ (contains_func xs f || contains_func ys f)
  unfolding contains_func
  contains_func-append [] ys f = refl
  contains_func-append (x ∷ xs) ys f = ground (arith, contains_func-append xs ys f)

  pub where'-append :
      (xs ys : List A) (f : A → Bool) → where' (xs ++ ys) f ≡ where' xs f ++ where' ys f
  unfolding where'
  where'-append [] ys f = refl
  where'-append (x ∷ xs) ys f = ground (arith, where'-append xs ys f)

  -- Where no row passes a test, dropping those that pass drops none.
  pub where'-none :
      (xs : List A) (f : A → Bool) → contains_func xs f ≡ false → where' xs (λ x. not (f x)) ≡ xs
  unfolding where' contains_func
  where'-none [] f h = refl
  where'-none (x ∷ xs) f h = ground (arith, where'-none xs f)

  -- A row that passes the test: SQL's EXISTS, with the row.
  pub contains_func-row :
      (xs : List A) (f : A → Bool)
      → contains_func xs f ≡ true
      → (x : A) × (f x ≡ true) × ((g : A → Bool) → g x ≡ true → contains_func xs g ≡ true)
  unfolding contains_func
  contains_func-row [] f h = ground arith
  contains_func-row (x ∷ xs) f h = elim (Bool-cases (f x)) [
    | inl t ↦ (x, t, λ g e. ground arith)
    | inr n ↦
        let (y, e, k) = contains_func-row xs f (ground arith) in
        (y, e, λ g d. ground (arith, k g d))
  ]

  -- The row that was found passes the test.
  pub find-passes : (xs : List A) (f : A → Bool) {x : A} → find xs f ≡ some x → f x ≡ true
  unfolding find
  find-passes [] f h = ground arith
  find-passes (y ∷ ys) f h = elim (Bool-cases (f y)) [
    | inl t ↦ ground arith
    | inr n ↦ find-passes ys f (ground arith)
  ]

  -- The row that was found first is found by a narrower test that it passes.
  pub find-narrow :
      (xs : List A) (f g : A → Bool) {x : A}
      → find xs f ≡ some x
      → g x ≡ true
      → ((y : A) → g y ≡ true → f y ≡ true)
      → find xs g ≡ some x
  unfolding find
  find-narrow [] f g h e n = ground arith
  find-narrow (y ∷ ys) f g h e n = elim (Bool-cases (f y)) [
    | inl t ↦ ground arith
    | inr d ↦ ground (arith, find-narrow ys f g (ground arith) e n, n y)
  ]

module _ {A B : Type 0} ⦃e : Comparable B⦄ where
  -- A value that a join yields comes from a row of the left side, and the other way around.
  pub contains-join :
      (xs : List A) (f : A → List B) (b : B)
      → contains (join xs f) b ≡ contains_func xs (λ x. contains (f x) b)
  unfolding join contains contains_func
  contains-join [] f b = refl
  contains-join (x ∷ xs) f b =
      ground (arith, contains-join xs f b, contains-append (f x) (join xs f) b)

  pub contains-map :
      (xs : List A) (f : A → B) (b : B) → contains (map f xs) b ≡ contains_func xs (λ x. b == f x)
  unfolding contains contains_func
  contains-map [] f b = refl
  contains-map (x ∷ xs) f b = ground (arith, contains-map xs f b)

module _ {A : Type 0} ⦃e : Comparable A⦄ where
  pub contains-where' :
      (xs : List A) (f : A → Bool) (a : A) → contains (where' xs f) a ≡ (contains xs a && f a)
  unfolding where' contains
  contains-where' [] f a = ground arith
  contains-where' (x ∷ xs) f a = ground (arith, contains-where' xs f a, e.equals_iff a x)

module _ {A : Type 0} where
  pub where'-head :
      (xs : List A) (f : A → Bool) {y : A} {ys : List A} → where' xs f ≡ y ∷ ys → f y ≡ true
  unfolding where'
  where'-head [] f h = ground arith
  where'-head (x ∷ xs) f {y = y} {ys = ys} h = elim (Bool-cases (f x)) [
    | inl t ↦ ground arith
    | inr n ↦ where'-head xs f {y = y} {ys = ys} (ground arith)
  ]

  append_nil : (xs : List A) → xs ++ [] ≡ xs
  append_nil [] = refl
  append_nil (x ∷ xs) = ap (λ ys. x ∷ ys) (append_nil xs)

-- A join that starts at one row.
pub join-one : {A B : Type 0} (x : A) (f : A → List B) → join (x ∷ []) f ≡ f x
unfolding join
join-one x f = append_nil (f x)

module _ {A : Type 0} where
  pub contains_func-narrow :
      (xs : List A) (f g : A → Bool)
      → contains_func xs f ≡ false
      → ((x : A) → g x ≡ true → f x ≡ true)
      → contains_func xs g ≡ false
  unfolding contains_func
  contains_func-narrow [] f g h n = refl
  contains_func-narrow (x ∷ xs) f g h n = ground (arith, contains_func-narrow xs f g, n x)

  -- A row that was new to its table is the one that its key deletes again.
  pub where'-inserted :
      (xs : List A) (f : A → Bool) (a : A)
      → contains_func xs f ≡ false
      → f a ≡ true
      → (where' (xs ++ a ∷ []) f ≡ a ∷ []) × (where' (xs ++ a ∷ []) (λ x. not (f x)) ≡ xs)
  unfolding where' contains_func
  where'-inserted [] f a h t = (ground arith, ground arith)
  where'-inserted (x ∷ xs) f a h t =
      let (p, q) = where'-inserted xs f a (ground arith) t in (ground arith, ground arith)
