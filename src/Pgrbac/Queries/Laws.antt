-- ===== src/Pgrbac/Queries/Laws.antt =====
-- What a method of the store that only reads has seen where it returns, and which user and role a query
-- is about.
use theapp.Prelude.{◌≡◌, refl, sym, ◌∙◌, String, Option, none, some, List, [], ◌∷◌, map, arith}
use theapp.Errors.{Outcome, ok}
use theapp.Pgdb.{TypedQuery, queue, queue_error, run_batch}
use theapp.Pgdb.Laws.{one-ok}
use theapp.Pgrbac.Db.{Db, to_list}

module _ {A : Type 0} where
  pub reads_one :
      (xs : List A) (w : Db) {a : A} {w' : Db}
      → ◌≡◌ {A = Outcome (List (Outcome A)) × Db} (ok (map ok xs), w) (ok (ok a ∷ []), w')
      → (xs ≡ a ∷ []) × (w ≡ w')
  reads_one [] w h = ground arith
  reads_one (x ∷ []) w h = (ground arith, ground arith)
  reads_one (x ∷ _ ∷ _) w h = ground arith

  -- A read returns the one row that it selects, and changes nothing.
  pub reads-ok :
      (m : String) (q : TypedQuery Db A) (w : Db) (xs : List A) {a : A} {w' : Db}
      → ◌≡◌ {A = Outcome (List (Outcome A)) × Db} (q.statement w) (ok (map ok xs), w)
      → run_batch (queue_error m (queue q)) w ≡ (ok a, w')
      → (xs ≡ a ∷ []) × (w ≡ w')
  reads-ok m q w xs e h = reads_one xs w (sym e ∙ one-ok m q w h)

  pub map-one :
      {B : Type 0} (xs : List B) (f : B → A) {a : A}
      → map f xs ≡ a ∷ []
      → (b : B) × (xs ≡ b ∷ []) × (f b ≡ a)
  map-one [] f h = ground arith
  map-one (b ∷ []) f h = (b, refl, ground arith)
  map-one (b ∷ _ ∷ _) f h = ground arith

  -- A selection through a unique key is one row where the key leads to one.
  pub to_list-one :
      {B : Type 0} (o : Option B) (f : B → A) {a : A}
      → map f (to_list o) ≡ a ∷ []
      → (b : B) × (o ≡ some b) × (f b ≡ a)
  unfolding to_list
  to_list-one none f h = ground arith
  to_list-one (some b) f h = (b, refl, ground arith)
