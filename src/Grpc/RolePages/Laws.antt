-- ===== src/Grpc/RolePages/Laws.antt =====
-- The page that ListRoles answers, and the parts of a list.
use theapp.Prelude.{
  ℕ, zero, suc, ◌+◌, ◌<◌, ◌≤◌, ◌≡◌, refl, sym, ap, ◌∙◌, String, Option, none, some, List, [], ◌∷◌,
  ◌++◌, string_comparable, arith, length, ltb,
}
use theapp.Errors.{Error, ok, wrapped}
use theapp.Action.{Action, ◌>>=◌, ◌>>◌, ◌on_error◌, pure, or_panic, rename}
use theapp.Action.Laws.{bind-run}
use theapp.Session.{AuthSession}
use theapp.Role
use theapp.Pgrbac.Db.{page, take, drop}
use theapp.Grpc.{RoleOutput, ListRolesRequest, Uuids}
use theapp.Grpc.RoleConv.{custom_role_to_pb}
use theapp.Grpc.PageToken.{PageToken, Wire, decode_page_token, page_size_of, next_offset, int_ltb}
use theapp.Grpc.RoleService.{CustomRoleCore, or_fail, check_request}
use theapp.Grpc.RolePages.{
  custom_roles_to_pb, list_roles, validate_list_roles, must_int32, valid_token, next_token,
  token_of, answer_page, response, list_roles_of,
}
use theapp.Grpc.Validate.Laws.{cons_both-some}

module _ {W A B : Type 0} where
  check-run :
      (m : String) (o : Option A) (k : Action W B) (w : W) {a : A}
      → o ≡ some a
      → (check_request m (valid_token o) >> k) w ≡ k w
  unfolding ◌>>=◌ pure
  check-run m none k w h = ground arith
  check-run m (some a) k w h = refl

module _ {W A : Type 0} where
  pub or_fail-run :
      (e : Error) (o : Option A) (w : W) {a : A} → o ≡ some a → or_fail e o w ≡ (ok a, w)
  unfolding pure
  or_fail-run e none w h = ground arith
  or_fail-run e (some a) w h = ap (λ b. (ok b, w)) (ground arith)

  pub or_panic-run : (o : Option A) (w : W) {a : A} → o ≡ some a → or_panic o w ≡ (ok a, w)
  unfolding or_panic
  or_panic-run none w h = ground arith
  or_panic-run (some a) w h = ap (λ b. (ok b, w)) (ground arith)

  pub on_error-run :
      (m : Action W A) (f : Error → Error) (w : W) {a : A} {v : W}
      → m w ≡ (ok a, v)
      → (m on_error f) w ≡ (ok a, v)
  unfolding ◌on_error◌
  on_error-run m f w h = ap (λ p. (rename f p.0, p.1)) h

-- The conversion of a part is that part of the conversion.
converted_drop :
    (uuid : Uuids) (rows : List Role.CustomRole) (outs : List RoleOutput) (n : ℕ)
    → custom_roles_to_pb uuid rows ≡ some outs
    → custom_roles_to_pb uuid (drop n rows) ≡ some (drop n outs)
unfolding custom_roles_to_pb drop
converted_drop uuid rows outs zero h = h
converted_drop uuid [] [] (suc n) h = refl
converted_drop uuid [] (o ∷ os) (suc n) h = ground arith
converted_drop uuid (r ∷ rs) outs (suc n) h =
    let (o, os, one, rest, split) =
      cons_both-some (custom_role_to_pb uuid r) (custom_roles_to_pb uuid rs) outs h in
    converted_drop uuid rs os n rest ∙ ap (λ xs. some (drop (suc n) xs)) (sym split)

converted_take :
    (uuid : Uuids) (rows : List Role.CustomRole) (outs : List RoleOutput) (n : ℕ)
    → custom_roles_to_pb uuid rows ≡ some outs
    → custom_roles_to_pb uuid (take n rows) ≡ some (take n outs)
unfolding custom_roles_to_pb take
converted_take uuid rows outs zero h = refl
converted_take uuid [] [] (suc n) h = refl
converted_take uuid [] (o ∷ os) (suc n) h = ground arith
converted_take uuid (r ∷ rs) outs (suc n) h =
    let (o, os, one, rest, split) =
      cons_both-some (custom_role_to_pb uuid r) (custom_roles_to_pb uuid rs) outs h in
    cc (one, converted_take uuid rs os n rest, split)

pub length-converted :
    (uuid : Uuids) (rows : List Role.CustomRole) (outs : List RoleOutput)
    → custom_roles_to_pb uuid rows ≡ some outs
    → length outs ≡ length rows
unfolding custom_roles_to_pb
length-converted uuid [] [] h = refl
length-converted uuid [] (o ∷ os) h = ground arith
length-converted uuid (r ∷ rs) outs h =
    let (o, os, one, rest, split) =
      cons_both-some (custom_role_to_pb uuid r) (custom_roles_to_pb uuid rs) outs h in
    ap length split ∙ ap suc (length-converted uuid rs os rest)

pub take-drop : {A : Type 0} (n : ℕ) (xs : List A) → take n xs ++ drop n xs ≡ xs
unfolding take drop
take-drop zero xs = refl
take-drop (suc n) [] = refl
take-drop (suc n) (x ∷ xs) = ap (λ ys. x ∷ ys) (take-drop n xs)

pub drop-drop : {A : Type 0} (o n : ℕ) (xs : List A) → drop (o + n) xs ≡ drop n (drop o xs)
unfolding drop
drop-drop zero n xs = ap (λ k. drop k xs) (omega arith)
drop-drop (suc o) n (x ∷ xs) =
    let sum : suc o + n ≡ suc (o + n) = omega arith in
    ap (λ k. drop k (x ∷ xs)) sum ∙ drop-drop o n xs
drop-drop (suc o) zero [] = let sum : suc o + 0 ≡ suc o = omega arith in ap (λ k. drop k []) sum
drop-drop (suc o) (suc n) [] =
    let sum : suc o + suc n ≡ suc (o + suc n) = omega arith in ap (λ k. drop k []) sum

pub take_all :
    {A : Type 0} (n o : ℕ) (xs : List A) → length xs ≤ o + n → take n (drop o xs) ≡ drop o xs
unfolding take drop
take_all zero zero [] h = refl
take_all zero zero (x ∷ xs) h = ground arith
take_all (suc n) zero [] h = refl
take_all (suc n) zero (x ∷ xs) h = ap (λ ys. x ∷ ys) (take_all n zero xs (omega arith))
take_all zero (suc o) [] h = refl
take_all (suc n) (suc o) [] h = refl
take_all n (suc o) (x ∷ xs) h = take_all n o xs (omega arith)

pub next_in_range :
    (offset size total : ℕ)
    → offset ≤ total
    → size ≤ 100
    → total < 2147483648
    → (next_offset offset size ≡ offset + size)
      × (int_ltb (next_offset offset size) total ≡ ltb (offset + size) total)
next_in_range offset size total a b c = (omega arith, ground arith)

module _ {W : Type 0} (uuid : Uuids) (wire : Wire Unit) (core : CustomRoleCore W)
    (ctx : Option AuthSession) (size : ℕ) where
  abbrev pub request : String → ListRolesRequest
  request token = record { page_size = size; page_token = token }

  -- What the core documents of its pages, where the organization has the roles `rows` in the database
  -- `w`: a page is a part of them beside their count, and reading changes nothing.
  pub record HasPages (rows : List Role.CustomRole) (w : W) : Type 0 where
    pub page_of :
        (offset : ℕ)
        → core.custom_roles ctx (page_size_of size) offset w
          ≡ (ok (page (page_size_of size) offset rows, length rows), w)

  -- The token of the page at an offset.
  abbrev pub LeadsTo : ℕ → String → Type 0
  LeadsTo offset token =
      (pt : PageToken Unit) × (decode_page_token wire token ≡ some pt) × (pt.offset ≡ offset)

  -- The page at an offset, with the token that comes with it.
  pub page-run :
      (rows : List Role.CustomRole) (outs : List RoleOutput) (offset : ℕ) (token next : String)
      (w : W)
      → HasPages rows w
      → custom_roles_to_pb uuid rows ≡ some outs
      → must_int32 (length rows) ≡ some (length rows)
      → next_token uuid wire core ctx (next_offset offset (page_size_of size)) (length rows) w
        ≡ (ok next, w)
      → LeadsTo offset token
      → list_roles uuid wire core ctx (some (request token)) w ≡ (
        ok (record {
          roles = take (page_size_of size) (drop offset outs);
          total_size = length rows;
          next_page_token = next;
        }),
        w,
      )
  unfolding list_roles validate_list_roles
  page-run rows outs offset token next w pages converted fits goes (pt, decoded, at) =
      let k = page_size_of size in
      let part =
        converted_take uuid (drop offset rows) (drop offset outs) k
          (converted_drop uuid rows outs offset converted) in
      let read = ap (λ o. core.custom_roles ctx k o w) at ∙ pages.page_of offset in
      check-run "validate list roles request" (decode_page_token wire token)
        (list_roles_of uuid wire core ctx (some (request token))) w decoded
      ∙ bind-run (token_of uuid wire core ctx token) _ w
          (or_fail-run _ (decode_page_token wire token) w decoded)
      ∙ bind-run (core.custom_roles ctx k pt.offset on_error wrapped "list roles") _ w
          (on_error-run _ _ w read)
      ∙ ap (λ o. answer_page uuid wire core ctx k o (page k offset rows, length rows) w) at
      ∙ bind-run (next_token uuid wire core ctx (next_offset offset k) (length rows)) _ w goes
      ∙ or_panic-run
          (response (custom_roles_to_pb uuid (take k (drop offset rows))) (must_int32 (length rows))
            next)
          w (cc (part, fits))
