-- ===== src/Grpc/RolePages/Followed.antt =====
-- A client that follows the page tokens of ListRoles sees every role.
use theapp.Prelude.{
  ℕ, zero, suc, ◌+◌, ◌<◌, ◌≤◌, ◌≡◌, inl, inr, refl, ap, ◌∙◌, String, false, true, Option, none,
  some, List, ◌++◌, ◌==◌, string_comparable, arith, if◌then◌else◌, length, ltb, Bool-cases,
}
use theapp.Errors.{Outcome, ok, err, panics, message, wrapped}
use theapp.Action.{pure}
use theapp.Session.{AuthSession}
use theapp.Role
use theapp.Pgrbac.Db.{take, drop}
use theapp.Grpc.{RoleOutput, ListRolesResponse, Uuids}
use theapp.Grpc.PageToken.{
  Wire, encode_page_token, decode_page_token, page_size_of, next_offset, int_ltb,
}
use theapp.Grpc.PageToken.Laws.{IsWire, page_token_roundtrip, page_size_of-bounds}
use theapp.Grpc.RoleService.{CustomRoleCore}
use theapp.Grpc.RolePages.{custom_roles_to_pb, list_roles, must_int32, next_token}
use theapp.Grpc.RolePages.Laws.{
  request, HasPages, LeadsTo, page-run, take-drop, drop-drop, take_all, next_in_range,
  length-converted, or_fail-run,
}

module _ {W : Type 0} (uuid : Uuids) (wire : Wire Unit) (core : CustomRoleCore W)
    (ctx : Option AuthSession) (size : ℕ) where
  abbrev prepend : List RoleOutput → Option (List RoleOutput) → Option (List RoleOutput)
  prepend roles none = none
  prepend roles (some rest) = some (roles ++ rest)

  abbrev follow_with :
      (String → W → Option (List RoleOutput))
      → Outcome ListRolesResponse × W
      → Option (List RoleOutput)
  follow_with next (ok r, w) =
      if r.next_page_token == "" then some r.roles else prepend r.roles (next r.next_page_token w)
  follow_with next (err e, w) = none
  follow_with next (panics, w) = none

  -- The roles that a client gathers who sends at most so many requests, each with the token that the
  -- last response gave, until that token is empty; `none` if the requests did not suffice or one failed.
  unfoldable pub follow : ℕ → String → W → Option (List RoleOutput)
  unfolding list_roles
  follow zero token w = none
  follow (suc n) token w =
      follow_with (follow n)
        (list_roles uuid wire core ctx (some (request uuid wire core ctx size token)) w)

  no_token :
      (next total : ℕ) (w : W)
      → int_ltb next total ≡ false
      → next_token uuid wire core ctx next total w ≡ (ok "", w)
  unfolding pure
  no_token next total w h = rw h refl

  some_token :
      (next total : ℕ) (token : String) (w : W)
      → int_ltb next total ≡ true
      → encode_page_token wire next "" tt ≡ some token
      → next_token uuid wire core ctx next total w ≡ (ok token, w)
  some_token next total token w h e = rw h (
      or_fail-run (wrapped "encode next_page_token" (message "marshal"))
        (encode_page_token wire next "" tt) w e)

  followed :
      (roles rest : List RoleOutput) (n total : ℕ) (next : String) (w : W)
      → (next == "") ≡ false
      → follow n next w ≡ some rest
      → follow_with
          (follow n)
          (ok (record { roles = roles; total_size = total; next_page_token = next }), w)
        ≡ some (roles ++ rest)
  followed roles rest n total next w live e = cc (live, e)

  module _ (rows : List Role.CustomRole) (outs : List RoleOutput) (lawful : IsWire wire "") (w : W)
      (pages : HasPages uuid wire core ctx size rows w)
      (converted : custom_roles_to_pb uuid rows ≡ some outs) (fits : length rows ≤ 2147483647) where
    must_fit : must_int32 (length rows) ≡ some (length rows)
    must_fit = ground arith

    rest_followed :
        (n offset : ℕ) (token : String)
        → length rows < offset + n
        → offset ≤ length rows
        → LeadsTo uuid wire core ctx size offset token
        → follow n token w ≡ some (drop offset outs)
    unfolding follow
    rest_followed zero offset token enough inside leads = ground arith
    rest_followed (suc n) offset token enough inside leads =
        let k = page_size_of size in
        let (least, most) = page_size_of-bounds size in
        let (sum, compared) = next_in_range offset k (length rows) inside most (omega arith) in
        elim (Bool-cases (ltb (offset + k) (length rows))) [
          | inr ends ↦
              let run =
                page-run uuid wire core ctx size rows outs offset token "" w pages converted
                  must_fit (no_token (next_offset offset k) (length rows) w (compared ∙ ends))
                  leads in
              ap (follow_with (follow n)) run
              ∙ ap some (
                  take_all k offset outs
                    (ground (arith, length-converted uuid rows outs converted)))
          | inl more ↦
              let (next, pt, encoded, live, decoded, at, _, _) =
                page_token_roundtrip wire (next_offset offset k) "" tt lawful in
              let run =
                page-run uuid wire core ctx size rows outs offset token next w pages converted
                  must_fit
                  (some_token (next_offset offset k) (length rows) next w (compared ∙ more) encoded)
                  leads in
              let rest =
                rest_followed n (offset + k) next (omega arith) (ground arith)
                  (pt, decoded, at ∙ sum) in
              ap (follow_with (follow n)) run
              ∙ followed (take k (drop offset outs)) (drop (offset + k) outs) n (length rows) next w
                  live rest
              ∙ ap some (
                  ap (λ xs. take k (drop offset outs) ++ xs) (drop-drop offset k outs)
                  ∙ take-drop k (drop offset outs))
        ]

    -- A client that starts without a token gathers the pages of a core that answers pages of some
    -- roles, and these are all of the roles.
    pub pages_are_followed : follow (suc (length rows)) "" w ≡ some outs
    unfolding decode_page_token drop
    pages_are_followed =
        rest_followed (suc (length rows)) 0 "" (omega arith) (omega arith)
          (record { offset = 0; order_by = ""; filter = none }, refl, refl)
