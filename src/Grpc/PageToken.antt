-- ===== src/Grpc/PageToken.antt =====
-- backend/internal/api/grpc/internal/conv/pagination.go, with the sizes of pages of the handlers. An int
-- is the number modulo 2 ^ 64.
pub mod Laws
use Prim.Native.Nat.{◌%◌, ◌^◌}
use theapp.Prelude.{
  ℕ, ◌+◌, String, Bool, Option, none, some, List, [], ◌∷◌, ◌==◌, ◌||◌, string_comparable, leb, ltb,
  nat_beq, if◌then◌else◌,
}

-- pageTokenEncoded
pub record PageTokenEncoded : Type 0 where
  pub offset : ℕ
  pub order_by : String
  pub filter : List ℕ

-- PageToken; a nil filter is `none`.
pub record PageToken (F : Type 0) : Type 0 where
  pub offset : ℕ
  pub order_by : String
  pub filter : Option F

-- The packages proto, json and base64, on bytes; `none` is an error.
pub record Wire (F : Type 0) : Type 0 where
  pub marshal : F → Option (List ℕ)
  pub unmarshal : List ℕ → Option F
  pub marshal_json : PageTokenEncoded → Option (List ℕ)
  pub unmarshal_json : List ℕ → Option PageTokenEncoded
  pub encode_base64 : List ℕ → String
  pub decode_base64 : String → Option (List ℕ)

module _ {F : Type 0} (wire : Wire F) where
  abbrev encode_json : Option (List ℕ) → Option String
  encode_json none = none
  encode_json (some bytes) = some (wire.encode_base64 bytes)

  abbrev encode_with : ℕ → String → Option (List ℕ) → Option String
  encode_with offset order_by none = none
  encode_with offset order_by (some filter) =
      encode_json
        (wire.marshal_json (record { offset = offset; order_by = order_by; filter = filter }))

  -- EncodePageToken
  unfoldable pub encode_page_token : ℕ → String → F → Option String
  encode_page_token offset order_by filter = encode_with offset order_by (wire.marshal filter)

  abbrev with_filter : PageTokenEncoded → Option F → Option (PageToken F)
  with_filter enc none = none
  with_filter enc (some f) =
      some (record { offset = enc.offset; order_by = enc.order_by; filter = some f })

  -- if len(enc.Filter) > 0
  abbrev decode_filter : PageTokenEncoded → List ℕ → Option (PageToken F)
  decode_filter enc [] =
      some (record { offset = enc.offset; order_by = enc.order_by; filter = none })
  decode_filter enc (b ∷ bytes) = with_filter enc (wire.unmarshal (b ∷ bytes))

  abbrev decode_encoded : Option PageTokenEncoded → Option (PageToken F)
  decode_encoded none = none
  decode_encoded (some enc) = decode_filter enc enc.filter

  abbrev decode_bytes : Option (List ℕ) → Option (PageToken F)
  decode_bytes none = none
  decode_bytes (some bytes) = decode_encoded (wire.unmarshal_json bytes)

  -- DecodePageToken
  unfoldable pub decode_page_token : String → Option (PageToken F)
  decode_page_token token =
      if token == ""
      then some (record { offset = 0; order_by = ""; filter = none })
      else decode_bytes (wire.decode_base64 token)

-- if pageSize <= 0 || pageSize > 100 { pageSize = 50 }
unfoldable pub page_size_of : ℕ → ℕ
page_size_of n = if leb (2 ^ 31) n || nat_beq n 0 || ltb 100 n then 50 else n

-- pageToken.Offset + pageSize
abbrev pub next_offset : ℕ → ℕ → ℕ
next_offset offset size = (offset + size) % 2 ^ 64

-- Less-than on ints.
abbrev pub int_ltb : ℕ → ℕ → Bool
int_ltb a b = ltb ((a + 2 ^ 63) % 2 ^ 64) ((b + 2 ^ 63) % 2 ^ 64)
