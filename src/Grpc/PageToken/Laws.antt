-- ===== src/Grpc/PageToken/Laws.antt =====
-- A token leads back to the offset that it was made from.
use theapp.Prelude.{
  ℕ, ◌≤◌, ◌≡◌, ◌⊎◌, inl, inr, refl, String, false, none, some, List, [], ◌∷◌, ◌==◌,
  string_comparable, arith,
}
use theapp.Grpc.PageToken.{
  PageTokenEncoded, PageToken, Wire, encode_page_token, decode_page_token, page_size_of,
}

-- What the packages document of tokens with this order: what they write they read back, a page token can be written, and
-- base64 gives no empty text for bytes.
pub record IsWire {F : Type 0} (wire : Wire F) (order_by : String) : Type 0 where
  pub filter_returns :
      (f : F) → (bytes : List ℕ) × (wire.marshal f ≡ some bytes) × (wire.unmarshal bytes ≡ some f)
  pub json_returns :
      (enc : PageTokenEncoded)
      → enc.order_by ≡ order_by
      → (b : ℕ) × (bytes : List ℕ) × (wire.marshal_json enc ≡ some (b ∷ bytes))
        × (wire.unmarshal_json (b ∷ bytes) ≡ some enc)
  pub base64_returns :
      (b : ℕ) (bytes : List ℕ)
      → (wire.decode_base64 (wire.encode_base64 (b ∷ bytes)) ≡ some (b ∷ bytes))
        × ((wire.encode_base64 (b ∷ bytes) == "") ≡ false)

-- A token is not empty, and is decoded to the offset, the order and the filter that were encoded, where
-- a filter whose encoding is empty comes back as nil.
pub page_token_roundtrip :
    {F : Type 0} (wire : Wire F) (offset : ℕ) (order_by : String) (filter : F)
    → IsWire wire order_by
    → (token : String) × (pt : PageToken F) × (encode_page_token wire offset order_by filter
        ≡ some token)
      × ((token == "") ≡ false)
      × (decode_page_token wire token ≡ some pt)
      × (pt.offset ≡ offset)
      × (pt.order_by ≡ order_by)
      × ((pt.filter ≡ some filter) ⊎ ((pt.filter ≡ none) × (wire.marshal filter ≡ some [])))
unfolding encode_page_token decode_page_token
page_token_roundtrip wire offset order_by filter lawful =
    let (bytes, marshalled, unmarshalled) = lawful.filter_returns filter in
    with_bytes bytes marshalled unmarshalled
  where
    with_bytes :
        (bytes : List ℕ)
        → wire.marshal filter ≡ some bytes
        → wire.unmarshal bytes ≡ some filter
        → (token : String) × (pt : PageToken _) × (encode_page_token wire offset order_by filter
            ≡ some token)
          × ((token == "") ≡ false)
          × (decode_page_token wire token ≡ some pt)
          × (pt.offset ≡ offset)
          × (pt.order_by ≡ order_by)
          × ((pt.filter ≡ some filter) ⊎ ((pt.filter ≡ none) × (wire.marshal filter ≡ some [])))
    with_bytes [] m u =
        let enc : PageTokenEncoded = record { offset = offset; order_by = order_by; filter = [] } in
        let (b, bytes, written, read) = lawful.json_returns enc refl in
        let (decoded, live) = lawful.base64_returns b bytes in
        (
          wire.encode_base64 (b ∷ bytes),
          record { offset = offset; order_by = order_by; filter = none },
          cc (m, written),
          live,
          cc (decoded, read, live),
          refl,
          refl,
          inr (refl, m),
        )
    with_bytes (x ∷ xs) m u =
        let enc : PageTokenEncoded = record {
          offset = offset;
          order_by = order_by;
          filter = x ∷ xs;
        } in
        let (b, bytes, written, read) = lawful.json_returns enc refl in
        let (decoded, live) = lawful.base64_returns b bytes in
        (
          wire.encode_base64 (b ∷ bytes),
          record { offset = offset; order_by = order_by; filter = some filter },
          cc (m, written),
          live,
          cc (decoded, read, live, u),
          refl,
          refl,
          inl refl,
        )

-- Whatever int32 a request carries, a page has between one row and a hundred.
pub page_size_of-bounds : (n : ℕ) → (1 ≤ page_size_of n) × (page_size_of n ≤ 100)
unfolding page_size_of
page_size_of-bounds n = (ground arith, ground arith)
