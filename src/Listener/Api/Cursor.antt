-- ===== src/Listener/Api/Cursor.antt =====
-- The cursors of bodylog-listener-go/httpapi.go.
use llm_openresty.Base.{
  ◌≡◌, ◌≢◌, ap, ◌∙◌, false, some, [], ◌∷◌, ◌++◌, Text, text_eq, text_eq_iff, cut_byte-append, Lacks,
  if◌then◌else◌, arith,
}
use llm_openresty.Listener.Api.{
  Base64, no_cursor, cursor, bar, make_cursor, split_cursor, decoded_cursor, parse_cursor,
}

-- What package encoding/base64 says: decoding undoes encoding, and the encoding of some bytes is not empty.
pub record IsBase64 (base64 : Base64) : Type 0 where
  pub decodes : (s : Text) → base64.decode (base64.encode s) ≡ some s
  pub nonempty : (s : Text) → s ≢ [] → base64.encode s ≢ []

-- A cursor of a time without a bar and of any request id is parsed as these two.
pub parse_cursor-make_cursor :
    (base64 : Base64) (ts id : Text)
    → IsBase64 base64
    → Lacks bar ts
    → parse_cursor base64 (make_cursor base64 ts id) ≡ cursor ts id
unfolding parse_cursor make_cursor
parse_cursor-make_cursor base64 ts id law h =
    ap
      (λ b.
        if b then no_cursor else decoded_cursor (base64.decode (base64.encode (ts ++ bar ∷ id))))
      not_empty
    ∙ ap decoded_cursor (law.decodes (ts ++ bar ∷ id))
    ∙ ap split_cursor (cut_byte-append bar ts id h)
  where
    some_bytes : (s : Text) → s ++ bar ∷ id ≢ []
    some_bytes [] e = cc
    some_bytes (c ∷ s) e = cc

    not_empty : text_eq (base64.encode (ts ++ bar ∷ id)) [] ≡ false
    not_empty = ground (
      arith,
      text_eq_iff (base64.encode (ts ++ bar ∷ id)) [],
      law.nonempty (ts ++ bar ∷ id) (some_bytes ts),
    )
