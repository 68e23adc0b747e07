-- ===== src/Listener/Api.antt =====
-- bodylog-listener-go/httpapi.go: who may ask, the cursors of /metrics and the text of its SQL.
pub mod Access
pub mod Cursor
pub mod Sql
pub mod Summary
pub mod Metrics
mod Examples
use llm_openresty.Base.{
  ℕ, zero, suc, ◌+◌, ◌-◌, ◌*◌, Bool, true, false, not, ◌&&◌, ◌||◌, Option, none, some, List, [],
  ◌∷◌, ◌++◌, Text, codes, text_eq, has_prefix, trim_prefix, cut_byte, nat_eq, if◌then◌else◌,
}

abbrev pub bearer : Text
bearer = codes "Bearer "

-- authOK on the header Authorization and the parameter token.
unfoldable pub auth_ok : Text → Text → Text → Bool
auth_ok http_token authorization token =
    if text_eq http_token []
    then true
    else if has_prefix authorization bearer && text_eq (trim_prefix authorization bearer) http_token
    then true
    else not (text_eq token []) && text_eq token http_token

-- base64.RawURLEncoding
pub record Base64 : Type 0 where
  pub encode : Text → Text
  pub decode : Text → Option Text

-- What parseCursor returns.
pub data Parsed : Type 0 where
  no_cursor : Parsed
  cursor : Text → Text → Parsed
  not_base64 malformed : Parsed

abbrev pub bar : ℕ
bar = b'|'

-- makeCursor
unfoldable pub make_cursor : Base64 → Text → Text → Text
make_cursor base64 ts id = base64.encode (ts ++ bar ∷ id)

abbrev pub split_cursor : Option (Text × Text) → Parsed
split_cursor none = malformed
split_cursor (some (ts, id)) = cursor ts id

abbrev pub decoded_cursor : Option Text → Parsed
decoded_cursor none = not_base64
decoded_cursor (some b) = split_cursor (cut_byte bar b)

-- parseCursor
unfoldable pub parse_cursor : Base64 → Text → Parsed
parse_cursor base64 s = if text_eq s [] then no_cursor else decoded_cursor (base64.decode s)

-- strings.ReplaceAll(s, "'", "''")
unfoldable pub double_quotes : Text → Text
double_quotes [] = []
double_quotes (c ∷ s) =
    let rest = double_quotes s in if nat_eq c b'\'' then b'\'' ∷ b'\'' ∷ rest else c ∷ rest

-- sqlStr
unfoldable pub sql_str : Text → Text
unfolding double_quotes
sql_str s = b'\'' ∷ (double_quotes s ++ b'\'' ∷ [])
