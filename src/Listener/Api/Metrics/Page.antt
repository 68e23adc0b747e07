-- ===== src/Listener/Api/Metrics/Page.antt =====
-- The rows and the cursor that metricsHandler of bodylog-listener-go/httpapi.go answers with.
use llm_openresty.Base.{
  ℕ, zero, suc, ◌+◌, Bool, true, false, ◌&&◌, Option, none, some, List, [], ◌∷◌, Text, codes,
  text_eq, nat_eq, if◌then◌else◌, length,
}
use llm_openresty.Listener.Api.{Base64, auth_ok, make_cursor, parse_cursor}
use llm_openresty.Listener.Api.Metrics.Query.{
  Go, Params, Reply, failure, success, unauthorized, no_duckdb, bad_end, query_failed, lower_of,
  lower_time, limit_of, files_of, where_of, sql_text, and_then, parse_time_param,
}

-- A column of a row as DuckDB scans it. A number, which is not negative, is kept as the Duration of so many
-- seconds and as the text that %v makes of it.
pub data Value : Type 0 where
  null : Value
  text : Text → Value
  time : ℕ → Value
  number : ℕ → Text → Value

pub record Row : Type 0 where
  pub ts_end : Value
  pub ts : Value
  pub rt : Value
  pub request_id : Value

-- tsString
abbrev pub ts_string : Go → Value → Text
ts_string go null = codes "<nil>"
ts_string go (text s) = s
ts_string go (time t) = go.format t
ts_string go (number n s) = s

-- anyStr, where %v of a time is `shown`.
abbrev pub any_str : (ℕ → Text) → Value → Text
any_str shown null = []
any_str shown (text s) = s
any_str shown (time t) = shown t
any_str shown (number n s) = s

-- getFloat, as a Duration.
abbrev pub duration_of : Value → ℕ
duration_of null = 0
duration_of (text s) = 0
duration_of (time t) = 0
duration_of (number n s) = n

abbrev pub added_time : Go → Text → ℕ → Option ℕ → Text
added_time go ts rt none = ts
added_time go ts rt (some t) = go.format (t + rt)

abbrev pub start_and_rt : Go → Text → ℕ → Text
start_and_rt go ts rt =
    if text_eq ts []
    then ts
    else if nat_eq rt 0
    then ts
    else added_time go ts rt (parse_time_param go ts)

abbrev pub given_end : Go → Value → Text
given_end go null = []
given_end go (text s) = s
given_end go (time t) = go.format t
given_end go (number n s) = s

-- rowEndTs
unfoldable pub row_end_ts : Go → Row → Text
unfolding parse_time_param
row_end_ts go r =
    if text_eq (given_end go r.ts_end) []
    then start_and_rt go (ts_string go r.ts) (duration_of r.rt)
    else given_end go r.ts_end

-- The loop over rows.Next(): the rows, and `truncated`.
unfoldable pub scan_rows : ℕ → List Row → List Row × Bool
scan_rows limit [] = ([], false)
scan_rows zero (r ∷ rows) = ([], true)
scan_rows (suc limit) (r ∷ rows) =
    let (out, truncated) = scan_rows limit rows in (r ∷ out, truncated)

pub record RowPage : Type 0 where
  pub rows : List Row
  pub truncated : Bool
  pub next_cursor : Option Text

abbrev pub last_of : Row → List Row → Row
last_of r [] = r
last_of r (s ∷ rows) = last_of s rows

abbrev pub cursor_of : Go → (ℕ → Text) → Base64 → Row → Text
cursor_of go shown base64 r = make_cursor base64 (row_end_ts go r) (any_str shown r.request_id)

abbrev pub next_of : Go → (ℕ → Text) → Base64 → Bool → List Row → Option Text
next_of go shown base64 false rows = none
next_of go shown base64 true [] = none
next_of go shown base64 true (r ∷ rows) = some (cursor_of go shown base64 (last_of r rows))

unfoldable pub page_of : Go → (ℕ → Text) → Base64 → ℕ → List Row → RowPage
unfolding scan_rows row_end_ts make_cursor
page_of go shown base64 limit rows =
    let (out, truncated) = scan_rows limit rows in
    record {
      rows = out;
      truncated = truncated;
      next_cursor = next_of go shown base64 truncated out;
    }

abbrev pub empty_page : RowPage
empty_page = record { rows = []; truncated = false; next_cursor = none }

abbrev pub queried : Go → (ℕ → Text) → Base64 → ℕ → Option (List Row) → Reply RowPage
queried go shown base64 limit none = failure query_failed
queried go shown base64 limit (some rows) = success (page_of go shown base64 limit rows)

-- metricsHandler behind the authorization and the check for DuckDB, from the end of the window on.
abbrev pub answer_until :
    Go
    → (ℕ → Text)
    → Base64
    → (Text → Bool)
    → (Text → Option (List Row))
    → ℕ
    → Params
    → Option ℕ
    → Reply RowPage
answer_until go shown base64 exists query max q none = failure bad_end
answer_until go shown base64 exists query max q (some end) =
    and_then (lower_of go (parse_cursor base64 q.cursor) q.start end) (λ lo.
      let limit = limit_of go max q.limit in
      let files = files_of go exists (lower_time lo) end in
      if nat_eq (length files.0) 0 && nat_eq (length files.1) 0
      then success empty_page
      else and_then (where_of go q end lo) (λ conditions.
        queried go shown base64 limit (query (sql_text go files conditions limit))))

abbrev pub with_duckdb :
    Go
    → (ℕ → Text)
    → Base64
    → (Text → Bool)
    → Option (Text → Option (List Row))
    → ℕ
    → Params
    → Reply RowPage
with_duckdb go shown base64 exists none max q = failure no_duckdb
with_duckdb go shown base64 exists (some query) max q =
    answer_until go shown base64 exists query max q (parse_time_param go q.end)

unfoldable pub metrics_handler :
    Go
    → (ℕ → Text)
    → Base64
    → (Text → Bool)
    → Option (Text → Option (List Row))
    → ℕ
    → Text
    → Text
    → Text
    → Params
    → Reply RowPage
unfolding auth_ok parse_cursor parse_time_param limit_of files_of where_of sql_text page_of
metrics_handler go shown base64 exists duckdb max http_token authorization token q =
    if auth_ok http_token authorization token
    then with_duckdb go shown base64 exists duckdb max q
    else failure unauthorized
