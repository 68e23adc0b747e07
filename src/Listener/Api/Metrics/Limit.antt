-- ===== src/Listener/Api/Metrics/Limit.antt =====
-- How many rows an answer of metricsHandler of bodylog-listener-go/httpapi.go has.
use llm_openresty.Base.{
  ℕ, zero, suc, ◌≤◌, Bool, true, false, ◌&&◌, Option, none, some, List, [], ◌∷◌, Text, text_eq,
  nat_eq, length, arith, if◌then◌else◌,
}
use llm_openresty.Listener.Api.{Base64, auth_ok, parse_cursor}
use llm_openresty.Listener.Api.Metrics.{
  Go, Params, Reply, failure, success, unauthorized, Row, RowPage, and_then, limit_of,
  smaller_limit, scan_rows, page_of, queried, empty_page, answer_until, with_duckdb,
  metrics_handler, lower_of, lower_time, files_of, where_of, sql_text, parse_time_param,
}

abbrev pub Holds : {A : Type 0} → (A → Type 0) → Reply A → Type 0
Holds P (failure f) = Unit
Holds P (success x) = P x

and_then-Holds :
    {A B : Type 0} (P : B → Type 0) (r : Reply A) (k : A → Reply B)
    → ((x : A) → Holds P (k x))
    → Holds P (and_then r k)
and_then-Holds P (failure f) k h = tt
and_then-Holds P (success x) k h = h x

smaller_limit-le : (max : ℕ) (o : Option ℕ) → smaller_limit max o ≤ max
smaller_limit-le max none = omega arith
smaller_limit-le max (some n) = ground arith

limit_of-le : (go : Go) (max : ℕ) (v : Text) → limit_of go max v ≤ max
unfolding limit_of
limit_of-le go max v = pick (text_eq v [])
  where
    pick : (b : Bool) → (if b then max else smaller_limit max (go.atoi v)) ≤ max
    pick true = omega arith
    pick false = smaller_limit-le max (go.atoi v)

length-scan_rows : (n : ℕ) (rows : List Row) → length (scan_rows n rows).0 ≤ n
unfolding scan_rows
length-scan_rows n [] = omega arith
length-scan_rows zero (r ∷ rows) = omega arith
length-scan_rows (suc n) (r ∷ rows) = omega (arith, length-scan_rows n rows)

-- What a page of at most `max` rows is.
abbrev pub Short : ℕ → RowPage → Type 0
Short max p = length p.rows ≤ max

module _ (go : Go) (shown : ℕ → Text) (base64 : Base64) (exists : Text → Bool) (max : ℕ)
    (q : Params) where
  queried-Short :
      (limit : ℕ) (o : Option (List Row))
      → limit ≤ max
      → Holds (Short max) (queried go shown base64 limit o)
  unfolding page_of
  queried-Short limit none h = tt
  queried-Short limit (some rows) h = omega (arith, length-scan_rows limit rows, h)

  answer_until-Short :
      (query : Text → Option (List Row)) (o : Option ℕ)
      → Holds (Short max) (answer_until go shown base64 exists query max q o)
  answer_until-Short query none = tt
  answer_until-Short query (some end) =
      and_then-Holds (Short max) (lower_of go (parse_cursor base64 q.cursor) q.start end) _ (λ lo.
        pick
          (nat_eq (length (files_of go exists (lower_time lo) end).0) 0
            && nat_eq (length (files_of go exists (lower_time lo) end).1) 0)
          (and_then (where_of go q end lo) (λ conditions.
            queried go shown base64 (limit_of go max q.limit) (
              query (
                sql_text go (files_of go exists (lower_time lo) end) conditions
                  (limit_of go max q.limit)))))
          (and_then-Holds (Short max) (where_of go q end lo) _
            (λ conditions. queried-Short (limit_of go max q.limit) _ (limit_of-le go max q.limit))))
    where
      pick :
          (b : Bool) (r : Reply RowPage)
          → Holds (Short max) r
          → Holds (Short max) (if b then success empty_page else r)
      pick true r h = omega arith
      pick false r h = h

  with_duckdb-Short :
      (duckdb : Option (Text → Option (List Row)))
      → Holds (Short max) (with_duckdb go shown base64 exists duckdb max q)
  with_duckdb-Short none = tt
  with_duckdb-Short (some query) = answer_until-Short query (parse_time_param go q.end)

-- No answer of metricsHandler has more rows than the configured maximum, whatever limit is asked for and
-- however many rows the database gives.
pub metrics_handler-Short :
    (go : Go) (shown : ℕ → Text) (base64 : Base64) (exists : Text → Bool)
    (duckdb : Option (Text → Option (List Row))) (max : ℕ) (http_token authorization token : Text)
    (q : Params)
    → Holds
        (Short max)
        (metrics_handler go shown base64 exists duckdb max http_token authorization token q)
unfolding metrics_handler
metrics_handler-Short go shown base64 exists duckdb max http_token authorization token q =
    pick (auth_ok http_token authorization token)
  where
    pick :
        (b : Bool)
        → Holds
            (Short max)
            (if b then with_duckdb go shown base64 exists duckdb max q else failure unauthorized)
    pick true = with_duckdb-Short go shown base64 exists max q duckdb
    pick false = tt
