-- ===== src/Listener/Api/Metrics/Query.antt =====
-- The parameters of /metrics and the SQL that metricsHandler of bodylog-listener-go/httpapi.go makes of
-- them. Times are numbers; what the packages time and strconv make of a text is a field of Go.
use llm_openresty.Base.{
  ℕ, zero, suc, ◌+◌, ◌-◌, Bool, ◌&&◌, ◌||◌, Option, none, some, List, [], ◌∷◌, ◌++◌, Text, codes,
  map, text_eq, ltb, if◌then◌else◌,
}
use llm_openresty.Listener.Files.{jsonl, parquet}
use llm_openresty.Listener.Api.{Parsed, no_cursor, cursor, not_base64, malformed, sql_str}

pub record Go : Type 0 where
  -- strconv.ParseInt and time.Unix; time.Parse and time.ParseInLocation for the three layouts.
  pub unix : Text → Option ℕ
  pub rfc3339 : Text → Option ℕ
  pub local_t : Text → Option ℕ
  pub local_space : Text → Option ℕ
  -- Format with RFC3339Nano.
  pub format : ℕ → Text
  -- The paths in metrics/details begin with this.
  pub details_dir : Text
  -- The local day of a time, and its date.
  pub day_of : ℕ → ℕ
  pub date_text : ℕ → Text
  -- strconv.Atoi of a positive number; Atoi and %d; ParseFloat and %g; %d of a number.
  pub atoi : Text → Option ℕ
  pub int_text : Text → Option Text
  pub float_text : Text → Option Text
  pub decimal : ℕ → Text

abbrev pub or_try : Option ℕ → Option ℕ → Option ℕ
or_try (some t) o = some t
or_try none o = o

-- parseTimeParam
unfoldable pub parse_time_param : Go → Text → Option ℕ
parse_time_param go s =
    if text_eq s []
    then none
    else or_try (go.unix s) (or_try (go.rfc3339 s) (or_try (go.local_t s) (go.local_space s)))

pub record Params : Type 0 where
  pub end : Text
  pub cursor : Text
  pub start : Text
  pub limit : Text
  pub model : Text
  pub peer : Text
  pub status : Text
  pub min_frt : Text
  pub stream : Text

-- The answers of writeErr.
pub data Failure : Type 0 where
  unauthorized no_duckdb bad_end bad_cursor bad_cursor_ts bad_start end_before_start : Failure
  bad_status bad_min_frt bad_stream query_failed : Failure

pub data Reply (A : Type 0) : Type 0 where
  failure : Failure → Reply A
  success : A → Reply A

-- The lower end of the window: a time, or what lies behind a row.
pub data Lower : Type 0 where
  since : ℕ → Lower
  behind : ℕ → Text → Text → Lower

abbrev pub lower_time : Lower → ℕ
lower_time (since t) = t
lower_time (behind t ts id) = t

abbrev pub behind_cursor : Option ℕ → Text → Text → Reply Lower
behind_cursor none ts id = failure bad_cursor_ts
behind_cursor (some t) ts id = success (behind t ts id)

abbrev pub since_start : Option ℕ → ℕ → Reply Lower
since_start none end = failure bad_start
since_start (some t) end = if ltb t end then success (since t) else failure end_before_start

abbrev pub lower_of : Go → Parsed → Text → ℕ → Reply Lower
lower_of go not_base64 start end = failure bad_cursor
lower_of go malformed start end = failure bad_cursor
lower_of go (cursor ts id) start end = behind_cursor (parse_time_param go ts) ts id
lower_of go no_cursor start end = since_start (parse_time_param go start) end

abbrev pub smaller_limit : ℕ → Option ℕ → ℕ
smaller_limit max none = max
smaller_limit max (some n) = if ltb 0 n && ltb n max then n else max

unfoldable pub limit_of : Go → ℕ → Text → ℕ
limit_of go max v = if text_eq v [] then max else smaller_limit max (go.atoi v)

-- The loop over the days: the tables, and the files of rows of the days without one.
abbrev pub day_files : (Text → Bool) → Text → List Text × List Text → List Text × List Text
day_files exists path (parquets, jsonls) =
    if exists (path ++ parquet)
    then ((path ++ parquet) ∷ parquets, jsonls)
    else if exists (path ++ jsonl)
    then (parquets, (path ++ jsonl) ∷ jsonls)
    else (parquets, jsonls)

unfoldable pub files_from : Go → (Text → Bool) → ℕ → ℕ → List Text × List Text
files_from go exists zero d = ([], [])
files_from go exists (suc n) d =
    day_files exists (go.details_dir ++ go.date_text d) (files_from go exists n (suc d))

-- From the day of the lower end to the day behind that of the upper one.
unfoldable pub files_of : Go → (Text → Bool) → ℕ → ℕ → List Text × List Text
unfolding files_from
files_of go exists lo end =
    files_from go exists (suc (suc (go.day_of end)) - go.day_of lo) (go.day_of lo)

-- strings.Join
abbrev pub join : Text → List Text → Text
join sep [] = []
join sep (s ∷ []) = s
join sep (s ∷ t ∷ l) = s ++ (sep ++ join sep (t ∷ l))

abbrev pub file_list : List Text → Text
file_list paths = codes "[" ++ (join (codes ",") (map sql_str paths) ++ codes "]")

abbrev pub end_ts : Text
end_ts =
    codes
      "COALESCE(ts_end::TIMESTAMPTZ, to_timestamp(epoch_us(ts::TIMESTAMPTZ) / 1000000.0 + COALESCE(rt, 0)))"

abbrev pub details_columns : Text
details_columns =
    codes
      "{'ts':'VARCHAR','ts_end':'VARCHAR','request_id':'VARCHAR','source_addr':'VARCHAR','uri':'VARCHAR',"
    ++ (codes
          "'method':'VARCHAR','stream':'BOOLEAN','status':'BIGINT','peer':'VARCHAR','forwarded_to':'VARCHAR',"
        ++ (codes "'backend':'VARCHAR','mode':'VARCHAR','session_src':'VARCHAR','model':'VARCHAR',"
            ++ (codes "'finish_reason':'VARCHAR','frt':'DOUBLE','lct':'DOUBLE','rt':'DOUBLE',"
                ++ (codes "'chunk_count':'BIGINT','req_bytes':'BIGINT','resp_bytes':'BIGINT',"
                    ++ (codes
                          "'prompt_tokens':'BIGINT','completion_tokens':'BIGINT','cached_tokens':'BIGINT',"
                        ++ codes "'total_tokens':'BIGINT','reasoning_tokens':'BIGINT'}")))))

-- readDetailsJSON
abbrev pub read_details_json : Text → Text
read_details_json arg =
    codes "read_json("
    ++ (arg
        ++ (codes ", columns="
            ++ (details_columns ++ codes ", format='newline_delimited', ignore_errors=true)")))

abbrev pub branch : (Text → Text) → List Text → List Text
branch read [] = []
branch read (p ∷ ps) = (codes "SELECT * FROM " ++ read (file_list (p ∷ ps))) ∷ []

abbrev pub read_parquet : Text → Text
read_parquet arg = codes "read_parquet(" ++ (arg ++ codes ")")

abbrev pub source_of : List Text × List Text → Text
source_of (parquets, jsonls) =
    join (codes " UNION ALL BY NAME ")
      (branch read_parquet parquets ++ branch read_details_json jsonls)

-- The conditions of the window.
abbrev pub upper_clause : Go → ℕ → Text
upper_clause go end = end_ts ++ (codes " < TIMESTAMPTZ " ++ sql_str (go.format end))

abbrev pub lower_clause : Go → Lower → Text
lower_clause go (since t) = end_ts ++ (codes " >= TIMESTAMPTZ " ++ sql_str (go.format t))
lower_clause go (behind t ts id) =
    codes "("
    ++ (end_ts
        ++ (codes ", COALESCE(request_id,'')) > (TIMESTAMPTZ "
            ++ (sql_str ts ++ (codes ", " ++ (sql_str id ++ codes ")")))))

-- The optional conditions, each with its error.
abbrev pub model_clause : Text → List Text
model_clause v = if text_eq v [] then [] else (codes "model = " ++ sql_str v) ∷ []

abbrev pub peer_clause : Text → List Text
peer_clause v =
    if text_eq v []
    then []
    else (codes "(backend = " ++ (sql_str v ++ (codes " OR peer = " ++ (sql_str v ++ codes ")"))))
      ∷ []

abbrev pub parsed_clause : Text → Failure → Option Text → Reply (List Text)
parsed_clause prefix f none = failure f
parsed_clause prefix f (some n) = success ((prefix ++ n) ∷ [])

abbrev pub status_clause : Go → Text → Reply (List Text)
status_clause go v =
    if text_eq v []
    then success []
    else parsed_clause (codes "status = ") bad_status (go.int_text v)

abbrev pub min_frt_clause : Go → Text → Reply (List Text)
min_frt_clause go v =
    if text_eq v []
    then success []
    else parsed_clause (codes "frt >= ") bad_min_frt (go.float_text v)

abbrev pub stream_clause : Text → Reply (List Text)
stream_clause v =
    if text_eq v []
    then success []
    else if text_eq v (codes "true") || text_eq v (codes "1")
    then success (codes "stream = true" ∷ [])
    else if text_eq v (codes "false") || text_eq v (codes "0")
    then success (codes "stream = false" ∷ [])
    else if text_eq v (codes "null") || text_eq v (codes "unknown")
    then success (codes "stream IS NULL" ∷ [])
    else failure bad_stream

abbrev pub and_then : {A B : Type 0} → Reply A → (A → Reply B) → Reply B
and_then (failure f) k = failure f
and_then (success x) k = k x

unfoldable pub where_of : Go → Params → ℕ → Lower → Reply (List Text)
where_of go q end lo = and_then (status_clause go q.status) (λ s.
    and_then (min_frt_clause go q.min_frt) (λ f. and_then (stream_clause q.stream) (λ t. success (
      upper_clause go end
      ∷ lower_clause go lo
      ∷ (model_clause q.model ++ (peer_clause q.peer ++ (s ++ (f ++ t))))))))

unfoldable pub sql_text : Go → List Text × List Text → List Text → ℕ → Text
sql_text go files conditions limit =
    codes "SELECT * FROM ("
    ++ (source_of files
        ++ (codes ") WHERE "
            ++ (join (codes " AND ") conditions
                ++ (codes " ORDER BY "
                    ++ (end_ts
                        ++ (codes ", COALESCE(request_id,'') LIMIT " ++ go.decimal (limit + 1)))))))
