-- ===== src/Listener/Api/Metrics/Window.antt =====
-- The rows of a window of /metrics and the statement that asks for them, in DuckDB's SQL; what the query
-- of bodylog-listener-go/httpapi.go is held against.
use llm_openresty.Base.{
  ℕ, ◌+◌, ◌≡◌, refl, sym, ap, ◌∙◌, Bool, true, false, ◌&&◌, ◌||◌, Option, some, List, [], ◌∷◌, ◌++◌,
  Text, codes, Lacks, take, keep, All, ltb, leb, nat_eq, nat_eq_iff, text_eq, text_lt, arith,
  length, subst, if◌then◌else◌,
}
use llm_openresty.Listener.Api.{bar, sql_str}
use llm_openresty.Listener.Api.Metrics.Query.{
  Go, Lower, since, behind, lower_time, files_of, source_of, parse_time_param,
}
use llm_openresty.Listener.Api.Metrics.Page.{
  Value, Row, null, text, row_end_ts, any_str, duration_of, given_end, start_and_rt, ts_string,
  added_time,
}

-- A text of a time, which Go's time package and DuckDB, whose literals are read by `literal`, read alike.
pub record Reads (go : Go) (literal : Text → Option ℕ) (s : Text) (t : ℕ) : Type 0 where
  pub nonempty : text_eq s [] ≡ false
  pub plain : Lacks bar s
  pub parsed : parse_time_param go s ≡ some t
  pub meant : literal s ≡ some t

-- A column that holds the text of a time.
pub record Timed (go : Go) (literal : Text → Option ℕ) (v : Value) (t : ℕ) : Type 0 where
  pub written : Text
  pub holds : v ≡ text written
  pub reads : Reads go literal written t

-- When a request ended: at ts_end, or where that is missing, rt after ts, which Format writes as a text that
-- reads back.
pub data Ended (go : Go) (literal : Text → Option ℕ) (r : Row) (t : ℕ) : Type 0 where
  given : Timed go literal r.ts_end t → Ended go literal r t
  computed :
      r.ts_end ≡ null
      → (start : ℕ) → Timed go literal r.ts start
      → t ≡ start + duration_of r.rt
      → Reads go literal (go.format t) t
      → Ended go literal r t

-- The expression of the end of a row, and the statement for the first `n` rows that end before `end` and
-- meet a lower condition, in the order of their ends and ids.
abbrev row_end : Text
row_end =
    codes
      "COALESCE(ts_end::TIMESTAMPTZ, to_timestamp(epoch_us(ts::TIMESTAMPTZ) / 1000000.0 + COALESCE(rt, 0)))"

abbrev at_or_behind : Go → Lower → Text
at_or_behind go (since t) = row_end ++ (codes " >= TIMESTAMPTZ " ++ sql_str (go.format t))
at_or_behind go (behind t ts id) =
    codes "("
    ++ (row_end
        ++ (codes ", COALESCE(request_id,'')) > (TIMESTAMPTZ "
            ++ (sql_str ts ++ (codes ", " ++ (sql_str id ++ codes ")")))))

abbrev pub statement : Go → List Text × List Text → ℕ → Lower → ℕ → Text
statement go files end lo n =
    codes "SELECT * FROM ("
    ++ (source_of files
        ++ (codes ") WHERE "
            ++ (((row_end ++ (codes " < TIMESTAMPTZ " ++ sql_str (go.format end)))
                  ++ (codes " AND " ++ at_or_behind go lo))
                ++ (codes " ORDER BY "
                    ++ (row_end ++ (codes ", COALESCE(request_id,'') LIMIT " ++ go.decimal n))))))

module _ (shown : ℕ → Text) (ends : Row → ℕ) where
  -- Whether a row lies behind a time and an id.
  abbrev pub follows : ℕ → Text → Row → Bool
  follows t id r = ltb t (ends r) || (nat_eq t (ends r) && text_lt id (any_str shown r.request_id))

  abbrev pub meets : Lower → Row → Bool
  meets (since t) r = leb t (ends r)
  meets (behind t ts id) r = follows t id r

  -- Strictly in the order of the ends and the ids.
  abbrev pub Ascending : List Row → Type 0
  Ascending [] = Unit
  Ascending (x ∷ xs) =
      All (λ y. follows (ends x) (any_str shown x.request_id) y ≡ true) xs × Ascending xs

  -- What DuckDB promises on the files whose rows that end before `end` are `stored`, for the first `n` rows:
  -- rows are told apart by their ends and ids; a statement for the rows from `start` on, or for those
  -- behind a stored row, whose end is written as any literal of it, gives the first rows that meet
  -- its condition. Where the days from a lower end on have no file, no row meets it.
  pub record Database (go : Go) (literal : Text → Option ℕ) (exists : Text → Bool)
      (query : Text → Option (List Row)) (start end : ℕ) (stored : List Row) (n : ℕ) : Type 0 where
    pub ordered : Ascending stored
    pub timed : All (λ r. Ended go literal r (ends r)) stored
    pub first :
        query (statement go (files_of go exists start end) end (since start) n)
        ≡ some (take n (keep (meets (since start)) stored))
    pub later :
        All
          (λ r.
            (ts : Text)
            → literal ts ≡ some (ends r)
            → query (
                statement go
                  (files_of go exists (ends r) end)
                  end
                  (behind (ends r) ts (any_str shown r.request_id))
                  n)
              ≡ some (take n (keep (follows (ends r) (any_str shown r.request_id)) stored)))
          stored
    pub no_files :
        (lo : Lower)
        → nat_eq (length (files_of go exists (lower_time lo) end).0) 0
            && nat_eq (length (files_of go exists (lower_time lo) end).1) 0
          ≡ true
        → keep (meets lo) stored ≡ []

row_end_ts-given :
    (go : Go) (literal : Text → Option ℕ) (r : Row) (t : ℕ) (h : Timed go literal r.ts_end t)
    → row_end_ts go r ≡ h.written
unfolding row_end_ts
row_end_ts-given go literal r t h =
    let s = start_and_rt go (ts_string go r.ts) (duration_of r.rt) in
    ap (λ g. if text_eq g [] then s else g) (ap (given_end go) h.holds)
    ∙ ap (λ b. if b then s else h.written) h.reads.nonempty

row_end_ts-computed :
    (go : Go) (literal : Text → Option ℕ) (r : Row) (start : ℕ) (h : Timed go literal r.ts start)
    → r.ts_end ≡ null
    → row_end_ts go r
      ≡ (if nat_eq (duration_of r.rt) 0 then h.written else go.format (start + duration_of r.rt))
unfolding row_end_ts text_eq parse_time_param
row_end_ts-computed go literal r start h e =
    let rt = duration_of r.rt in
    let s = start_and_rt go (ts_string go r.ts) rt in
    ap (λ v. if text_eq (given_end go v) [] then s else given_end go v) e
    ∙ ap (λ v. start_and_rt go (ts_string go v) rt) h.holds
    ∙ ap
        (λ b.
          if b
          then h.written
          else if nat_eq rt 0
          then h.written
          else added_time go h.written rt (parse_time_param go h.written))
        h.reads.nonempty
    ∙ ap (λ o. if nat_eq rt 0 then h.written else added_time go h.written rt o) h.reads.parsed

-- rowEndTs writes the end of a row.
pub row_end_ts-Ended :
    (go : Go) (literal : Text → Option ℕ) (r : Row) (t : ℕ)
    → Ended go literal r t
    → Reads go literal (row_end_ts go r) t
row_end_ts-Ended go literal r t (given h) =
    subst (λ s. Reads go literal s t) (sym (row_end_ts-given go literal r t h)) h.reads
row_end_ts-Ended go literal r t (computed e start h f g) =
    subst (λ s. Reads go literal s t) (sym (row_end_ts-computed go literal r start h e))
      (pick (nat_eq (duration_of r.rt) 0) refl)
  where
    pick :
        (b : Bool)
        → nat_eq (duration_of r.rt) 0 ≡ b
        → Reads go literal (if b then h.written else go.format (start + duration_of r.rt)) t
    pick true k =
        subst (λ n. Reads go literal h.written n)
          (omega (arith, f, (nat_eq_iff (duration_of r.rt) 0).0 k)) h.reads
    pick false k = subst (λ n. Reads go literal (go.format n) t) f g
