-- ===== src/Listener/Api/Metrics/Walk.antt =====
-- Going through the rows of /metrics of bodylog-listener-go/httpapi.go page by page.
use llm_openresty.Base.{
  ℕ, zero, suc, ◌+◌, ◌<◌, ◌≡◌, refl, sym, ap, ◌∙◌, Bool, true, false, ◌&&◌, Option, none, some,
  List, [], ◌∷◌, ◌++◌, Text, text_eq, length, length-append, take, keep, arith, append_assoc, leb,
  lt→ltb, nat_eq, if◌then◌else◌, All, subst,
}
use llm_openresty.Listener.Api.{Base64, auth_ok, parse_cursor}
use llm_openresty.Listener.Api.Cursor.{IsBase64, parse_cursor-make_cursor}
use llm_openresty.Listener.Api.Metrics.Query.{
  Go, Params, Reply, failure, success, Lower, since, behind, lower_time, lower_of, files_of,
  limit_of, where_of, sql_text, and_then, parse_time_param, behind_cursor, since_start,
  end_before_start,
}
use llm_openresty.Listener.Api.Metrics.Page.{
  Row, RowPage, row_end_ts, any_str, last_of, next_of, scan_rows, page_of, queried, empty_page,
  answer_until, metrics_handler, cursor_of,
}
use llm_openresty.Listener.Api.Metrics.Behind.{keep-behind, All-at, All-keep}
use llm_openresty.Listener.Api.Metrics.Scanned.{scanned}
use llm_openresty.Listener.Api.Metrics.Window.{meets, Database, Ended, row_end_ts-Ended, statement}

abbrev pub onward : (Text → List Row) → Option Text → List Row
onward k none = []
onward k (some c) = k c

abbrev pub rows_on : (Text → List Row) → Reply RowPage → List Row
rows_on k (failure f) = []
rows_on k (success page) = page.rows ++ onward k page.next_cursor

-- A request for the window of two texts, without a filter.
abbrev pub window : Text → Text → Text → Text → Params
window end start limit c = record {
  end = end;
  cursor = c;
  start = start;
  limit = limit;
  model = [];
  peer = [];
  status = [];
  min_frt = [];
  stream = [];
}

module _ (go : Go) (shown : ℕ → Text) (base64 : Base64) (exists : Text → Bool)
    (query : Text → Option (List Row)) (max : ℕ) (end_text start_text limit_text : Text) where
  -- A client that follows next_cursor, for at most as many pages as the fuel says.
  abbrev pub walk : ℕ → Text → List Row
  walk zero c = []
  walk (suc fuel) c = rows_on (walk fuel) (
      metrics_handler go shown base64 exists (some query) max [] [] []
        (window end_text start_text limit_text c))

  module _ (literal : Text → Option ℕ) (n start end : ℕ) (ends : Row → ℕ) (stored : List Row)
      (limit : limit_of go max limit_text ≡ suc n)
      (end_is : parse_time_param go end_text ≡ some end)
      (start_is : parse_time_param go start_text ≡ some start) (before_end : start < end)
      (law : IsBase64 base64)
      (database : Database shown ends go literal exists query start end stored (suc (suc n))) where
    abbrev from : Text → Lower → Reply RowPage
    from c lo =
        let k = limit_of go max limit_text in
        let files = files_of go exists (lower_time lo) end in
        if nat_eq (length files.0) 0 && nat_eq (length files.1) 0
        then success empty_page
        else and_then (where_of go (window end_text start_text limit_text c) end lo)
            (λ conditions. queried go shown base64 k (query (sql_text go files conditions k)))

    -- The program's SQL is the statement, for one row more than the limit.
    from-statement :
        (c : Text) (lo : Lower)
        → from c lo ≡ (
            if nat_eq (length (files_of go exists (lower_time lo) end).0) 0
              && nat_eq (length (files_of go exists (lower_time lo) end).1) 0
            then success empty_page
            else queried go shown base64 (limit_of go max limit_text) (
                query (
                  statement go
                    (files_of go exists (lower_time lo) end)
                    end
                    lo
                    (limit_of go max limit_text + 1))))
    unfolding where_of sql_text text_eq
    from-statement c (since t) = refl
    from-statement c (behind t ts id) = refl

    abbrev Served : Lower → Type 0
    Served lo =
        query (statement go (files_of go exists (lower_time lo) end) end lo (suc (suc n)))
        ≡ some (take (suc (suc n)) (keep (meets shown ends lo) stored))

    abbrev answer : Lower → RowPage
    answer lo =
        page_of go shown base64 (suc n) (take (suc (suc n)) (keep (meets shown ends lo) stored))

    -- What metricsHandler answers, where the lower end of the request is `lo`.
    asked :
        (lo : Lower) (b : Bool)
        → nat_eq (length (files_of go exists (lower_time lo) end).0) 0
            && nat_eq (length (files_of go exists (lower_time lo) end).1) 0
          ≡ b
        → Served lo
        → (if b
            then success empty_page
            else queried go shown base64
                (suc n)
                (query (statement go (files_of go exists (lower_time lo) end) end lo (suc n + 1))))
          ≡ success (answer lo)
    unfolding page_of scan_rows
    asked lo true e m =
        ap (λ rows. success (page_of go shown base64 (suc n) (take (suc (suc n)) rows)))
          (sym (database.no_files lo e))
    asked lo false e m =
        ap
          (λ k.
            queried go shown base64 (suc n)
              (query (statement go (files_of go exists (lower_time lo) end) end lo k)))
          {y = suc (suc n)} (omega arith)
        ∙ ap (queried go shown base64 (suc n)) m

    answered :
        (c : Text) (lo : Lower)
        → lower_of go (parse_cursor base64 c) start_text end ≡ success lo
        → Served lo
        → metrics_handler go shown base64 exists
            (some query)
            max
            []
            []
            []
            (window end_text start_text limit_text c)
          ≡ success (answer lo)
    unfolding metrics_handler text_eq auth_ok
    answered c lo h m =
        ap (answer_until go shown base64 exists query max (window end_text start_text limit_text c))
          end_is
        ∙ ap (λ r. and_then r (from c)) h
        ∙ from-statement c lo
        ∙ ap
            (λ k.
              if nat_eq (length (files_of go exists (lower_time lo) end).0) 0
                && nat_eq (length (files_of go exists (lower_time lo) end).1) 0
              then success empty_page
              else queried go shown base64 k
                  (query (statement go (files_of go exists (lower_time lo) end) end lo (k + 1))))
            limit
        ∙ asked lo _ refl m

    abbrev all : List Row
    all = keep (λ r. leb start (ends r)) stored

    -- The cursor of a row asks for what lies behind the row.
    lower_of-cursor_of :
        (r : Row)
        → Ended go literal r (ends r)
        → lower_of go (parse_cursor base64 (cursor_of go shown base64 r)) start_text end
          ≡ success (behind (ends r) (row_end_ts go r) (any_str shown r.request_id))
    lower_of-cursor_of r h =
        let id = any_str shown r.request_id in
        let e = row_end_ts-Ended go literal r (ends r) h in
        ap (λ p. lower_of go p start_text end)
          (parse_cursor-make_cursor base64 (row_end_ts go r) id law e.plain)
        ∙ ap (λ o. behind_cursor o (row_end_ts go r) id) e.parsed

    lower_of-start : lower_of go (parse_cursor base64 []) start_text end ≡ success (since start)
    unfolding parse_cursor text_eq
    lower_of-start =
        ap (λ o. since_start o end) start_is
        ∙ ap (λ b. if b then success (since start) else failure end_before_start)
            (lt→ltb start end before_end)

    abbrev Suffix : ℕ → Type 0
    Suffix f =
        (before xs : List Row) (c : Text) (lo : Lower)
        → lower_of go (parse_cursor base64 c) start_text end ≡ success lo
        → Served lo
        → keep (meets shown ends lo) stored ≡ xs
        → all ≡ before ++ xs
        → length xs < f
        → walk f c ≡ xs

    abbrev Asked : Row → Type 0
    Asked r =
        (ts : Text)
        → literal ts ≡ some (ends r)
        → Served (behind (ends r) ts (any_str shown r.request_id))

    -- Behind a page that is cut short, the walk goes on with the rows behind its last one.
    behind-last :
        (f : ℕ) (before after : List Row) (r : Row)
        → all ≡ before ++ r ∷ after
        → length after < f
        → Suffix f
        → walk f (cursor_of go shown base64 r) ≡ after
    behind-last f before after r h l rec =
        let ended =
          All-at shown ends (λ x. Ended go literal x (ends x)) before after r
            (subst (All (λ x. Ended go literal x (ends x))) h (
              All-keep shown ends (λ x. Ended go literal x (ends x)) (λ x. leb start (ends x))
                stored database.timed)) in
        rec (before ++ r ∷ []) after (cursor_of go shown base64 r)
          (behind (ends r) (row_end_ts go r) (any_str shown r.request_id))
          (lower_of-cursor_of r ended)
          (All-at shown ends Asked before after r
            (subst (All Asked) h
              (All-keep shown ends Asked (λ x. leb start (ends x)) stored database.later))
            (row_end_ts go r) (row_end_ts-Ended go literal r (ends r) ended).meant)
          (keep-behind shown ends start stored before after r database.ordered h)
          (h ∙ sym (append_assoc before (r ∷ []) after)) l

    pages :
        (f : ℕ) (before xs : List Row)
        → all ≡ before ++ xs
        → length xs < suc f
        → Suffix f
        → rows_on (walk f) (success (page_of go shown base64 (suc n) (take (suc (suc n)) xs))) ≡ xs
    unfolding page_of scan_rows
    pages f before [] h l rec = refl
    pages f before (x ∷ xs) h l rec =
        let s = scanned n x xs in
        ap (λ (r : List Row × Bool). r.0 ++ onward (walk f) (next_of go shown base64 r.1 r.0)) s.out
        ∙ rest s.more refl
      where
        rest :
            (b : Bool)
            → (scanned n x xs).more ≡ b
            → (x ∷ (scanned n x xs).tl)
                ++ onward (walk f) (next_of go shown base64 b (x ∷ (scanned n x xs).tl))
              ≡ x ∷ xs
        rest false e =
            let s = scanned n x xs in ap (λ l. (x ∷ s.tl) ++ l) (sym (s.ends e)) ∙ sym s.cut
        rest true e =
            let s = scanned n x xs in
            ap (λ l. (x ∷ s.tl) ++ l)
              (behind-last f (before ++ s.init) s.after (last_of x s.tl)
                (h
                  ∙ ap (λ l. before ++ l) s.whole
                  ∙ sym (append_assoc before s.init (last_of x s.tl ∷ s.after)))
                (omega (arith, l, ap (λ l. length l) s.cut, length-append (x ∷ s.tl) s.after)) rec)
            ∙ sym s.cut

    walk-suffix :
        (fuel : ℕ) (before xs : List Row) (c : Text) (lo : Lower)
        → lower_of go (parse_cursor base64 c) start_text end ≡ success lo
        → Served lo
        → keep (meets shown ends lo) stored ≡ xs
        → all ≡ before ++ xs
        → length xs < fuel
        → walk fuel c ≡ xs
    walk-suffix zero before xs c lo p m k h l = absurd (omega (arith, l))
    walk-suffix (suc f) before xs c lo p m k h l =
        ap (rows_on (walk f)) (
          answered c lo p m
          ∙ ap (λ ys. success (page_of go shown base64 (suc n) (take (suc (suc n)) ys))) k)
        ∙ pages f before xs h l
            (λ b ys c' lo' p' m' k' h' l'. walk-suffix f b ys c' lo' p' m' k' h' l')

    -- A client of /metrics without a token that asks for the rows without a filter that ended from the time
    -- `start` on and before a later time `end`, and follows next_cursor, gets exactly these rows, each once and
    -- in the order of their ends and ids; where a page has at least one row, the client asks for more
    -- pages than there are rows, the database answers the statements as `Database` says, no two rows
    -- have the same end and id, DuckDB and Go read the times of the rows alike, and base64 decodes
    -- what it encodes.
    pub walk-all :
        (fuel : ℕ)
        → length (keep (λ r. leb start (ends r)) stored) < fuel
        → walk fuel [] ≡ keep (λ r. leb start (ends r)) stored
    walk-all fuel h =
        walk-suffix fuel [] (keep (λ r. leb start (ends r)) stored) [] (since start) lower_of-start
          database.first refl refl h
