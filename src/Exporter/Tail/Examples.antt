-- ===== src/Exporter/Tail/Examples.antt =====
-- A file of two lines that is read in two pieces, a recovery of one row, and a new day.
use llm_openresty.Base.{
  ℕ, ◌+◌, ◌-◌, ◌≡◌, refl, true, false, ◌⊎◌, Option, none, some, List, [], ◌∷◌, ◌++◌, Text, codes,
  text_eq, All, drop, arith,
}
use llm_openresty.Exporter.Metrics.{DetailRecord}
use llm_openresty.Exporter.Tail.Lines.{
  Tailer, split_lines, read_from, read_lines, persist, drop_dedup,
}
use llm_openresty.Exporter.Tail.Follow.{Round, tail_round}
use llm_openresty.Exporter.Tail.Run.{Start, Query, Page, recover, start_run}
use llm_openresty.Exporter.Tail.Resume.{read_from-resume}
use llm_openresty.Exporter.Tail.Dedup.{Apart, recover-Apart}
use llm_openresty.Exporter.Tail.Roll.{restart-continues, tail_round-roll}

-- A row that has the line as its id.
abbrev row_of : Text → DetailRecord ℕ
row_of line = record {
  ts = codes "t";
  ts_end = [];
  request_id = line;
  stream = none;
  status = 200;
  backend = [];
  model = [];
  finish_reason = [];
  frt = 0;
  lct = 0;
  rt = 0;
  req_bytes = 0;
  resp_bytes = 0;
  prompt_tokens = 0;
  completion_tokens = 0;
  cached_tokens = 0;
  total_tokens = 0;
  reasoning_tokens = 0;
}

abbrev decode : Text → Option (DetailRecord ℕ)
decode line = some (row_of line)

abbrev tailer : Tailer ℕ
tailer = record {
  cp = record { path = []; offset = 0; last_ts = [] };
  cur_path = codes "/d/1.jsonl";
  offset = 0;
  seen = [];
  dedup_active = false;
  saved = none;
  rows = [];
  offset_gauge = 0;
  recoveries = 0;
}

-- "a\nb" and "c\n"
abbrev piece : Text
piece = b'a' ∷ b'\n' ∷ b'b' ∷ []

abbrev more : Text
more = b'c' ∷ b'\n' ∷ []

split_piece : split_lines piece ≡ ((b'a' ∷ b'\n' ∷ []) ∷ [], b'b' ∷ [])
unfolding split_lines
split_piece = refl

read_from-resume_example :
    let first = read_from decode true (some (piece, true)) tailer in
    let second =
      read_from decode true
        (some (drop (first.1.offset - tailer.offset) (piece ++ more), true))
        first.1 in
    let whole = read_from decode true (some (piece ++ more, true)) tailer in
    ((second.1.rows ≡ whole.1.rows) × (second.1.offset ≡ whole.1.offset))
    × (first.0.0 + second.0.0 ≡ whole.0.0)
read_from-resume_example = read_from-resume decode true piece more true true tailer

abbrev answer : Query → Option (Page ℕ)
answer q = some (record { page_rows = row_of piece ∷ []; truncated = false; next_cursor = [] })

abbrev begin : Start ℕ
begin = record {
  today = codes "/d/2.jsonl";
  exists = λ path. true;
  has_url = true;
  day_before = λ path. none;
  fallback = codes "t0";
  answers = answer ∷ [];
}

recover-Apart_example :
    let u = recover begin (record { path = codes "/d/1.jsonl"; offset = 9; last_ts = [] }) tailer in
    let v = (read_from decode true (some (piece, true)) u).1 in
    (new : List (DetailRecord ℕ)) × ((v.rows ≡ u.rows ++ new) × All (Apart u.rows) new)
recover-Apart_example =
    recover-Apart decode true begin (record { path = codes "/d/1.jsonl"; offset = 9; last_ts = [] })
      tailer piece true refl

restart-continues_example :
    let u = (read_from decode true (some (piece, true)) tailer).1 in
    let v = start_run begin u.saved tailer in (v.cur_path ≡ u.cur_path) × (v.offset ≡ u.offset)
restart-continues_example =
    restart-continues decode piece true tailer begin tailer (unfold split_lines in omega arith)
      (λ e. cc) refl

abbrev next_day : Round
next_day = record {
  today = codes "/d/2.jsonl";
  present = true;
  opened = λ offset. some ([], true);
  writable = true;
}

tail_round-roll_example :
    (((tail_round decode next_day tailer).cur_path ≡ next_day.today)
      × ((tail_round decode next_day tailer).offset ≡ 0))
    × ((next_day.present ≡ false)
        ⊎ (((read_from decode next_day.writable (next_day.opened tailer.offset) tailer).0.0 ≡ 0)
            × ((read_from decode next_day.writable (next_day.opened tailer.offset) tailer).0.1
                ≡ true)))
unfolding tail_round read_from read_lines split_lines drop_dedup persist text_eq
tail_round-roll_example = tail_round-roll decode next_day tailer (λ e. cc)
