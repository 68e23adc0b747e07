-- ===== src/Listener/Bucket.antt =====
-- The minute bucket of the aggregator in bodylog-listener-go/main.go: what ingest counts, what
-- flushClosedMinutes writes of a bucket, and how reload merges the lines. int64 fields are patterns.
pub mod Merged
mod Examples
use llm_openresty.Base.{
  ℕ, Bool, true, false, not, ◌&&◌, Option, none, some, List, [], ◌∷◌, ◌++◌, Text, if◌then◌else◌,
  add64, sub64, slt64, nat_eq,
}

-- bucket
pub record Bucket : Type 0 where
  pub minute : ℕ
  pub peer : Text
  pub stream : Text
  pub requests : ℕ
  pub status_2xx : ℕ
  pub status_4xx : ℕ
  pub status_5xx : ℕ
  pub prompt_tok : ℕ
  pub cached_tok : ℕ
  pub compl_tok : ℕ
  pub total_tok : ℕ
  pub req_bytes : ℕ
  pub resp_bytes : ℕ
  pub rt_sum_ms : ℕ
  pub rt_max_ms : ℕ
  pub frt_sum_ms : ℕ
  pub frt_max_ms : ℕ
  pub frt_n : ℕ

-- &bucket{Minute: minute, Peer: peer, Stream: streamKey}
abbrev pub new_bucket : ℕ → Text → Text → Bucket
new_bucket minute peer stream = record {
  minute = minute;
  peer = peer;
  stream = stream;
  requests = 0;
  status_2xx = 0;
  status_4xx = 0;
  status_5xx = 0;
  prompt_tok = 0;
  cached_tok = 0;
  compl_tok = 0;
  total_tok = 0;
  req_bytes = 0;
  resp_bytes = 0;
  rt_sum_ms = 0;
  rt_max_ms = 0;
  frt_sum_ms = 0;
  frt_max_ms = 0;
  frt_n = 0;
}

-- What ingest reads of a request; `frt` is `none` where hasFrt is false.
pub record Entry : Type 0 where
  pub status : ℕ
  pub prompt : ℕ
  pub cached : ℕ
  pub compl : ℕ
  pub total : ℕ
  pub req_bytes : ℕ
  pub resp_bytes : ℕ
  pub rt_ms : ℕ
  pub frt : Option ℕ

-- if b > a { a = b }
abbrev pub max64 : ℕ → ℕ → ℕ
max64 a b = if slt64 a b then b else a

abbrev pub count_if : Bool → ℕ → ℕ
count_if b n = if b then add64 n 1 else n

-- The switch on the status: 2xx, 4xx, and everything from 500 on.
abbrev pub is_2xx : ℕ → Bool
is_2xx s = not (slt64 s 200) && slt64 s 300

abbrev pub is_4xx : ℕ → Bool
is_4xx s = not (slt64 s 400) && slt64 s 500

abbrev pub is_5xx : ℕ → Bool
is_5xx s = not (slt64 s 500)

abbrev pub plus_frt : Option ℕ → ℕ → ℕ
plus_frt none n = n
plus_frt (some ms) n = add64 n ms

abbrev pub max_frt : Option ℕ → ℕ → ℕ
max_frt none n = n
max_frt (some ms) n = max64 n ms

abbrev pub count_frt : Option ℕ → ℕ → ℕ
count_frt none n = n
count_frt (some ms) n = add64 n 1

-- The end of ingest, on the bucket that it has found.
unfoldable pub count_entry : Entry → Bucket → Bucket
count_entry e b = record b {
  requests = add64 b.requests 1;
  status_2xx = count_if (is_2xx e.status) b.status_2xx;
  status_4xx = count_if (is_4xx e.status) b.status_4xx;
  status_5xx = count_if (is_5xx e.status) b.status_5xx;
  prompt_tok = add64 b.prompt_tok e.prompt;
  cached_tok = add64 b.cached_tok e.cached;
  compl_tok = add64 b.compl_tok e.compl;
  total_tok = add64 b.total_tok e.total;
  req_bytes = add64 b.req_bytes e.req_bytes;
  resp_bytes = add64 b.resp_bytes e.resp_bytes;
  rt_sum_ms = add64 b.rt_sum_ms e.rt_ms;
  rt_max_ms = max64 b.rt_max_ms e.rt_ms;
  frt_sum_ms = plus_frt e.frt b.frt_sum_ms;
  frt_n = count_frt e.frt b.frt_n;
  frt_max_ms = max_frt e.frt b.frt_max_ms;
}

-- dst.add(src)
unfoldable pub add_bucket : Bucket → Bucket → Bucket
add_bucket dst src = record dst {
  requests = add64 dst.requests src.requests;
  status_2xx = add64 dst.status_2xx src.status_2xx;
  status_4xx = add64 dst.status_4xx src.status_4xx;
  status_5xx = add64 dst.status_5xx src.status_5xx;
  prompt_tok = add64 dst.prompt_tok src.prompt_tok;
  cached_tok = add64 dst.cached_tok src.cached_tok;
  compl_tok = add64 dst.compl_tok src.compl_tok;
  total_tok = add64 dst.total_tok src.total_tok;
  req_bytes = add64 dst.req_bytes src.req_bytes;
  resp_bytes = add64 dst.resp_bytes src.resp_bytes;
  rt_sum_ms = add64 dst.rt_sum_ms src.rt_sum_ms;
  rt_max_ms = max64 dst.rt_max_ms src.rt_max_ms;
  frt_sum_ms = add64 dst.frt_sum_ms src.frt_sum_ms;
  frt_n = add64 dst.frt_n src.frt_n;
  frt_max_ms = max64 dst.frt_max_ms src.frt_max_ms;
}

-- The delta of flushClosedMinutes; the fields of the first chunk's time keep their zero value.
unfoldable pub delta_of : Bucket → Bucket → Bucket
delta_of last cur = record (new_bucket cur.minute cur.peer cur.stream) {
  requests = sub64 cur.requests last.requests;
  status_2xx = sub64 cur.status_2xx last.status_2xx;
  status_4xx = sub64 cur.status_4xx last.status_4xx;
  status_5xx = sub64 cur.status_5xx last.status_5xx;
  prompt_tok = sub64 cur.prompt_tok last.prompt_tok;
  cached_tok = sub64 cur.cached_tok last.cached_tok;
  compl_tok = sub64 cur.compl_tok last.compl_tok;
  total_tok = sub64 cur.total_tok last.total_tok;
  req_bytes = sub64 cur.req_bytes last.req_bytes;
  resp_bytes = sub64 cur.resp_bytes last.resp_bytes;
  rt_sum_ms = sub64 cur.rt_sum_ms last.rt_sum_ms;
  rt_max_ms = cur.rt_max_ms;
}

-- A bucket that has been closed: the bucket, its entry of archiveLastWritten, and the line that the
-- lines written for it merge to when reload adds them up.
pub record Archived : Type 0 where
  pub cur : Bucket
  pub last_written : Bucket
  pub merged : Bucket

-- A bucket is closed: its snapshot is written.
abbrev pub close_bucket : Bucket → Archived
close_bucket b = record { cur = b; last_written = b; merged = b }

-- A late request, and a flush of the dirty bucket, which writes no line if no request has come.
unfoldable pub late : Entry → Archived → Archived
late e a = record a { cur = count_entry e a.cur }

unfoldable pub flush_dirty : Archived → Archived
flush_dirty a =
    let delta = delta_of a.last_written a.cur in
    if nat_eq delta.requests 0
    then a
    else record a { last_written = a.cur; merged = add_bucket a.merged delta }

-- Late requests, each with the flush behind it if there is one.
unfoldable pub later : List (Entry × Bool) → Archived → Archived
unfolding late flush_dirty
later [] a = a
later ((e, flushed) ∷ l) a = later l (if flushed then flush_dirty (late e a) else late e a)
