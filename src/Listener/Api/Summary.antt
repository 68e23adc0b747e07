-- ===== src/Listener/Api/Summary.antt =====
-- summaryHandler and mergeBucketsByPeer of bodylog-listener-go/httpapi.go.
pub mod Totals
pub mod Sums
pub mod Window
use llm_openresty.Base.{
  ◌≡◌, ap, ap₂, ◌↔◌, split_and, nat_eq_iff, text_eq_iff, ℕ, zero, suc, ◌+◌, ◌-◌, ◌*◌, ◌/◌, ◌%◌,
  Bool, true, false, not, ◌&&◌, ◌||◌, Option, none, some, List, [], ◌∷◌, ◌++◌, Text, codes, text_eq,
  text_lt, text_Eq, nat_eq, nat_Eq, ltb, leb, if◌then◌else◌, keep, map, slt64, sub64, Comparable,
}
use llm_openresty.Base.Dict.{Dict, get, put, or_default}
use llm_openresty.Listener.Bucket.{Bucket, new_bucket, add_bucket}
use llm_openresty.Listener.Aggregator.{Aggregator, Ref, Index, buckets_at, refs_of}
use llm_openresty.Listener.Api.{auth_ok}

-- The minutes asked for, where 0 stands for a parameter that is no positive number.
abbrev pub minutes_of : ℕ → ℕ → ℕ
minutes_of keep_min asked =
    let minutes = if nat_eq asked 0 then 5 else asked in
    if ltb 0 keep_min && ltb keep_min minutes then keep_min else minutes

-- The product does not wrap around for less than 2 ^ 57 minutes.
abbrev pub cutoff_of : ℕ → ℕ → ℕ
cutoff_of now minutes = let cutoff = now - minutes * 60 in cutoff - cutoff % 60

-- The stream parameter: a bad one, none, or the key that it asks for.
pub data Filter : Type 0 where
  bad_filter no_filter : Filter
  only : Text → Filter

abbrev pub filter_of : Text → Filter
filter_of s =
    if text_eq s []
    then no_filter
    else if text_eq s (codes "true") || text_eq s (codes "1")
    then only (codes "true")
    else if text_eq s (codes "false") || text_eq s (codes "0")
    then only (codes "false")
    else bad_filter

-- The rows of the archive and of the active minutes.
abbrev pub active_rows : (Ref → Bucket) → ℕ → Index → List Bucket
active_rows heap cutoff [] = []
active_rows heap cutoff ((m, bk) ∷ l) =
    let rest = active_rows heap cutoff l in
    if leb cutoff m then buckets_at heap (refs_of bk) ++ rest else rest

abbrev pub rows_since : ℕ → Aggregator → List Bucket
rows_since cutoff a =
    keep (λ (b : Bucket). leb cutoff b.minute) (buckets_at a.heap a.archive)
    ++ active_rows a.heap cutoff a.active

abbrev pub filtered : Filter → List Bucket → List Bucket
filtered (only key) rows = keep (λ (b : Bucket). text_eq b.stream key) rows
filtered no_filter rows = rows
filtered bad_filter rows = rows

-- A loop that adds every row to the bucket of its key, which the first row starts. The map is in the order
-- of the first rows.
abbrev pub joined : (Bucket → Bucket) → Bucket → Option Bucket → Bucket
joined start b none = start b
joined start b (some c) = add_bucket c b

module _ {K : Type 0} ⦃cmp : Comparable K⦄ (key : Bucket → K) (start : Bucket → Bucket) where
  unfoldable pub group : List Bucket → Dict K Bucket → Dict K Bucket
  group [] d = d
  group (b ∷ bs) d = group bs (put d (key b) (joined start b (get d (key b))))

-- perPeer
abbrev pub peer_start : Bucket → Bucket
peer_start b = add_bucket (new_bucket 0 b.peer []) b

abbrev pub per_peer : List Bucket → Dict Text Bucket
per_peer rows = group (λ (b : Bucket). b.peer) peer_start rows []

-- a / b for int64, where b is positive.
abbrev pub quot64 : ℕ → ℕ → ℕ
quot64 a b = if slt64 a 0 then sub64 0 (sub64 0 a / b) else a / b

abbrev pub average : ℕ → ℕ → ℕ
average sum n = if slt64 0 n then quot64 sum n else 0

-- peerSummary, as the bucket that it is made of and the two averages.
pub record PeerSummary : Type 0 where
  pub total : Bucket
  pub rt_avg_ms : ℕ
  pub frt_avg_ms : ℕ

abbrev pub summarized : Bucket → PeerSummary
summarized p = record {
  total = p;
  rt_avg_ms = average p.rt_sum_ms p.requests;
  frt_avg_ms = average p.frt_sum_ms p.frt_n;
}

unfoldable pub values : {K : Type 0} → Dict K Bucket → List Bucket
values [] = []
values ((k, b) ∷ d) = b ∷ values d

-- sort.Slice by peer, and by minute and peer.
abbrev pub by_peer : Bucket → Bucket → Bool
by_peer a b = text_lt a.peer b.peer

abbrev pub by_minute : Bucket → Bucket → Bool
by_minute a b = if nat_eq a.minute b.minute then text_lt a.peer b.peer else ltb a.minute b.minute

unfoldable pub insert_row : (Bucket → Bucket → Bool) → Bucket → List Bucket → List Bucket
insert_row lt b [] = b ∷ []
insert_row lt b (c ∷ l) = let rest = insert_row lt b l in if lt c b then c ∷ rest else b ∷ c ∷ l

unfoldable pub sort_rows : (Bucket → Bucket → Bool) → List Bucket → List Bucket
unfolding insert_row
sort_rows lt [] = []
sort_rows lt (b ∷ l) = insert_row lt b (sort_rows lt l)

-- mergeBucketsByPeer, whose key is the text of the minute and the peer.
abbrev pub without_stream : Bucket → Bucket
without_stream b = record b { stream = [] }

pub minute_peer_same : (a b : ℕ × Text) → (nat_eq a.0 b.0 && text_eq a.1 b.1 ≡ true) ↔ (a ≡ b)
minute_peer_same (m, p) (n, q) = (
  λ h.
      let (e, f) = split_and (nat_eq m n) (text_eq p q) h in
      ap₂ (λ x y. (x, y)) ((nat_eq_iff m n).0 e) ((text_eq_iff p q).0 f),
  λ e.
      ap₂ (λ x y. x && y) ((nat_eq_iff m n).1 (ap (λ x. x.0) e))
        ((text_eq_iff p q).1 (ap (λ x. x.1) e)),
)

instance abbrev pub minute_peer_Eq : Comparable (ℕ × Text)
minute_peer_Eq = record {
  same = λ a b. nat_eq a.0 b.0 && text_eq a.1 b.1;
  same_iff = minute_peer_same;
}

abbrev pub minute_peer : Bucket → ℕ × Text
minute_peer b = (b.minute, b.peer)

unfoldable pub merge_buckets_by_peer : List Bucket → List Bucket
unfolding group values
merge_buckets_by_peer rows = values (group minute_peer without_stream rows [])

-- The values of perPeer.
unfoldable pub peer_totals : List Bucket → List Bucket
unfolding group values
peer_totals rows = values (per_peer rows)

-- The answer of summaryHandler: the start, the minutes, the peers, and the buckets if they are asked for.
pub data Answer : Type 0 where
  unauthorized bad_stream : Answer
  summary : ℕ → ℕ → List PeerSummary → Option (List Bucket) → Answer

abbrev pub broken_down : Filter → List Bucket → List Bucket
broken_down no_filter rows = sort_rows by_minute (merge_buckets_by_peer rows)
broken_down (only key) rows = sort_rows by_minute rows
broken_down bad_filter rows = rows

abbrev pub summarize : ℕ → ℕ → Bool → Filter → List Bucket → Answer
summarize cutoff minutes breakdown f rows =
    summary cutoff minutes (map summarized (sort_rows by_peer (peer_totals rows)))
      (if breakdown then some (broken_down f rows) else none)

abbrev pub summary_of : ℕ → ℕ → Bool → Filter → Aggregator → Answer
summary_of now minutes breakdown bad_filter a = bad_stream
summary_of now minutes breakdown no_filter a =
    let cutoff = cutoff_of now minutes in
    summarize cutoff minutes breakdown no_filter (filtered no_filter (rows_since cutoff a))
summary_of now minutes breakdown (only key) a =
    let cutoff = cutoff_of now minutes in
    summarize cutoff minutes breakdown (only key) (filtered (only key) (rows_since cutoff a))

unfoldable pub summary_handler : Text → Text → Text → ℕ → Bool → Text → ℕ → Aggregator → Answer
unfolding auth_ok sort_rows merge_buckets_by_peer peer_totals
summary_handler http_token authorization token asked breakdown stream now a =
    if auth_ok http_token authorization token
    then summary_of now (minutes_of a.archive_keep_min asked) breakdown (filter_of stream) a
    else unauthorized
