-- ===== src/Listener/Api/Summary/Sums.antt =====
-- The sums and peaks that a row of the summary in bodylog-listener-go/httpapi.go has, field by field.
use llm_openresty.Base.{
  ℕ, ◌≡◌, refl, ap, ◌∙◌, none, some, List, [], ◌∷◌, Text, text_eq, nat_eq, ◌&&◌, Bool,
  if◌then◌else◌, add64, slt64, keep,
}
use llm_openresty.Listener.Bucket.{Bucket, new_bucket, add_bucket}
use llm_openresty.Listener.Api.Summary.{
  peer_start, peer_totals, without_stream, merge_buckets_by_peer,
}
use llm_openresty.Listener.Api.Summary.Totals.{
  total, at_most_one, merge_buckets_by_peer-keep, peer_totals-keep,
}

-- The sum of a field of some rows behind a first value, as int64, and its peak.
abbrev pub sum_from : (Bucket → ℕ) → ℕ → List Bucket → ℕ
sum_from f n [] = n
sum_from f n (b ∷ rows) = sum_from f (add64 n (f b)) rows

abbrev pub peak_from : (Bucket → ℕ) → ℕ → List Bucket → ℕ
peak_from f n [] = n
peak_from f n (b ∷ rows) = peak_from f (if slt64 n (f b) then f b else n) rows

-- The row `b` has the sums and the peaks of some rows behind first values.
pub record Summed (first : (Bucket → ℕ) → ℕ) (rows : List Bucket) (b : Bucket) : Type 0 where
  pub requests : b.requests ≡ sum_from (λ r. r.requests) (first (λ r. r.requests)) rows
  pub status_2xx : b.status_2xx ≡ sum_from (λ r. r.status_2xx) (first (λ r. r.status_2xx)) rows
  pub status_4xx : b.status_4xx ≡ sum_from (λ r. r.status_4xx) (first (λ r. r.status_4xx)) rows
  pub status_5xx : b.status_5xx ≡ sum_from (λ r. r.status_5xx) (first (λ r. r.status_5xx)) rows
  pub prompt_tok : b.prompt_tok ≡ sum_from (λ r. r.prompt_tok) (first (λ r. r.prompt_tok)) rows
  pub cached_tok : b.cached_tok ≡ sum_from (λ r. r.cached_tok) (first (λ r. r.cached_tok)) rows
  pub compl_tok : b.compl_tok ≡ sum_from (λ r. r.compl_tok) (first (λ r. r.compl_tok)) rows
  pub total_tok : b.total_tok ≡ sum_from (λ r. r.total_tok) (first (λ r. r.total_tok)) rows
  pub req_bytes : b.req_bytes ≡ sum_from (λ r. r.req_bytes) (first (λ r. r.req_bytes)) rows
  pub resp_bytes : b.resp_bytes ≡ sum_from (λ r. r.resp_bytes) (first (λ r. r.resp_bytes)) rows
  pub rt_sum_ms : b.rt_sum_ms ≡ sum_from (λ r. r.rt_sum_ms) (first (λ r. r.rt_sum_ms)) rows
  pub frt_sum_ms : b.frt_sum_ms ≡ sum_from (λ r. r.frt_sum_ms) (first (λ r. r.frt_sum_ms)) rows
  pub frt_n : b.frt_n ≡ sum_from (λ r. r.frt_n) (first (λ r. r.frt_n)) rows
  pub rt_max_ms : b.rt_max_ms ≡ peak_from (λ r. r.rt_max_ms) (first (λ r. r.rt_max_ms)) rows
  pub frt_max_ms : b.frt_max_ms ≡ peak_from (λ r. r.frt_max_ms) (first (λ r. r.frt_max_ms)) rows

abbrev added : Bucket → List Bucket → Bucket
added c [] = c
added c (b ∷ rows) = added (add_bucket c b) rows

total-added :
    (start : Bucket → Bucket) (c : Bucket) (rows : List Bucket)
    → total start (some c) rows ≡ some (added c rows)
total-added start c [] = refl
total-added start c (b ∷ rows) = total-added start (add_bucket c b) rows

added-stream : (c : Bucket) (rows : List Bucket) → (added c rows).stream ≡ c.stream
unfolding add_bucket
added-stream c [] = refl
added-stream c (b ∷ rows) = added-stream (add_bucket c b) rows

added-Summed : (c : Bucket) (rows : List Bucket) → Summed (λ f. f c) rows (added c rows)
unfolding add_bucket
added-Summed c [] = record {
  requests = refl;
  status_2xx = refl;
  status_4xx = refl;
  status_5xx = refl;
  prompt_tok = refl;
  cached_tok = refl;
  compl_tok = refl;
  total_tok = refl;
  req_bytes = refl;
  resp_bytes = refl;
  rt_sum_ms = refl;
  frt_sum_ms = refl;
  frt_n = refl;
  rt_max_ms = refl;
  frt_max_ms = refl;
}
added-Summed c (b ∷ rows) =
    let s = added-Summed (add_bucket c b) rows in
    record {
      requests = s.requests;
      status_2xx = s.status_2xx;
      status_4xx = s.status_4xx;
      status_5xx = s.status_5xx;
      prompt_tok = s.prompt_tok;
      cached_tok = s.cached_tok;
      compl_tok = s.compl_tok;
      total_tok = s.total_tok;
      req_bytes = s.req_bytes;
      resp_bytes = s.resp_bytes;
      rt_sum_ms = s.rt_sum_ms;
      frt_sum_ms = s.frt_sum_ms;
      frt_n = s.frt_n;
      rt_max_ms = s.rt_max_ms;
      frt_max_ms = s.frt_max_ms;
    }

-- What a merge makes of the rows of a minute and a peer.
abbrev pub MergedRow : List Bucket → List Bucket → Type 0
MergedRow [] out = out ≡ []
MergedRow (r ∷ rows) out =
    (b : Bucket) × (out ≡ b ∷ []) × (b.stream ≡ []) × Summed (λ f. f r) rows b

abbrev pub of_minute_peer : ℕ → Text → Bucket → Bool
of_minute_peer minute peer b = nat_eq b.minute minute && text_eq b.peer peer

-- mergeBucketsByPeer gives exactly one row for each minute and peer that the given rows have, and none for
-- others. Its stream is empty, each of its thirteen counts is the int64 sum of that count over the
-- rows of that minute and peer, whatever their streams, and its two maxima are their greatest.
pub merge_buckets_by_peer-MergedRow :
    (rows : List Bucket) (minute : ℕ) (peer : Text)
    → MergedRow
        (keep (of_minute_peer minute peer) rows)
        (keep (of_minute_peer minute peer) (merge_buckets_by_peer rows))
merge_buckets_by_peer-MergedRow rows minute peer =
    go (keep (of_minute_peer minute peer) rows) (merge_buckets_by_peer-keep rows minute peer)
  where
    go :
        (l : List Bucket)
        → keep (of_minute_peer minute peer) (merge_buckets_by_peer rows)
          ≡ at_most_one (total without_stream none l)
        → MergedRow l (keep (of_minute_peer minute peer) (merge_buckets_by_peer rows))
    go [] e = e
    go (r ∷ l) e =
        let s = added-Summed (without_stream r) l in
        (
          added (without_stream r) l,
          e ∙ ap at_most_one (total-added without_stream (without_stream r) l),
          added-stream (without_stream r) l,
          record {
            requests = s.requests;
            status_2xx = s.status_2xx;
            status_4xx = s.status_4xx;
            status_5xx = s.status_5xx;
            prompt_tok = s.prompt_tok;
            cached_tok = s.cached_tok;
            compl_tok = s.compl_tok;
            total_tok = s.total_tok;
            req_bytes = s.req_bytes;
            resp_bytes = s.resp_bytes;
            rt_sum_ms = s.rt_sum_ms;
            frt_sum_ms = s.frt_sum_ms;
            frt_n = s.frt_n;
            rt_max_ms = s.rt_max_ms;
            frt_max_ms = s.frt_max_ms;
          },
        )

-- What the summary makes of the rows of a peer.
abbrev pub PeerRow : List Bucket → List Bucket → Type 0
PeerRow [] out = out ≡ []
PeerRow (r ∷ rows) out = (b : Bucket) × (out ≡ b ∷ []) × Summed (λ f. 0) (r ∷ rows) b

-- The summary has exactly one total for each peer that the rows have, and none for others. Each of its
-- thirteen counts is the int64 sum of that count over the rows of that peer, and its two maxima are
-- the greatest of theirs and zero.
pub peer_totals-PeerRow :
    (rows : List Bucket) (peer : Text)
    → PeerRow
        (keep (λ b. text_eq b.peer peer) rows)
        (keep (λ b. text_eq b.peer peer) (peer_totals rows))
peer_totals-PeerRow rows peer =
    go (keep (λ b. text_eq b.peer peer) rows) (peer_totals-keep rows peer)
  where
    go :
        (l : List Bucket)
        → keep (λ b. text_eq b.peer peer) (peer_totals rows) ≡ at_most_one (total peer_start none l)
        → PeerRow l (keep (λ b. text_eq b.peer peer) (peer_totals rows))
    go [] e = e
    go (r ∷ l) e =
        let s = added-Summed (new_bucket 0 r.peer []) (r ∷ l) in
        (
          added (peer_start r) l,
          e ∙ ap at_most_one (total-added peer_start (peer_start r) l),
          record {
            requests = s.requests;
            status_2xx = s.status_2xx;
            status_4xx = s.status_4xx;
            status_5xx = s.status_5xx;
            prompt_tok = s.prompt_tok;
            cached_tok = s.cached_tok;
            compl_tok = s.compl_tok;
            total_tok = s.total_tok;
            req_bytes = s.req_bytes;
            resp_bytes = s.resp_bytes;
            rt_sum_ms = s.rt_sum_ms;
            frt_sum_ms = s.frt_sum_ms;
            frt_n = s.frt_n;
            rt_max_ms = s.rt_max_ms;
            frt_max_ms = s.frt_max_ms;
          },
        )
