-- ===== src/Listener/Bucket/Examples.antt =====
-- A closed bucket and one late request.
use llm_openresty.Base.{◌≡◌, Bool, true, false, some, List, [], ◌∷◌, codes, add64, sub64, arith}
use llm_openresty.Listener.Bucket.{
  Bucket, Entry, new_bucket, count_entry, close_bucket, late, flush_dirty, later, delta_of,
}
use llm_openresty.Listener.Bucket.Merged.{sums, later-sums, later-frt_sum_ms}

abbrev request : Entry
request = record {
  status = 200;
  prompt = 10;
  cached = 4;
  compl = 6;
  total = 16;
  req_bytes = 100;
  resp_bytes = 200;
  rt_ms = 1500;
  frt = some 300;
}

abbrev closed : Bucket
closed = new_bucket 60 (codes "10.0.0.7:8000") (codes "true")

abbrev late_requests : List (Entry × Bool)
late_requests = (request, true) ∷ (request, false) ∷ []

later-sums_example :
    sums (flush_dirty (later late_requests (close_bucket closed))).merged
    ≡ sums (later late_requests (close_bucket closed)).cur
unfolding later late count_entry flush_dirty delta_of add64 sub64
later-sums_example =
    later-sums closed late_requests
      (
        omega arith,
        (
          omega arith,
          (
            omega arith,
            (
              omega arith,
              (
                omega arith,
                (
                  omega arith,
                  (omega arith, (omega arith, (omega arith, (omega arith, (omega arith, tt))))),
                ),
              ),
            ),
          ),
        ),
      )
      (λ e. omega arith)

later-frt_sum_ms_example :
    (later late_requests (close_bucket closed)).merged.frt_sum_ms
    ≡ (close_bucket closed).merged.frt_sum_ms
later-frt_sum_ms_example = later-frt_sum_ms late_requests (close_bucket closed) (omega arith)
