-- ===== src/Exporter/Metrics/Examples.antt =====
-- One row of a streamed request, with numbers in place of floating-point numbers.
use llm_openresty.Base.{
  ℕ, ◌-◌, ◌*◌, ◌/◌, ◌≡◌, true, false, ◌&&◌, ◌||◌, not, ◌⊎◌, none, some, [], codes, ltb, text_eq,
  nat_eq, slt64,
}
use llm_openresty.Exporter.Metrics.{
  Floats, DetailRecord, observe, is_stream, positive, prompt_bucket,
}
use llm_openresty.Exporter.Metrics.Bucket.{InBucket, prompt_bucket_bounds, prompt_bucket_lem}
use llm_openresty.Exporter.Metrics.Updates.{
  touches, is_requests, is_lines, is_finish, is_ttft, one, observe-touches,
}

-- Milliseconds.
abbrev millis : Floats ℕ
millis = record {
  of_int = λ n. n * 1000;
  div = λ a b. a / b;
  sub = λ a b. a - b;
  below = ltb;
  f_zero = 0;
  half = 500;
  three_tenths = 300;
}

abbrev row : DetailRecord ℕ
row = record {
  ts = codes "2024-01-01T00:00:00Z";
  ts_end = [];
  request_id = codes "r1";
  stream = some true;
  status = 200;
  backend = codes "10.0.0.7:8000";
  model = codes "qwen";
  finish_reason = [];
  frt = 120;
  lct = 2000;
  rt = 2100;
  req_bytes = 10;
  resp_bytes = 20;
  prompt_tokens = 5000;
  completion_tokens = 64;
  cached_tokens = 0;
  total_tokens = 5064;
  reasoning_tokens = 0;
}

observe-touches_example :
    ((touches is_requests (observe millis (λ ip. none) 0 row) ≡ 1)
      × (touches is_lines (observe millis (λ ip. none) 0 row) ≡ 1))
    × ((touches is_finish (observe millis (λ ip. none) 0 row)
          ≡ one (not (text_eq row.finish_reason []) || nat_eq row.status 200))
        × (touches is_ttft (observe millis (λ ip. none) 0 row)
            ≡ one (positive millis row.frt && is_stream row.stream)))
observe-touches_example = observe-touches millis (λ ip. none) 0 row

prompt_bucket_lem_example :
    ((slt64 0 5000 ≡ false) × (prompt_bucket 5000 ≡ codes "unknown"))
    ⊎ ((slt64 0 5000 ≡ true) × InBucket 0 prompt_bucket_bounds (5000 / 1024) (prompt_bucket 5000))
prompt_bucket_lem_example = prompt_bucket_lem 5000
