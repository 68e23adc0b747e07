-- ===== src/Listener/Api/Metrics/Examples.antt =====
-- Two rows, with a limit of five.
use llm_openresty.Base.{ℕ, true, Option, none, some, List, [], ◌∷◌, Text, codes}
use llm_openresty.Listener.Api.{Base64}
use llm_openresty.Listener.Api.Metrics.{Go, Params, Row, null, text, metrics_handler}
use llm_openresty.Listener.Api.Metrics.Limit.{Holds, Short, metrics_handler-Short}

abbrev no_time : Text → Option ℕ
no_time s = some 5

abbrev go : Go
go = record {
  unix = no_time;
  rfc3339 = no_time;
  local_t = no_time;
  local_space = no_time;
  format = λ t. 84 ∷ [];
  details_dir = [];
  day_of = λ t. 0;
  date_text = λ d. codes "2026-01-01";
  atoi = λ s. some 1;
  int_text = λ s. some s;
  float_text = λ s. some s;
  decimal = λ n. 50 ∷ [];
}

abbrev row : Text → Row
row t = record { ts_end = text t; ts = null; rt = null; request_id = null }

abbrev strip : Text → Option Text
strip [] = none
strip (c ∷ s) = some s

abbrev marked : Base64
marked = record { encode = λ s. 65 ∷ s; decode = strip }

abbrev first_row : Row
first_row = row (49 ∷ [])

abbrev second_row : Row
second_row = row (50 ∷ [])

abbrev two_rows : List Row
two_rows = first_row ∷ second_row ∷ []

abbrev params : Params
params = record {
  end = 57 ∷ [];
  cursor = [];
  start = 49 ∷ [];
  limit = [];
  model = [];
  peer = codes "p'";
  status = [];
  min_frt = [];
  stream = codes "true";
}

metrics_handler-Short_example : Holds (Short 5) (
    metrics_handler go
      (λ t. [])
      marked
      (λ path. true)
      (some (λ sql. some two_rows))
      5
      []
      []
      []
      params)
metrics_handler-Short_example =
    metrics_handler-Short go (λ t. []) marked (λ path. true) (some (λ sql. some two_rows)) 5 [] []
      [] params
