-- ===== src/Listener/Aggregator/Examples.antt =====
-- Two requests, a flush between them, and the lines that the flush writes.
use llm_openresty.Base.{◌≡◌, refl, some, none, List, [], ◌∷◌, Text, arith, ℕ}
use llm_openresty.Listener.Bucket.{Bucket, new_bucket}
use llm_openresty.Listener.Aggregator.{Request, bkey, new_aggregator, reload}
use llm_openresty.Listener.Aggregator.Placed.{find}
use llm_openresty.Listener.Aggregator.History.{
  Op, requested, flushed_at, run, tally, entries_of, run-find,
}
use llm_openresty.Listener.Aggregator.Reload.{merged_into, reload-find}

abbrev peer : Text
peer = 49 ∷ []

abbrev stream : Text
stream = 116 ∷ []

abbrev request : ℕ → Request
request minute = record {
  minute = minute;
  peer = peer;
  stream = stream;
  entry = record {
    status = 200;
    prompt = 10;
    cached = 4;
    compl = 6;
    total = 16;
    req_bytes = 100;
    resp_bytes = 200;
    rt_ms = 1500;
    frt = some 300;
  };
}

abbrev ops : List Op
ops =
    requested (request 600)
    ∷ requested (request 660)
    ∷ flushed_at 700
    ∷ requested (request 600)
    ∷ flushed_at 800
    ∷ []

run-find_example :
    find (run ops (new_aggregator 5)) 600 (bkey peer stream)
    ≡ tally (new_bucket 600 peer stream) (entries_of ops 600 peer stream)
run-find_example =
    run-find ops 5 600 peer stream (refl, tt)
      ((refl, tt), ((refl, tt), (omega arith, ((refl, tt), (omega arith, tt)))))

abbrev lines : List Bucket
lines = new_bucket 600 peer stream ∷ new_bucket 660 peer stream ∷ new_bucket 600 peer stream ∷ []

reload-find_example :
    find (reload lines (new_aggregator 5)) 600 (bkey peer stream)
    ≡ merged_into none lines 600 (bkey peer stream)
reload-find_example = reload-find lines 5 600 (bkey peer stream)
