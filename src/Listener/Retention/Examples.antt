-- ===== src/Listener/Retention/Examples.antt =====
-- A retention pass over two archives.
use llm_openresty.Base.{
  ℕ, ◌-◌, ◌^◌, ◌<◌, ◌≡◌, refl, List, [], ◌∷◌, ◌++◌, none, some, codes, true, false, arith, keep,
  take, has_suffix, trim_suffix, text_lt,
}
use llm_openresty.Listener.Files.{Node, is_date_name}
use llm_openresty.Listener.Retention.Candidates.{
  Candidate, root, archive_date, archives_of, insert_sorted, sort_candidates, prune_candidates,
}
use llm_openresty.Listener.Retention.Pass.{World, DiskState, prune, limit_of}
use llm_openresty.Listener.Retention.Sizes.{sizes}
use llm_openresty.Listener.Retention.Order.{OldestFirst}
use llm_openresty.Listener.Retention.Age.{old, young}
use llm_openresty.Listener.Retention.Disk.{
  candidates, need_of, below, IsPressed, prune-quiet, prune-batch, prune_below_limit,
}

abbrev archive : ℕ → Node
archive n = record { is_dir = false; size = n }

abbrev world : ℕ → World
world used = record {
  now = 10 ^ 12;
  today = codes "2024-03-05";
  archive_cutoff = codes "2024-02-01";
  details_cutoff = codes "2024-02-01";
  has_duckdb = false;
  disk_usage_pct = 50;
  fs = record {
    root =
        some (
          (codes "2024-03-01.tar.gz", archive 300) ∷ (codes "2024-01-01.tar.gz", archive 100) ∷ []);
    details = none;
  };
  disk_stat = some (used, 1000);
  removable = λ c. true;
}

abbrev idle_state : DiskState
idle_state = record { last_disk_batch = none; last_disk_warn = none }

abbrev january : Candidate
january = record {
  date = codes "2024-01-01";
  place = root;
  name = codes "2024-01-01.tar.gz";
  size = 100;
}

abbrev march : Candidate
march = record {
  date = codes "2024-03-01";
  place = root;
  name = codes "2024-03-01.tar.gz";
  size = 300;
}

two_candidates : (used : ℕ) → candidates (world used) ≡ january ∷ march ∷ []
unfolding prune_candidates sort_candidates insert_sorted archives_of archive_date is_date_name
    has_suffix trim_suffix text_lt
two_candidates used = refl

pressed : IsPressed (world 700) idle_state 700 1000
unfolding prune_candidates sort_candidates insert_sorted archives_of archive_date is_date_name
    has_suffix trim_suffix text_lt sizes keep
pressed = record {
  stat = refl;
  on = omega arith;
  total_pos = omega arith;
  at_limit = omega arith;
  warm = refl;
  possible = omega arith;
  fits = omega arith;
}

prune-quiet_example : (prune (world 300) idle_state).0 ≡ old (world 300) (candidates (world 300))
prune-quiet_example =
    prune-quiet (world 300) idle_state
      (unfold prune_candidates sort_candidates insert_sorted archives_of archive_date is_date_name
          has_suffix trim_suffix text_lt sizes in
        omega arith)
      (below 300 1000 refl (
        unfold prune_candidates sort_candidates insert_sorted archives_of archive_date is_date_name
          has_suffix trim_suffix text_lt sizes keep in
        omega arith))

prune-batch_example :
    (deleted : List Candidate) × (k : ℕ) × ((prune (world 700) idle_state) ≡ (
      old (world 700) (candidates (world 700)) ++ deleted,
      record idle_state { last_disk_batch = some (10 ^ 12) },
    ))
    × (deleted ≡ keep (world 700).removable (take k (young (world 700) (candidates (world 700)))))
    × OldestFirst (young (world 700) (candidates (world 700)))
    × ((init : List Candidate) (last : Candidate)
        → deleted ≡ init ++ last ∷ []
        → sizes init < need_of (world 700) 700 1000)
prune-batch_example = prune-batch (world 700) idle_state 700 1000 pressed

prune_below_limit_example : 700 - sizes (prune (world 700) idle_state).0 < limit_of 1000 50
prune_below_limit_example =
    prune_below_limit (world 700) idle_state 700 1000 pressed (omega arith) (λ c. refl)
