-- ===== src/Exporter/Poller/Examples.antt =====
-- A counter over three polls with a restart between the last two, and a target that does not answer.
use llm_openresty.Base.{
  false, any, not, ◌&&◌, ℕ, ◌+◌, ◌≡◌, refl, Bool, Option, none, some, List, [], ◌∷◌, Text, codes,
  if◌then◌else◌,
}
use llm_openresty.Base.Dict.{Dict, get, get_or}
use llm_openresty.Exporter.Resolver.{PollTarget}
use llm_openresty.Exporter.Poller.{Poller, Answers, pair_eq, pair_Eq, tkey, poll_targets, all_ok}
use llm_openresty.Exporter.Poller.Up.{bad, poll_targets-ok}
use llm_openresty.Exporter.Poller.Rejected.{total, peaks, reported, answers_in, rejected-peaks}

abbrev b2f : Bool → ℕ
b2f b = if b then 1 else 0

abbrev fresh : Poller ℕ
fresh = record {
  sets = [];
  prev = [];
  added = [];
  poll_errors = 0;
  target_ok = [];
  poll_up = [];
  poll_last_ok = [];
}

abbrev answer : ℕ → Option (Dict Text (List (Text × ℕ)))
answer n = some ((codes "qwen3", (codes "ttft", n) ∷ []) ∷ [])

abbrev polls : List (Option (Dict Text (List (Text × ℕ))))
polls = answer 5 ∷ none ∷ answer 8 ∷ answer 2 ∷ []

rejected-peaks_example :
    total
      (codes "llm/qwen")
      (codes "qwen3")
      (codes "ttft")
      (answers_in b2f
        (codes "http://o:8080")
        (codes "llm/qwen")
        (codes "qwen3")
        (codes "ttft")
        polls
        fresh).added
    ≡ 0 + peaks 0 (reported (codes "qwen3") (codes "ttft") polls)
unfolding get_or get total
rejected-peaks_example =
    rejected-peaks b2f (codes "http://o:8080") (codes "llm/qwen") (codes "qwen3") (codes "ttft")
      polls fresh refl

abbrev target : PollTarget
target = record { base = []; route = codes "qwen3"; service = codes "llm/qwen" }

-- Every request fails.
abbrev silent : Text → Text → Answers ℕ
silent base route = record {
  route_state = none;
  tps_status = none;
  ttft_status = none;
  reject_status = none;
}

poll_targets-ok_example :
    get_or
      (poll_targets b2f
        (codes "http://o:8080")
        silent
        (target ∷ [])
        (record fresh { target_ok = all_ok (codes "http://o:8080") (target ∷ []) [] })).target_ok
      (codes "http://o:8080", codes "qwen3")
      false
    ≡ (any
          (λ t. pair_eq (tkey (codes "http://o:8080") t) (codes "http://o:8080", codes "qwen3"))
          (target ∷ [])
        && not (
            any
              (λ t.
                pair_eq (tkey (codes "http://o:8080") t) (codes "http://o:8080", codes "qwen3")
                && bad (silent (tkey (codes "http://o:8080") t).0 t.route))
              (target ∷ [])))
poll_targets-ok_example =
    poll_targets-ok b2f (codes "http://o:8080") silent (codes "http://o:8080", codes "qwen3")
      (target ∷ []) fresh
