-- ===== src/Listener/Api/Summary/Window.antt =====
-- The minutes that summaryHandler of bodylog-listener-go/httpapi.go covers.
use llm_openresty.Base.{ℕ, ◌+◌, ◌-◌, ◌*◌, ◌%◌, ◌≤◌, ◌<◌, ◌≡◌, arith}
use llm_openresty.Listener.Api.Summary.{minutes_of, cutoff_of}

-- Some minutes are always covered, and no more than the aggregator keeps, where it has a limit.
pub minutes_of-bounds :
    (keep_min asked : ℕ)
    → (1 ≤ minutes_of keep_min asked) × (0 < keep_min → minutes_of keep_min asked ≤ keep_min)
minutes_of-bounds keep_min asked = (ground arith, ground arith)

-- The window starts at a whole minute, less than a minute before the time that the minutes reach back to, and
-- it has at least one minute and, where the aggregator has a limit, at most as many as it keeps.
pub cutoff_of-bounds :
    (keep_min asked now : ℕ)
    → (cutoff_of now (minutes_of keep_min asked) % 60 ≡ 0)
      × ((cutoff_of now (minutes_of keep_min asked) ≤ now - minutes_of keep_min asked * 60)
          × ((now - minutes_of keep_min asked * 60 < cutoff_of now (minutes_of keep_min asked) + 60)
              × ((1 ≤ minutes_of keep_min asked)
                  × (0 < keep_min → minutes_of keep_min asked ≤ keep_min))))
cutoff_of-bounds keep_min asked now = (
  whole (minutes_of keep_min asked),
  (
    before (minutes_of keep_min asked),
    (near (minutes_of keep_min asked), minutes_of-bounds keep_min asked),
  ),
)
  where
    whole : (m : ℕ) → cutoff_of now m % 60 ≡ 0
    whole m = omega arith

    before : (m : ℕ) → cutoff_of now m ≤ now - m * 60
    before m = omega arith

    near : (m : ℕ) → now - m * 60 < cutoff_of now m + 60
    near m = omega arith
