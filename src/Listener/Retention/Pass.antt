-- ===== src/Listener/Retention/Pass.antt =====
-- prune of bodylog-listener-go/retention.go: one retention pass.
use llm_openresty.Base.{
  ℕ, ◌+◌, ◌-◌, ◌*◌, ◌/◌, ◌%◌, ◌^◌, Bool, true, false, ◌||◌, Option, none, some, List, [], ◌∷◌, ◌++◌,
  Text, text_lt, ltb, leb, nat_eq, if◌then◌else◌, add64, word_mod,
}
use llm_openresty.Listener.Files.{Fs}
use llm_openresty.Listener.Retention.Candidates.{root, details, Candidate, prune_candidates}

-- diskCooldown and diskWarnEvery, in nanoseconds.
abbrev pub disk_cooldown : ℕ
disk_cooldown = 10 * 60 * 10 ^ 9

abbrev pub disk_warn_every : ℕ
disk_warn_every = 3600 * 10 ^ 9

-- What a pass reads: the clock, the two cutoff dates and today's date that it formats from it, the
-- settings, the file system, what diskStat returns (`none` is its error), and for each candidate
-- whether os.Remove succeeds.
pub record World : Type 0 where
  pub now : ℕ
  pub today : Text
  pub archive_cutoff : Text
  pub details_cutoff : Text
  pub has_duckdb : Bool
  pub disk_usage_pct : ℕ
  pub fs : Fs
  pub disk_stat : Option (ℕ × ℕ)
  pub removable : Candidate → Bool

-- The disk step's variables; `none` is Go's zero time, which is long ago.
pub record DiskState : Type 0 where
  pub last_disk_batch : Option ℕ
  pub last_disk_warn : Option ℕ

-- time.Since(t) < d
abbrev pub since_lt : ℕ → Option ℕ → ℕ → Bool
since_lt now none d = false
since_lt now (some t) d = ltb (now - t) d

-- The age test of prune.
abbrev pub expired : World → Candidate → Bool
expired w c = elim c.place [
  | root ↦ text_lt c.date w.archive_cutoff
  | details ↦ text_lt c.date w.details_cutoff
]

pub record Aged : Type 0 where
  pub removed : List Candidate
  pub freed : ℕ
  pub left : List Candidate

-- The loop of the age step: `freed` is ageFreed.
unfoldable pub age_step : World → List Candidate → ℕ → Aged
age_step w [] freed = record { removed = []; freed = freed; left = [] }
age_step w (c ∷ cs) freed = elim (expired w c) [
  | true ↦ elim (w.removable c) [
    | true ↦
        let rest = age_step w cs (add64 freed c.size) in record rest { removed = c ∷ rest.removed }
    | false ↦ age_step w cs freed
  ]
  | false ↦ let rest = age_step w cs freed in record rest { left = c ∷ rest.left }
]

-- The loop of the disk step: the files that it removes, in order.
unfoldable pub disk_step : World → ℕ → List Candidate → ℕ → List Candidate
disk_step w need [] freed = []
disk_step w need (c ∷ cs) freed = elim (leb need freed) [
  | true ↦ []
  | false ↦ elim (w.removable c) [
    | true ↦ let rest = disk_step w need cs (add64 freed c.size) in c ∷ rest
    | false ↦ disk_step w need cs freed
  ]
]

-- avail: the sum of the sizes, in uint64.
unfoldable pub avail_of : List Candidate → ℕ → ℕ
avail_of [] avail = avail
avail_of (c ∷ cs) avail = avail_of cs (add64 avail c.size)

-- limit := total * uint64(diskUsagePct) / 100
abbrev pub limit_of : ℕ → ℕ → ℕ
limit_of total pct = total * pct % word_mod / 100

pub data Disk : Type 0 where
  idle warned : Disk
  batch : List Candidate → Disk

-- What the disk step does, from the tests on total to the batch; `used` is less the age step's bytes.
unfoldable pub measured : World → DiskState → List Candidate → ℕ → ℕ → Disk
measured w st left used total =
    let limit = limit_of total w.disk_usage_pct in
    let need = used - limit + 1 in
    if nat_eq w.disk_usage_pct 0 || nat_eq total 0
    then idle
    else if ltb used limit
    then idle
    else if since_lt w.now st.last_disk_batch disk_cooldown
    then idle
    else if ltb (avail_of left 0) need
    then warned
    else batch (disk_step w need left 0)

-- From the early return on diskUsagePct to the end: what the disk step does with the candidates that
-- the age step left.
abbrev pub with_stat : World → DiskState → ℕ → List Candidate → Option (ℕ × ℕ) → Disk
with_stat w st age_freed left none = idle
with_stat w st age_freed left (some (used, total)) =
    measured w st left (if leb used age_freed then 0 else used - age_freed) total

unfoldable pub disk_decision : World → DiskState → ℕ → List Candidate → Disk
disk_decision w st age_freed left = with_stat w st age_freed left w.disk_stat

-- The end of prune: the files removed, in order, and the disk step's variables afterwards.
abbrev pub conclude : World → DiskState → List Candidate → Disk → List Candidate × DiskState
conclude w st removed idle = (removed, st)
conclude w st removed warned = (
  removed,
  if since_lt w.now st.last_disk_warn disk_warn_every
      then st
      else record st { last_disk_warn = some w.now },
)
conclude w st removed (batch cs) = (removed ++ cs, record st { last_disk_batch = some w.now })

-- prune, behind the loop of the age step.
abbrev pub with_aged : World → DiskState → Aged → List Candidate × DiskState
with_aged w st aged = conclude w st aged.removed (disk_decision w st aged.freed aged.left)

unfoldable pub prune : World → DiskState → List Candidate × DiskState
prune w st =
    with_aged w st (age_step w (prune_candidates w.fs w.has_duckdb w.today w.details_cutoff) 0)
