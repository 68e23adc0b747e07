-- ===== src/Listener/Retention/Candidates.antt =====
-- pruneCandidates of bodylog-listener-go/retention.go.
use llm_openresty.Base.{
  ℕ, Bool, not, ◌&&◌, Option, none, some, List, [], ◌∷◌, ◌++◌, Text, text_eq, text_lt, has_suffix,
  trim_suffix, if◌then◌else◌,
}
use llm_openresty.Listener.Files.{
  Node, Dir, Fs, exists, is_date_name, tar_gz, jsonl, jsonl_gz, parquet,
}

-- The directory that a path is in: the paths of one directory are ordered as their last elements.
pub data Place : Type 0 where
  root details : Place

-- pruneCandidate: `place` is its `details`, and with `name` it is its `path`.
pub record Candidate : Type 0 where
  pub date : Text
  pub place : Place
  pub name : Text
  pub size : ℕ

-- The order of sort.Slice: by date, then by path.
abbrev pub candidate_lt : Candidate → Candidate → Bool
candidate_lt a b = if text_eq a.date b.date then text_lt a.name b.name else text_lt a.date b.date

unfoldable pub insert_sorted : Candidate → List Candidate → List Candidate
insert_sorted c [] = c ∷ []
insert_sorted c (d ∷ l) =
    let rest = insert_sorted c l in if candidate_lt d c then d ∷ rest else c ∷ d ∷ l

-- sort.Slice: no two candidates of a directory have the same path, so the result is determined.
unfoldable pub sort_candidates : List Candidate → List Candidate
unfolding insert_sorted
sort_candidates [] = []
sort_candidates (c ∷ l) = insert_sorted c (sort_candidates l)

-- The switch on the names in BODYLOG_DIR: the date, unless `continue` is taken.
unfoldable pub archive_date : Dir → Text → Node → Option Text
archive_date d name n =
    if n.is_dir
    then none
    else if has_suffix name tar_gz
    then some (trim_suffix name tar_gz)
    else if has_suffix name jsonl_gz
    then (if exists d (trim_suffix name jsonl_gz ++ jsonl)
        then none
        else some (trim_suffix name jsonl_gz))
    else none

-- The switch on the names in metrics/details; `has_duckdb` is `duckDB != nil`.
unfoldable pub details_date : Dir → Bool → Text → Text → Node → Option Text
details_date d has_duckdb cutoff name n =
    if n.is_dir
    then none
    else if has_suffix name parquet
    then (if exists d (trim_suffix name parquet ++ jsonl)
        then none
        else some (trim_suffix name parquet))
    else if has_suffix name jsonl
    then (if has_duckdb && not (text_lt (trim_suffix name jsonl) cutoff)
        then none
        else some (trim_suffix name jsonl))
    else none

unfoldable pub archives_of : Dir → List (Text × Node) → List Candidate
unfolding archive_date
archives_of d [] = []
archives_of d ((name, n) ∷ l) =
    let rest = archives_of d l in
    elim (archive_date d name n) [
      | none ↦ rest
      | some date ↦
          if is_date_name date
          then record { date = date; place = root; name = name; size = n.size } ∷ rest
          else rest
    ]

unfoldable pub details_of : Dir → Bool → Text → Text → List (Text × Node) → List Candidate
unfolding details_date
details_of d has_duckdb today cutoff [] = []
details_of d has_duckdb today cutoff ((name, n) ∷ l) =
    let rest = details_of d has_duckdb today cutoff l in
    elim (details_date d has_duckdb cutoff name n) [
      | none ↦ rest
      | some date ↦
          if is_date_name date && not (text_eq date today)
          then record { date = date; place = details; name = name; size = n.size } ∷ rest
          else rest
    ]

-- os.ReadDir failed: no candidate of that directory.
abbrev pub listed : Option Dir → (Dir → List Candidate) → List Candidate
listed none f = []
listed (some d) f = f d

-- pruneCandidates: archives, oldest first, and then details, oldest first.
unfoldable pub prune_candidates : Fs → Bool → Text → Text → List Candidate
unfolding sort_candidates archives_of details_of
prune_candidates fs has_duckdb today cutoff =
    sort_candidates (listed fs.root (λ d. archives_of d d))
    ++ sort_candidates (listed fs.details (λ d. details_of d has_duckdb today cutoff d))
