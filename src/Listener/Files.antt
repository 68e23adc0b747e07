-- ===== src/Listener/Files.antt =====
-- The directories that the listener keeps, BODYLOG_DIR and its metrics/details, and the file names
-- that housekeep and prune agree on.
use llm_openresty.Base.{
  ℕ, Bool, true, false, ◌&&◌, Option, none, some, [], ◌∷◌, Text, codes, leb, nat_eq, text_Eq,
}
use llm_openresty.Base.Dict.{Dict, get}

-- What os.ReadDir and os.Stat tell of a file.
pub record Node : Type 0 where
  pub is_dir : Bool
  pub size : ℕ

abbrev pub Dir : Type 0
Dir = Dict Text Node

-- A directory that cannot be read is `none`.
pub record Fs : Type 0 where
  pub root : Option Dir
  pub details : Option Dir

-- os.Stat(...) with a nil error.
abbrev pub exists : Dir → Text → Bool
exists d name = elim (get d name) [ none ↦ false | some n ↦ true ]

abbrev pub is_digit : ℕ → Bool
is_digit c = leb b'0' c && leb c b'9'

-- isDateName: YYYY-MM-DD.
unfoldable pub is_date_name : Text → Bool
is_date_name (a ∷ b ∷ c ∷ d ∷ m ∷ e ∷ f ∷ n ∷ g ∷ h ∷ []) =
    nat_eq m b'-'
    && nat_eq n b'-'
    && is_digit a
    && is_digit b
    && is_digit c
    && is_digit d
    && is_digit e
    && is_digit f
    && is_digit g
    && is_digit h
is_date_name _ = false

abbrev pub tar_gz : Text
tar_gz = codes ".tar.gz"

abbrev pub jsonl : Text
jsonl = codes ".jsonl"

abbrev pub jsonl_gz : Text
jsonl_gz = codes ".jsonl.gz"

abbrev pub parquet : Text
parquet = codes ".parquet"
