-- ===== src/Listener/Housekeep/Examples.antt =====
-- A directory with a past day and today's, and a file of the old layout.
use llm_openresty.Base.{
  ◌≡◌, refl, ◌↔◌, true, false, none, some, [], ◌∷◌, ◌++◌, Text, codes, text_Eq, text_eq,
}
use llm_openresty.Base.Dict.{Dict, get}
use llm_openresty.Listener.Files.{is_date_name, tar_gz, jsonl}
use llm_openresty.Listener.Housekeep.{
  Tools, tree, blob, Disk, stat, header, done, gz, verify_tar_gz, packs, compress_legacy, bytes_of,
  rotate_details,
}
use llm_openresty.Listener.Housekeep.Verify.{Covers, verify_tar_gz_iff}
use llm_openresty.Listener.Housekeep.Pass.{Kept, root_after, housekeep-Kept, or_empty}
use llm_openresty.Listener.Housekeep.Progress.{Works, housekeep-today, housekeep-archives}
use llm_openresty.Listener.Housekeep.Details.{RowsKept, rotate_details-RowsKept}
use llm_openresty.Listener.Housekeep.Legacy.{compress_legacy-stuck}

abbrev past : Text
past = codes "2026-01-01"

abbrev today : Text
today = codes "2026-01-02"

abbrev hour : Text
hour = codes "2026-01-01/14.jsonl"

abbrev files : Dict Text Text
files = (hour, 123 ∷ 125 ∷ []) ∷ []

abbrev legacy : Text
legacy = codes "2025-12-31.jsonl"

abbrev disk : Disk
disk = (past, tree files) ∷ (today, tree []) ∷ (legacy, blob (120 ∷ [])) ∷ []

abbrev tools : Tools
tools = record {
  temp = λ name. some (codes "123");
  walks = λ name. true;
  walks_again = λ name. true;
  headed = λ name. true;
  copied = λ name. true;
  closed = true;
  archive = λ fs. 31 ∷ [];
  unpack = λ bytes. some (header hour false true ∷ []);
  renames = λ name. true;
  removes = λ name. true;
  leaves = λ name. none;
  opens = λ name. true;
  creates = λ name. true;
  gzips = λ bytes. (false, 31 ∷ []);
  copies = some (λ bytes. done (80 ∷ []));
}

verify_tar_gz_iff_example :
    (verify_tar_gz tools past files (31 ∷ []) ≡ true)
    ↔ ((tools.walks_again past ≡ true) × Covers tools files (31 ∷ []))
verify_tar_gz_iff_example = verify_tar_gz_iff tools past files (31 ∷ [])

past_is_day : is_date_name past ≡ true
unfolding is_date_name
past_is_day = refl

today_is_day : is_date_name today ≡ true
unfolding is_date_name
today_is_day = refl

past_there : get disk past ≡ some (tree files)
unfolding get text_eq
past_there = refl

no_archive : get disk (past ++ tar_gz) ≡ none
unfolding get text_eq
no_archive = refl

past_is_over : text_eq past today ≡ false
unfolding text_eq
past_is_over = refl

past-Works : Works tools past files
unfolding packs verify_tar_gz text_eq
past-Works = record {
  suffix = codes "123";
  temp = refl;
  packed = refl;
  verified = refl;
  renamed = refl;
  removed = refl;
}

housekeep-Kept_example :
    Kept tools past files disk (root_after tools today (codes "2025-12-03") disk none)
housekeep-Kept_example =
    housekeep-Kept tools today (codes "2025-12-03") past files disk none past_is_day past_there

housekeep-today_example :
    get (root_after tools today (codes "2025-12-03") disk none) today ≡ get disk today
housekeep-today_example = housekeep-today tools today (codes "2025-12-03") disk none today_is_day

housekeep-archives_example :
    (get (root_after tools today (codes "2025-12-03") disk none) past ≡ none)
    × (get (root_after tools today (codes "2025-12-03") disk none) (past ++ tar_gz)
        ≡ some (blob (tools.archive files)))
housekeep-archives_example =
    housekeep-archives tools today (codes "2025-12-03") past files disk none past_is_day
      past_is_over past-Works past_there no_archive

abbrev details : Disk
details = (past ++ jsonl, blob (120 ∷ [])) ∷ []

rows_there : get details (past ++ jsonl) ≡ some (blob (120 ∷ []))
unfolding get text_eq
rows_there = refl

no_gz : stat disk (legacy ++ gz) ≡ false
unfolding get text_eq
no_gz = refl

rotate_details-RowsKept_example :
    RowsKept tools today
      (codes "2025-12-03")
      past
      past_is_day
      details
      (120 ∷ [])
      (or_empty (rotate_details tools today (codes "2025-12-03") (some details)))
rotate_details-RowsKept_example =
    rotate_details-RowsKept tools today (codes "2025-12-03") past past_is_day (120 ∷ []) details
      (unfold get in refl, tt) rows_there

compress_legacy-stuck_example :
    (get (compress_legacy tools legacy disk) (legacy ++ gz)
      ≡ some (blob (tools.gzips (bytes_of (get disk legacy))).1))
    × (compress_legacy tools legacy (compress_legacy tools legacy disk)
        ≡ compress_legacy tools legacy disk)
compress_legacy-stuck_example = compress_legacy-stuck tools tools legacy disk no_gz refl refl refl
