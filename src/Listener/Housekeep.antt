-- ===== src/Listener/Housekeep.antt =====
-- housekeep of bodylog-listener-go/main.go: archiving of past days, leftovers of crashes, files of the
-- old layout, and the conversion of details. What the operating system, tar, gzip and DuckDB answer is
-- a field of Tools.
pub mod Verify
pub mod Names
pub mod Step
pub mod Pass
pub mod Progress
pub mod Rows
pub mod Details
pub mod Legacy
mod Examples
use llm_openresty.Base.{
  ℕ, Bool, true, false, not, ◌&&◌, ◌||◌, Option, none, some, List, [], ◌∷◌, ◌++◌, Text, codes,
  text_eq, text_lt, text_Eq, has_prefix, has_suffix, trim_suffix, if◌then◌else◌, any, keep, nat_eq,
  length,
}
use llm_openresty.Base.Dict.{Dict, get, put, remove}
use llm_openresty.Listener.Files.{is_date_name, tar_gz, jsonl, parquet}

-- An entry of a directory: a directory with its files by their path from the parent, or a file.
pub data Item : Type 0 where
  tree : Dict Text Text → Item
  blob : Text → Item

abbrev pub Disk : Type 0
Disk = Dict Text Item

-- What tar.Reader gives: a header, with whether the body reads to its end, or an error.
pub data TarStep : Type 0 where
  header : Text → Bool → Bool → TarStep
  broken : TarStep

-- How a COPY ends, with the file it leaves.
pub data Copy : Type 0 where
  done : Text → Copy
  failed : Option Text → Copy

pub record Tools : Type 0 where
  -- The random part of the name that os.CreateTemp chooses, or its error.
  pub temp : Text → Option Text
  -- Whether filepath.Walk gets through a directory, in tarGzDir and in verifyTarGz.
  pub walks : Text → Bool
  pub walks_again : Text → Bool
  -- The tar writer: WriteHeader and io.Copy of a member, the three calls of Close, and the file's bytes.
  pub headed : Text → Bool
  pub copied : Text → Bool
  pub closed : Bool
  pub archive : Dict Text Text → Text
  -- os.Open and gzip.NewReader, with what tar.Reader gives up to io.EOF.
  pub unpack : Text → Option (List TarStep)
  pub renames : Text → Bool
  -- os.Remove succeeds, and what os.RemoveAll leaves of a directory, with its error.
  pub removes : Text → Bool
  pub leaves : Text → Option Item
  -- os.Open; os.Create of gzipFile, and what it writes.
  pub opens : Text → Bool
  pub creates : Text → Bool
  pub gzips : Text → Bool × Text
  -- duckDB, with what a COPY of a file makes.
  pub copies : Option (Text → Copy)

-- os.Stat(...) with a nil error.
abbrev pub is_some : Option Item → Bool
is_some none = false
is_some (some n) = true

abbrev pub stat : Disk → Text → Bool
stat d name = is_some (get d name)

-- os.Remove
abbrev pub remove_file : Tools → Text → Disk → Disk
remove_file w name d = if w.removes name then remove d name else d

-- os.RemoveAll
abbrev pub remaining : Option Item → Text → Disk → Disk
remaining none name d = remove d name
remaining (some n) name d = put d name n

abbrev pub remove_all : Tools → Text → Disk → Disk
remove_all w name d = remaining (w.leaves name) name d

abbrev pub files_of : Option Item → Dict Text Text
files_of none = []
files_of (some (blob b)) = []
files_of (some (tree fs)) = fs

abbrev pub bytes_of : Option Item → Text
bytes_of none = []
bytes_of (some (blob b)) = b
bytes_of (some (tree fs)) = []

-- The loop of verifyTarGz over the members: the names that are not directories.
unfoldable pub read_members : List TarStep → Option (List Text)
read_members [] = some []
read_members (broken ∷ l) = none
read_members (header name is_dir body ∷ l) =
    let rest = read_members l in
    if not body
    then none
    else elim rest [ none ↦ none | some got ↦ some (if is_dir then got else name ∷ got) ]

-- Whether a name of the directory is missing.
unfoldable pub missing : Dict Text Text → List Text → List Text
missing [] got = []
missing ((name, b) ∷ want) got =
    let rest = missing want got in if any (text_eq name) got then rest else name ∷ rest

abbrev pub all_there : Dict Text Text → Option (List Text) → Bool
all_there want none = false
all_there want (some got) = nat_eq (length (missing want got)) 0

abbrev pub none_missing : Dict Text Text → Option (List TarStep) → Bool
none_missing want none = false
none_missing want (some l) = all_there want (read_members l)

-- verifyTarGz returns nil.
unfoldable pub verify_tar_gz : Tools → Text → Dict Text Text → Text → Bool
unfolding read_members missing
verify_tar_gz w src want bytes = w.walks_again src && none_missing want (w.unpack bytes)

-- The function that filepath.Walk calls in tarGzDir, for a file.
abbrev pub add_member : Tools → Text → Bool
add_member w name = w.headed name && (w.opens name && w.copied name)

unfoldable pub add_members : Tools → Dict Text Text → Bool
add_members w [] = true
add_members w ((name, b) ∷ fs) =
    let rest = add_members w fs in if add_member w name then rest else false

unfoldable pub packs : Tools → Text → Dict Text Text → Bool
unfolding add_members
packs w src fs = w.walks src && (add_members w fs && w.closed)

-- tarGzDir, with the deferred removal of the temporary file; the Boolean is that it returns nil.
abbrev pub finish_tar : Tools → Text → Text → Text → Bool → Bool → Disk → Bool × Disk
finish_tar w dst tmp bytes false renames d = (false, remove_file w tmp d)
finish_tar w dst tmp bytes true false d = (false, remove_file w tmp d)
finish_tar w dst tmp bytes true true d = (true, put (remove d tmp) dst (blob bytes))

abbrev pub tmp_dash : Text
tmp_dash = codes ".tmp-"

abbrev pub pack_into : Tools → Text → Text → Option Text → Disk → Bool × Disk
pack_into w name dst none d = (false, d)
pack_into w name dst (some suffix) d =
    let fs = files_of (get d name) in
    let bytes = w.archive fs in
    finish_tar w dst (dst ++ (tmp_dash ++ suffix)) bytes
      (packs w name fs && verify_tar_gz w name fs bytes) (w.renames dst)
      (put d (dst ++ (tmp_dash ++ suffix)) (blob bytes))

unfoldable pub tar_gz_dir : Tools → Text → Text → Disk → Bool × Disk
unfolding packs verify_tar_gz
tar_gz_dir w name dst d = pack_into w name dst (w.temp dst) d

-- gzipFile; os.Create leaves the file behind an error.
abbrev pub gzip_to : Tools → Text → Text → Bool → Bool → Disk → Bool × Disk
gzip_to w src dst false creates d = (false, d)
gzip_to w src dst true false d = (false, d)
gzip_to w src dst true true d =
    let (ok, bytes) = w.gzips (bytes_of (get d src)) in (ok, put d dst (blob bytes))

unfoldable pub gzip_file : Tools → Text → Text → Disk → Bool × Disk
gzip_file w src dst d = gzip_to w src dst (w.opens src) (w.creates dst) d

-- strings.Contains
abbrev pub contains : Text → Text → Bool
contains [] sub = has_prefix [] sub
contains (c ∷ s) sub = has_prefix (c ∷ s) sub || contains s sub

abbrev pub is_leftover : Text → Bool
is_leftover name = has_suffix name (codes ".tar.gz.tmp") || contains name (codes ".tar.gz.tmp-")

-- The case of a past day's directory.
abbrev pub drop_if : Tools → Text → Bool × Disk → Disk
drop_if w name (ok, d) = if ok then remove_all w name d else d

unfoldable pub archive_day : Tools → Text → Disk → Disk
unfolding tar_gz_dir
archive_day w name d =
    if stat d (name ++ tar_gz)
    then remove_all w name d
    else drop_if w name (tar_gz_dir w name (name ++ tar_gz) d)

-- The case of a file of the old layout.
abbrev pub gz : Text
gz = codes ".gz"

abbrev pub unlink_if : Tools → Text → Bool × Disk → Disk
unlink_if w name (ok, d) = if ok then remove_file w name d else d

unfoldable pub compress_legacy : Tools → Text → Disk → Disk
unfolding gzip_file
compress_legacy w name d =
    if stat d (name ++ gz) then d else unlink_if w name (gzip_file w name (name ++ gz) d)

-- The switch of housekeep for an entry.
abbrev pub sweep_file : Tools → Text → Text → Disk → Disk
sweep_file w today name d =
    if is_leftover name
    then remove_file w name d
    else if has_suffix name jsonl
        && (not (text_eq (trim_suffix name jsonl) today) && is_date_name (trim_suffix name jsonl))
    then compress_legacy w name d
    else d

abbrev pub sweep : Tools → Text → Text → Item → Disk → Disk
sweep w today name (tree fs) d =
    if is_date_name name && not (text_eq name today) then archive_day w name d else d
sweep w today name (blob b) d = sweep_file w today name d

unfoldable pub sweep_all : Tools → Text → List (Text × Item) → Disk → Disk
unfolding archive_day compress_legacy
sweep_all w today [] d = d
sweep_all w today ((name, n) ∷ l) d = sweep_all w today l (sweep w today name n d)

-- The conversion of one file of details: COPY, and the removal of what a failed one has written.
abbrev pub written : Option Text → Text → Disk → Disk
written none name d = d
written (some b) name d = put d name (blob b)

abbrev pub converted : Tools → Text → Text → Copy → Disk → Disk
converted w src dst (done b) d = remove_file w src (put d dst (blob b))
converted w src dst (failed out) d = remove_file w dst (written out dst d)

abbrev pub convert : Tools → Option (Text → Copy) → Text → Text → Disk → Disk
convert w none src dst d = d
convert w (some copy) src dst d = converted w src dst (copy (bytes_of (get d src))) d

abbrev pub rotate_day : Tools → Text → Text → Disk → Disk
rotate_day w name dst d = if stat d dst then remove_file w name d else convert w w.copies name dst d

unfoldable pub rotate_file : Tools → Text → Text → Text → Disk → Disk
rotate_file w today cutoff name d =
    let date = trim_suffix name jsonl in
    if has_suffix name jsonl
      && (is_date_name date && not (text_eq date today || text_lt date cutoff))
    then rotate_day w name (date ++ parquet) d
    else d

abbrev pub rotate_item : Tools → Text → Text → Text → Item → Disk → Disk
rotate_item w today cutoff name (tree fs) d = d
rotate_item w today cutoff name (blob b) d = rotate_file w today cutoff name d

-- rotateDetails; a directory that cannot be read is left alone.
unfoldable pub rotate_all : Tools → Text → Text → List (Text × Item) → Disk → Disk
unfolding rotate_file
rotate_all w today cutoff [] d = d
rotate_all w today cutoff ((name, n) ∷ l) d =
    rotate_all w today cutoff l (rotate_item w today cutoff name n d)

abbrev pub rotate_details : Tools → Text → Text → Option Disk → Option Disk
rotate_details w today cutoff none = none
rotate_details w today cutoff (some d) = some (rotate_all w today cutoff d d)

-- housekeep on BODYLOG_DIR and its metrics/details.
unfoldable pub housekeep :
    Tools → Text → Text → Option Disk → Option Disk → Option Disk × Option Disk
unfolding sweep_all rotate_all
housekeep w today cutoff none details = (none, details)
housekeep w today cutoff (some d) details =
    (some (sweep_all w today d d), rotate_details w today cutoff details)
