-- ===== src/Listener/Housekeep/Step.antt =====
-- What one entry of the directory does to a day, in housekeep of bodylog-listener-go/main.go.
use llm_openresty.Base.{
  ◌≡◌, ◌≢◌, refl, ap, ◌∙◌, Bool, true, false, not, ◌&&◌, ◌⊎◌, inl, inr, Option, none, some, ◌++◌,
  Text, length, length-append, text_eq, text_eq_iff, text_Eq, has_suffix, trim_suffix,
  if◌then◌else◌, arith,
}
use llm_openresty.Base.Dict.{get, remove}
use llm_openresty.Listener.Files.{is_date_name, tar_gz, jsonl}
use llm_openresty.Listener.Housekeep.{
  Tools, Item, tree, blob, Disk, stat, remove_file, remaining, remove_all, files_of, finish_tar,
  tmp_dash, pack_into, tar_gz_dir, gzip_file, gz, is_leftover, drop_if, archive_day, unlink_if,
  gzip_to, compress_legacy, sweep, sweep_file,
}
use llm_openresty.Listener.Housekeep.Names.{
  length-apart, get-put_away, get-remove_away, length-tar_gz, length-tmp, length-jsonl,
  is_leftover-date, is_leftover-tar_gz, is_date_name-length,
}

module _ (w : Tools) where
  pub remove_file-away :
      (k x : Text) (d : Disk) → text_eq k x ≡ false → get (remove_file w k d) x ≡ get d x
  remove_file-away k x d h = go (w.removes k)
    where
      go : (b : Bool) → get (if b then remove d k else d) x ≡ get d x
      go true = get-remove_away d k x h
      go false = refl

  pub remove_all-away :
      (k x : Text) (d : Disk) → text_eq k x ≡ false → get (remove_all w k d) x ≡ get d x
  remove_all-away k x d h = go (w.leaves k)
    where
      go : (o : Option Item) → get (remaining o k d) x ≡ get d x
      go none = get-remove_away d k x h
      go (some n) = get-put_away d k x n h

  -- gzipFile writes its destination only.
  gzip_file-away :
      (src dst x : Text) (d : Disk)
      → text_eq dst x ≡ false
      → get (gzip_file w src dst d).1 x ≡ get d x
  unfolding gzip_file
  gzip_file-away src dst x d h = go (w.opens src) (w.creates dst)
    where
      go : (b c : Bool) → get (gzip_to w src dst b c d).1 x ≡ get d x
      go false c = refl
      go true false = refl
      go true true = get-put_away d dst x _ h

  unlink_if-away :
      (k x : Text) (r : Bool × Disk) → text_eq k x ≡ false → get (unlink_if w k r) x ≡ get r.1 x
  unlink_if-away k x (true, d) h = remove_file-away k x d h
  unlink_if-away k x (false, d) h = refl

  drop_if-away :
      (k x : Text) (r : Bool × Disk) → text_eq k x ≡ false → get (drop_if w k r) x ≡ get r.1 x
  drop_if-away k x (true, d) h = remove_all-away k x d h
  drop_if-away k x (false, d) h = refl

  compress_legacy-away :
      (k x : Text) (d : Disk)
      → text_eq k x ≡ false
      → text_eq (k ++ gz) x ≡ false
      → get (compress_legacy w k d) x ≡ get d x
  unfolding compress_legacy
  compress_legacy-away k x d h g = go (stat d (k ++ gz))
    where
      go : (b : Bool) → get (if b then d else unlink_if w k (gzip_file w k (k ++ gz) d)) x ≡ get d x
      go true = refl
      go false = unlink_if-away k x (gzip_file w k (k ++ gz) d) h ∙ gzip_file-away k (k ++ gz) x d g

  -- A pack that fails touches the temporary file only.
  finish_tar-away :
      (dst tmp x bytes : Text) (ok renames : Bool) (d : Disk)
      → text_eq tmp x ≡ false
      → text_eq dst x ≡ false
      → get (finish_tar w dst tmp bytes ok renames d).1 x ≡ get d x
  finish_tar-away dst tmp x bytes false renames d h g = remove_file-away tmp x d h
  finish_tar-away dst tmp x bytes true false d h g = remove_file-away tmp x d h
  finish_tar-away dst tmp x bytes true true d h g =
      get-put_away (remove d tmp) dst x _ g ∙ get-remove_away d tmp x h

  pack_into-away :
      (k dst x : Text) (o : Option Text) (d : Disk)
      → ((suffix : Text) → text_eq (dst ++ (tmp_dash ++ suffix)) x ≡ false)
      → text_eq dst x ≡ false
      → get (pack_into w k dst o d).1 x ≡ get d x
  pack_into-away k dst x none d h g = refl
  pack_into-away k dst x (some suffix) d h g =
      let fs = files_of (get d k) in
      finish_tar-away dst (dst ++ (tmp_dash ++ suffix)) x (w.archive fs) _ (w.renames dst) _
        (h suffix) g
      ∙ get-put_away d (dst ++ (tmp_dash ++ suffix)) x _ (h suffix)

  archive_day-away :
      (k x : Text) (d : Disk)
      → text_eq k x ≡ false
      → text_eq (k ++ tar_gz) x ≡ false
      → ((suffix : Text) → text_eq ((k ++ tar_gz) ++ (tmp_dash ++ suffix)) x ≡ false)
      → get (archive_day w k d) x ≡ get d x
  unfolding archive_day tar_gz_dir
  archive_day-away k x d h g f = go (stat d (k ++ tar_gz))
    where
      go :
          (b : Bool)
          → get (if b then remove_all w k d else drop_if w k (tar_gz_dir w k (k ++ tar_gz) d)) x
            ≡ get d x
      go true = remove_all-away k x d h
      go false =
          drop_if-away k x (pack_into w k (k ++ tar_gz) (w.temp (k ++ tar_gz)) d) h
          ∙ pack_into-away k (k ++ tar_gz) x (w.temp (k ++ tar_gz)) d f g

told_apart : (p : Text → Bool) (s t : Text) → p s ≡ true → p t ≡ false → text_eq s t ≡ false
told_apart p s t h g = go (text_eq s t) refl
  where
    go : (b : Bool) → text_eq s t ≡ b → b ≡ false
    go true e = absurd (ground (arith, ap p ((text_eq_iff s t).0 e)))
    go false e = refl

-- A name that is a day's, or that of a day's archive.
pub record OfDay (x : Text) : Type 0 where
  pub size : (length x ≡ 10) ⊎ (length x ≡ 17)
  pub complete : is_leftover x ≡ false

pub day-OfDay : (x : Text) → is_date_name x ≡ true → OfDay x
day-OfDay x h = record { size = inl (is_date_name-length x h); complete = is_leftover-date x h }

pub archive-OfDay : (x : Text) → is_date_name x ≡ true → OfDay (x ++ tar_gz)
archive-OfDay x h = record { size = inr (length-tar_gz x h); complete = is_leftover-tar_gz x h }

pub size-apart : (k x : Text) → OfDay x → length k ≢ 10 → length k ≢ 17 → text_eq k x ≡ false
size-apart k x o h g = length-apart k x (λ e. elim o.size [ inl f ↦ h (e ∙ f) | inr f ↦ g (e ∙ f) ])

module _ (w : Tools) (today x : Text) (of_day : OfDay x) where
  -- A file in the directory leads to no change of a day or its archive.
  pub sweep_file-away : (k : Text) (d : Disk) → get (sweep_file w today k d) x ≡ get d x
  sweep_file-away k d =
      go (is_leftover k) refl (has_suffix k jsonl) refl (not (text_eq (trim_suffix k jsonl) today))
        (is_date_name (trim_suffix k jsonl)) refl
    where
      go :
          (b : Bool)
          → is_leftover k ≡ b
          → (c : Bool) → has_suffix k jsonl ≡ c
          → (e f : Bool) → is_date_name (trim_suffix k jsonl) ≡ f
          → get
              (if b then remove_file w k d else if c && (e && f) then compress_legacy w k d else d)
              x
            ≡ get d x
      go true h c g e f i = remove_file-away w k x d (told_apart is_leftover k x h of_day.complete)
      go false h false g e f i = refl
      go false h true g false f i = refl
      go false h true g true false i = refl
      go false h true g true true i =
          compress_legacy-away w k x d
            (size-apart k x of_day (λ n. omega (arith, n, length-jsonl k g i))
              (λ n. omega (arith, n, length-jsonl k g i)))
            (size-apart (k ++ gz) x of_day
              (λ n. omega (arith, n, length-jsonl k g i, length-append k gz))
              (λ n. omega (arith, n, length-jsonl k g i, length-append k gz)))

  -- An entry leaves the other days and their archives alone.
  pub sweep-away :
      (k : Text) (n : Item) (d : Disk)
      → (is_date_name k ≡ true → text_eq k today ≡ false → text_eq k x ≡ false)
      → (is_date_name k ≡ true → text_eq k today ≡ false → text_eq (k ++ tar_gz) x ≡ false)
      → get (sweep w today k n d) x ≡ get d x
  sweep-away k (blob b) d h g = sweep_file-away k d
  sweep-away k (tree fs) d h g = go (is_date_name k) refl (text_eq k today) refl
    where
      go :
          (b : Bool)
          → is_date_name k ≡ b
          → (c : Bool) → text_eq k today ≡ c
          → get (if b && not c then archive_day w k d else d) x ≡ get d x
      go false e c f = refl
      go true e true f = refl
      go true e false f = archive_day-away w k x d (h e f) (g e f) (λ suffix.
          size-apart _ x of_day (λ n. omega (arith, n, length-tmp k suffix e))
            (λ n. omega (arith, n, length-tmp k suffix e)))
