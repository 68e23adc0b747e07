-- ===== src/Listener/Housekeep/Rows.antt =====
-- The files of a day's details in rotateDetails of bodylog-listener-go/main.go, and what leaves them alone.
use llm_openresty.Base.{
  ◌≡◌, refl, sym, ap, ◌∙◌, Bool, true, false, not, ◌&&◌, ◌||◌, Option, none, some, ◌++◌, Text,
  length, length-append, text_eq, text_eq_iff, text_lt, text_Eq, has_suffix, trim_suffix,
  trim_suffix-has_suffix, if◌then◌else◌, arith,
}
use llm_openresty.Base.Dict.{get}
use llm_openresty.Listener.Files.{is_date_name, jsonl, parquet}
use llm_openresty.Listener.Housekeep.{
  Tools, Disk, Copy, done, failed, stat, remove_file, bytes_of, converted, convert, rotate_day,
  rotate_file,
}
use llm_openresty.Listener.Housekeep.Names.{
  get-put_away, length-apart, is_date_name-length, length-jsonl, day-injective,
}
use llm_openresty.Listener.Housekeep.Step.{remove_file-away}

abbrev pub rows : Text → Text
rows day = day ++ jsonl

abbrev pub table : Text → Text
table day = day ++ parquet

module _ (day : Text) (is_day : is_date_name day ≡ true) where
  pub length-rows : length (rows day) ≡ 16
  length-rows = omega (arith, length-append day jsonl, is_date_name-length day is_day)

  pub length-table : length (table day) ≡ 18
  length-table = omega (arith, length-append day parquet, is_date_name-length day is_day)

  pub rows-table : text_eq (rows day) (table day) ≡ false
  rows-table =
      length-apart (rows day) (table day) (λ e. omega (arith, e, length-rows, length-table))

  pub table-rows : text_eq (table day) (rows day) ≡ false
  table-rows =
      length-apart (table day) (rows day) (λ e. omega (arith, e, length-rows, length-table))

  pub length-dst :
      (k : Text)
      → is_date_name (trim_suffix k jsonl) ≡ true
      → length (trim_suffix k jsonl ++ parquet) ≡ 18
  length-dst k f = omega (
    arith,
    length-append (trim_suffix k jsonl) parquet,
    is_date_name-length (trim_suffix k jsonl) f,
  )

  pub other_table :
      (k : Text)
      → has_suffix k jsonl ≡ true
      → is_date_name (trim_suffix k jsonl) ≡ true
      → text_eq k (rows day) ≡ false
      → text_eq (trim_suffix k jsonl ++ parquet) (table day) ≡ false
  other_table k e f h = go (text_eq (trim_suffix k jsonl ++ parquet) (table day)) refl
    where
      go : (b : Bool) → text_eq (trim_suffix k jsonl ++ parquet) (table day) ≡ b → b ≡ false
      go true g =
          let same =
            day-injective (trim_suffix k jsonl) day parquet f is_day
              ((text_eq_iff (trim_suffix k jsonl ++ parquet) (table day)).0 g) in
          let same_rows = sym (trim_suffix-has_suffix k jsonl e) ∙ ap (λ s. s ++ jsonl) same in
          sym ((text_eq_iff k (rows day)).1 same_rows) ∙ h
      go false g = refl

module _ (w : Tools) where
  -- A conversion changes the two files only.
  pub rotate_day-away :
      (k dst x : Text) (d : Disk)
      → text_eq k x ≡ false
      → text_eq dst x ≡ false
      → get (rotate_day w k dst d) x ≡ get d x
  rotate_day-away k dst x d h g = go (stat d dst)
    where
      made : (c : Copy) → get (converted w k dst c d) x ≡ get d x
      made (done b) = remove_file-away w k x _ h ∙ get-put_away d dst x _ g
      made (failed none) = remove_file-away w dst x d g
      made (failed (some b)) = remove_file-away w dst x _ g ∙ get-put_away d dst x _ g

      with_copy : (o : Option (Text → Copy)) → get (convert w o k dst d) x ≡ get d x
      with_copy none = refl
      with_copy (some copy) = made (copy (bytes_of (get d k)))

      go :
          (b : Bool) → get (if b then remove_file w k d else convert w w.copies k dst d) x ≡ get d x
      go true = remove_file-away w k x d h
      go false = with_copy w.copies

module _ (w : Tools) (today cutoff day : Text) (is_day : is_date_name day ≡ true) where
  -- The files of other days are not touched.
  pub rotate_file-away :
      (k : Text) (d : Disk)
      → text_eq k (rows day) ≡ false
      → (get (rotate_file w today cutoff k d) (rows day) ≡ get d (rows day))
        × (get (rotate_file w today cutoff k d) (table day) ≡ get d (table day))
  unfolding rotate_file
  rotate_file-away k d h =
      go (has_suffix k jsonl) refl (is_date_name (trim_suffix k jsonl)) refl
        (not (text_eq (trim_suffix k jsonl) today || text_lt (trim_suffix k jsonl) cutoff))
    where
      go :
          (a : Bool)
          → has_suffix k jsonl ≡ a
          → (b : Bool) → is_date_name (trim_suffix k jsonl) ≡ b
          → (c : Bool)
          → (get
                (if a && (b && c) then rotate_day w k (trim_suffix k jsonl ++ parquet) d else d)
                (rows day)
              ≡ get d (rows day))
            × (get
                  (if a && (b && c) then rotate_day w k (trim_suffix k jsonl ++ parquet) d else d)
                  (table day)
                ≡ get d (table day))
      go false e b f c = (refl, refl)
      go true e false f c = (refl, refl)
      go true e true f false = (refl, refl)
      go true e true f true = (
        rotate_day-away w k (trim_suffix k jsonl ++ parquet) (rows day) d h (
            length-apart (trim_suffix k jsonl ++ parquet) (rows day)
              (λ n. omega (arith, n, (length-rows day is_day), length-dst day is_day k f))),
        rotate_day-away w k (trim_suffix k jsonl ++ parquet) (table day) d
            (length-apart k (table day)
              (λ n. omega (arith, n, (length-table day is_day), length-jsonl k e f)))
            (other_table day is_day k e f h),
      )
