-- ===== src/Listener/Housekeep/Progress.antt =====
-- That housekeep of bodylog-listener-go/main.go archives the past days, and leaves today alone.
use llm_openresty.Base.{
  ◌≡◌, refl, sym, ap, ap₂, ◌∙◌, subst, Bool, true, false, ◌&&◌, Option, none, some, List, [], ◌∷◌,
  ◌++◌, Text, text_eq, text_eq_iff, text_eq_refl, text_Eq, if◌then◌else◌, arith,
}
use llm_openresty.Base.Dict.{Dict, get, put, remove, get-remove, or_default}
use llm_openresty.Listener.Files.{is_date_name, tar_gz}
use llm_openresty.Listener.Housekeep.{
  Tools, Item, tree, blob, Disk, is_some, remaining, remove_all, files_of, finish_tar, tmp_dash,
  pack_into, tar_gz_dir, verify_tar_gz, packs, drop_if, archive_day, sweep, sweep_all, housekeep,
}
use llm_openresty.Listener.Housekeep.Names.{length-apart, is_date_name-length, length-tar_gz}
use llm_openresty.Listener.Housekeep.Step.{
  day-OfDay, archive-OfDay, sweep_file-away, sweep-away, remove_all-away,
}
use llm_openresty.Listener.Housekeep.Pass.{root_after, day-target, other-away, get-put_same}

sweep-today :
    (w : Tools) (today k : Text) (n : Item) (d : Disk)
    → is_date_name today ≡ true
    → get (sweep w today k n d) today ≡ get d today
sweep-today w today k n d h =
    sweep-away w today today (day-OfDay today h) k n d (λ i t. t)
      (λ i t.
        length-apart (k ++ tar_gz) today
          (λ e. omega (arith, e, length-tar_gz k i, is_date_name-length today h)))

sweep_all-today :
    (w : Tools) (today : Text) (l : List (Text × Item)) (d : Disk)
    → is_date_name today ≡ true
    → get (sweep_all w today l d) today ≡ get d today
unfolding sweep_all
sweep_all-today w today [] d h = refl
sweep_all-today w today ((k, n) ∷ l) d h =
    sweep_all-today w today l (sweep w today k n d) h ∙ sweep-today w today k n d h

-- A pass of housekeep leaves what stands under today's name as it is, the directory into which the
-- listener writes, where that name is a date.
pub housekeep-today :
    (w : Tools) (today cutoff : Text) (d : Disk) (details : Option Disk)
    → is_date_name today ≡ true
    → get (root_after w today cutoff d details) today ≡ get d today
unfolding housekeep
housekeep-today w today cutoff d details h = sweep_all-today w today d d h

-- What archiving a day takes: a name for the temporary file, an archive that passes the check, its
-- renaming, and the removal of the directory.
pub record Works (w : Tools) (day : Text) (files : Dict Text Text) : Type 0 where
  pub suffix : Text
  pub temp : w.temp (day ++ tar_gz) ≡ some suffix
  pub packed : packs w day files ≡ true
  pub verified : verify_tar_gz w day files (w.archive files) ≡ true
  pub renamed : w.renames (day ++ tar_gz) ≡ true
  pub removed : w.leaves day ≡ none

get-remove_same : (d : Disk) (k : Text) → get (remove d k) k ≡ none
get-remove_same d k = get-remove d k k ∙ ap (λ b. if b then none else get d k) (text_eq_refl k)

module _ (w : Tools) (today day : Text) (files : Dict Text Text) (is_day : is_date_name day ≡ true)
    (past : text_eq day today ≡ false) (works : Works w day files) where
  abbrev to : Text
  to = day ++ tar_gz

  abbrev bytes : Text
  bytes = w.archive files

  abbrev tmp : Text
  tmp = to ++ (tmp_dash ++ works.suffix)

  abbrev Archived : Disk → Type 0
  Archived d = (get d day ≡ none) × (get d to ≡ some (blob bytes))

  removed-day : (d : Disk) → get (remove_all w day d) day ≡ none
  removed-day d = ap (λ o. get (remaining o day d) day) works.removed ∙ get-remove_same d day

  removed-Archived : (d : Disk) → get d to ≡ some (blob bytes) → Archived (remove_all w day d)
  removed-Archived d h =
      (removed-day d, remove_all-away w day to d (day-target w today day is_day) ∙ h)

  packed :
      (d : Disk)
      → get d day ≡ some (tree files)
      → tar_gz_dir w day to d ≡ (true, put (remove (put d tmp (blob bytes)) tmp) to (blob bytes))
  unfolding tar_gz_dir
  packed d h =
      ap (λ o. pack_into w day to o d) works.temp
      ∙ ap
          (λ fs.
            finish_tar w to tmp (w.archive fs)
              (packs w day fs && verify_tar_gz w day fs (w.archive fs)) (w.renames to)
              (put d tmp (blob (w.archive fs))))
          (ap files_of h)
      ∙ ap₂ (λ b c. finish_tar w to tmp bytes b c (put d tmp (blob bytes)))
          (ap₂ (λ b c. b && c) works.packed works.verified) works.renamed

  archive_day-Archived :
      (d : Disk) → get d day ≡ some (tree files) → get d to ≡ none → Archived (archive_day w day d)
  unfolding archive_day
  archive_day-Archived d h g =
      subst Archived
        (sym (
          ap (λ o. if is_some o then remove_all w day d else drop_if w day (tar_gz_dir w day to d))
            g
          ∙ ap (drop_if w day) (packed d h)))
        (removed-Archived _ (get-put_same _ to (blob bytes)))

  archived-again : (d : Disk) → Archived d → Archived (archive_day w day d)
  unfolding archive_day
  archived-again d h =
      subst Archived
        (sym (
          ap (λ o. if is_some o then remove_all w day d else drop_if w day (tar_gz_dir w day to d))
            h.1))
        (removed-Archived d h.1)

  sweep-Archived : (k : Text) (n : Item) (d : Disk) → Archived d → Archived (sweep w today k n d)
  sweep-Archived k n d h = go (text_eq k day) refl n
    where
      here : (n : Item) → Archived (sweep w today day n d)
      here (blob b) = (
        sweep_file-away w today day (day-OfDay day is_day) day d ∙ h.0,
        sweep_file-away w today to (archive-OfDay day is_day) day d ∙ h.1,
      )
      here (tree fs) = rw (is_day, past) (archived-again d h)

      go : (b : Bool) → text_eq k day ≡ b → (n : Item) → Archived (sweep w today k n d)
      go true e n =
          subst (λ j. Archived (sweep w today j n d)) (sym ((text_eq_iff k day).0 e)) (here n)
      go false e n = let (f, g) = other-away w today day is_day k n d e in (f ∙ h.0, g ∙ h.1)

  sweep_all-Archived :
      (l : List (Text × Item)) (d : Disk) → Archived d → Archived (sweep_all w today l d)
  unfolding sweep_all
  sweep_all-Archived [] d h = h
  sweep_all-Archived ((k, n) ∷ l) d h =
      sweep_all-Archived l (sweep w today k n d) (sweep-Archived k n d h)

  sweep_all-reaches :
      (l : List (Text × Item)) (d : Disk)
      → get l day ≡ some (tree files)
      → get d day ≡ some (tree files)
      → get d to ≡ none
      → Archived (sweep_all w today l d)
  unfolding sweep_all get
  sweep_all-reaches [] d f h g = absurd cc
  sweep_all-reaches ((k, n) ∷ l) d f h g =
      go (text_eq k day) refl f (sweep_all-reaches l (sweep w today k n d))
    where
      first : (n : Item) → n ≡ tree files → Archived (sweep w today day n d)
      first (blob b) e = absurd cc
      first (tree fs) e = rw (is_day, past) (archive_day-Archived d h g)

      some_item : (m : Item) → ◌≡◌ {A = Option Item} (some m) (some (tree files)) → m ≡ tree files
      some_item m e = ap (λ o. or_default o m) e

      go :
          (b : Bool)
          → text_eq k day ≡ b
          → (if b then some n else get l day) ≡ some (tree files)
          → (get l day ≡ some (tree files)
              → get (sweep w today k n d) day ≡ some (tree files)
              → get (sweep w today k n d) to ≡ none
              → Archived (sweep_all w today l (sweep w today k n d)))
          → Archived (sweep_all w today l (sweep w today k n d))
      go true e i rec = sweep_all-Archived l (sweep w today k n d) (
          subst (λ j. Archived (sweep w today j n d)) (sym ((text_eq_iff k day).0 e))
            (first n (some_item n i)))
      go false e i rec = let (u, v) = other-away w today day is_day k n d e in rec i (u ∙ h) (v ∙ g)

-- Where archiving a past day works and there is no archive of it yet, a pass of housekeep puts the day's
-- archive where it belongs and removes the day's directory, whatever the other entries are and whatever
-- fails with them.
pub housekeep-archives :
    (w : Tools) (today cutoff day : Text) (files : Dict Text Text) (d : Disk)
    (details : Option Disk)
    → is_date_name day ≡ true
    → text_eq day today ≡ false
    → Works w day files
    → get d day ≡ some (tree files)
    → get d (day ++ tar_gz) ≡ none
    → (get (root_after w today cutoff d details) day ≡ none)
      × (get (root_after w today cutoff d details) (day ++ tar_gz) ≡ some (blob (w.archive files)))
unfolding housekeep
housekeep-archives w today cutoff day files d details is_day past works h g =
    sweep_all-reaches w today day files is_day past works d d h h g
