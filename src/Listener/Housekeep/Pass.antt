-- ===== src/Listener/Housekeep/Pass.antt =====
-- What a pass of housekeep of bodylog-listener-go/main.go does to a day.
use llm_openresty.Base.{
  ◌≡◌, refl, sym, ap, ◌∙◌, subst, Bool, true, false, not, ◌&&◌, ◌⊎◌, inl, inr, Option, none, some,
  List, [], ◌∷◌, ◌++◌, Text, text_eq, text_eq_iff, text_eq_refl, text_Eq, if◌then◌else◌, arith,
  split_and,
}
use llm_openresty.Base.Dict.{Dict, get, put, remove, get-put, or_default}
use llm_openresty.Listener.Files.{is_date_name, tar_gz}
use llm_openresty.Listener.Housekeep.{
  Tools, Item, tree, blob, Disk, stat, is_some, remove_file, remove_all, files_of, finish_tar,
  tmp_dash, pack_into, tar_gz_dir, drop_if, archive_day, sweep, sweep_all, housekeep,
}
use llm_openresty.Listener.Housekeep.Names.{
  length-apart, get-put_away, length-tar_gz, length-tmp, day-injective, is_date_name-length,
}
use llm_openresty.Listener.Housekeep.Verify.{Covers, verify_tar_gz_iff}
use llm_openresty.Listener.Housekeep.Step.{
  day-OfDay, archive-OfDay, size-apart, sweep_file-away, sweep-away, remove_file-away,
  remove_all-away,
}

abbrev pub or_empty : Option Disk → Disk
or_empty o = or_default o []

-- What is in BODYLOG_DIR behind a pass.
abbrev pub root_after : Tools → Text → Text → Disk → Option Disk → Disk
root_after w today cutoff d details = or_empty (housekeep w today cutoff (some d) details).0

-- Of a day's directory, with the disk `before` the pass: nothing is lost, since either the directory is
-- there in full or an archive is; and an archive is as it was, or it covers the directory.
pub record Kept (w : Tools) (day : Text) (files : Dict Text Text) (before d : Disk) : Type 0 where
  pub archive :
      (get d (day ++ tar_gz) ≡ get before (day ++ tar_gz))
      ⊎ ((bytes : Text) × ((get d (day ++ tar_gz) ≡ some (blob bytes)) × Covers w files bytes))
  pub directory : (get d day ≡ some (tree files)) ⊎ (stat d (day ++ tar_gz) ≡ true)

pub get-put_same : (d : Disk) (k : Text) (v : Item) → get (put d k v) k ≡ some v
get-put_same d k v = get-put d k k v ∙ ap (λ b. if b then some v else get d k) (text_eq_refl k)

module _ (w : Tools) (today day : Text) (is_day : is_date_name day ≡ true) where
  abbrev pub target : Text
  target = day ++ tar_gz

  pub day-target : text_eq day target ≡ false
  day-target =
      length-apart day target
        (λ e. omega (arith, e, length-tar_gz day is_day, is_date_name-length day is_day))

  pub tmp-day : (suffix : Text) → text_eq (target ++ (tmp_dash ++ suffix)) day ≡ false
  tmp-day suffix =
      size-apart _ day (day-OfDay day is_day) (λ n. omega (arith, n, length-tmp day suffix is_day))
        (λ n. omega (arith, n, length-tmp day suffix is_day))

  pub tmp-target : (suffix : Text) → text_eq (target ++ (tmp_dash ++ suffix)) target ≡ false
  tmp-target suffix =
      size-apart _ target (archive-OfDay day is_day)
        (λ n. omega (arith, n, length-tmp day suffix is_day))
        (λ n. omega (arith, n, length-tmp day suffix is_day))

  -- An entry of another name, or a file, changes neither the day nor its archive.
  pub other-away :
      (k : Text) (n : Item) (d : Disk)
      → text_eq k day ≡ false
      → (get (sweep w today k n d) day ≡ get d day)
        × (get (sweep w today k n d) target ≡ get d target)
  other-away k n d h = (
    sweep-away w today day (day-OfDay day is_day) k n d (λ i t. h)
        (λ i t.
          length-apart (k ++ tar_gz) day
            (λ e. omega (arith, e, length-tar_gz k i, is_date_name-length day is_day))),
    sweep-away w today target (archive-OfDay day is_day) k n d
        (λ i t.
          length-apart k target
            (λ e. omega (arith, e, is_date_name-length k i, length-tar_gz day is_day)))
        (λ i t. ground (
          arith,
          text_eq_iff (k ++ tar_gz) target,
          text_eq_iff k day,
          day-injective k day tar_gz i is_day,
        )),
  )

  module _ (files : Dict Text Text) (before : Disk) where
    Kept-away :
        (d e : Disk)
        → (get e day ≡ get d day) × (get e target ≡ get d target)
        → Kept w day files before d
        → Kept w day files before e
    Kept-away d e (h, g) k = record {
      archive = elim k.archive [ inl u ↦ inl (g ∙ u) | inr u ↦ inr (u.0, (g ∙ u.1.0, u.1.1)) ];
      directory = elim k.directory [ inl u ↦ inl (h ∙ u) | inr u ↦ inr (ap is_some g ∙ u) ];
    }

    -- The directory is removed, with its archive there.
    dropped-Kept :
        (d : Disk)
        → stat d target ≡ true
        → Kept w day files before d
        → Kept w day files before (remove_all w day d)
    dropped-Kept d h k =
        let g = remove_all-away w day target d day-target in
        record {
          archive = elim k.archive [ inl u ↦ inl (g ∙ u) | inr u ↦ inr (u.0, (g ∙ u.1.0, u.1.1)) ];
          directory = inr (ap is_some g ∙ h);
        }

    finished-Kept :
        (d : Disk) (suffix bytes : Text) (ok renames : Bool)
        → (ok ≡ true → Covers w files bytes)
        → Kept w day files before d
        → Kept w day files before (
            drop_if w day (
              finish_tar w target
                (target ++ (tmp_dash ++ suffix))
                bytes
                ok
                renames
                (put d (target ++ (tmp_dash ++ suffix)) (blob bytes))))
    finished-Kept d suffix bytes ok renames covers k = go ok renames covers
      where
        tmp : Text
        tmp = target ++ (tmp_dash ++ suffix)

        failed : Kept w day files before (remove_file w tmp (put d tmp (blob bytes)))
        failed =
            Kept-away d _
              (
                remove_file-away w tmp day _ (tmp-day suffix)
                    ∙ get-put_away d tmp day _ (tmp-day suffix),
                remove_file-away w tmp target _ (tmp-target suffix)
                    ∙ get-put_away d tmp target _ (tmp-target suffix),
              )
              k

        made :
            get (put (remove (put d tmp (blob bytes)) tmp) target (blob bytes)) target
            ≡ some (blob bytes)
        made = get-put_same _ target (blob bytes)

        go :
            (b c : Bool)
            → (b ≡ true → Covers w files bytes)
            → Kept w day files before
                (drop_if w day (finish_tar w target tmp bytes b c (put d tmp (blob bytes))))
        go false c f = failed
        go true false f = failed
        go true true f =
            let g = remove_all-away w day target _ day-target in
            record {
              archive = inr (bytes, (g ∙ made, f refl));
              directory = inr (ap is_some (g ∙ made));
            }

    packed-Kept :
        (o : Option Text) (d : Disk)
        → get d day ≡ some (tree files)
        → Kept w day files before d
        → Kept w day files before (drop_if w day (pack_into w day target o d))
    packed-Kept none d h k = k
    packed-Kept (some suffix) d h k =
        finished-Kept d suffix (w.archive (files_of (get d day))) _ (w.renames target)
          (λ e.
            subst (λ fs. Covers w fs (w.archive (files_of (get d day)))) (ap files_of h)
              ((verify_tar_gz_iff w day (files_of (get d day)) (w.archive (files_of (get d day)))).0
                (split_and _ _ e).1).1)
          k

    archived-Kept :
        (d : Disk) → Kept w day files before d → Kept w day files before (archive_day w day d)
    unfolding archive_day tar_gz_dir
    archived-Kept d k = go (stat d target) refl k.directory
      where
        go :
            (b : Bool)
            → stat d target ≡ b
            → (get d day ≡ some (tree files)) ⊎ (stat d target ≡ true)
            → Kept w day files before
                (if b then remove_all w day d else drop_if w day (tar_gz_dir w day target d))
        go true h u = dropped-Kept d h k
        go false h (inl u) = packed-Kept (w.temp target) d u k
        go false h (inr u) = absurd (ground (arith, h, u))

    day-Kept :
        (n : Item) (d : Disk)
        → Kept w day files before d
        → Kept w day files before (sweep w today day n d)
    day-Kept (blob b) d k =
        Kept-away d _
          (
            sweep_file-away w today day (day-OfDay day is_day) day d,
            sweep_file-away w today target (archive-OfDay day is_day) day d,
          )
          k
    day-Kept (tree fs) d k = go (is_date_name day && not (text_eq day today))
      where
        go : (b : Bool) → Kept w day files before (if b then archive_day w day d else d)
        go true = archived-Kept d k
        go false = k

    sweep-Kept :
        (k : Text) (n : Item) (d : Disk)
        → Kept w day files before d
        → Kept w day files before (sweep w today k n d)
    sweep-Kept k n d h = go (text_eq k day) refl
      where
        go : (b : Bool) → text_eq k day ≡ b → Kept w day files before (sweep w today k n d)
        go true e =
            subst (λ j. Kept w day files before (sweep w today j n d))
              (sym ((text_eq_iff k day).0 e)) (day-Kept n d h)
        go false e = Kept-away d _ (other-away k n d e) h

    sweep_all-Kept :
        (l : List (Text × Item)) (d : Disk)
        → Kept w day files before d
        → Kept w day files before (sweep_all w today l d)
    unfolding sweep_all
    sweep_all-Kept [] d h = h
    sweep_all-Kept ((k, n) ∷ l) d h = sweep_all-Kept l (sweep w today k n d) (sweep-Kept k n d h)

-- A pass of housekeep loses no day. Of a day's directory that is there before the pass, at any time and
-- whatever fails, either every file is there behind it or an archive of the day is; and that archive
-- is as it was before, or each of its members reads to its end and each file of the directory is among
-- them.
pub housekeep-Kept :
    (w : Tools) (today cutoff day : Text) (files : Dict Text Text) (d : Disk)
    (details : Option Disk)
    → is_date_name day ≡ true
    → get d day ≡ some (tree files)
    → Kept w day files d (root_after w today cutoff d details)
unfolding housekeep
housekeep-Kept w today cutoff day files d details is_day h =
    sweep_all-Kept w today day is_day files d d d (record { archive = inl refl; directory = inl h })
