-- ===== src/Listener/Housekeep/Details.antt =====
-- What rotateDetails of bodylog-listener-go/main.go does to a day's details.
use llm_openresty.Base.{
  ◌≡◌, refl, sym, ap, ◌∙◌, subst, Bool, true, false, not, ◌&&◌, ◌||◌, ◌⊎◌, inl, inr, Option, none,
  some, List, [], ◌∷◌, ◌++◌, Text, text_eq, text_eq_iff, text_lt, text_Eq, has_suffix, trim_suffix,
  trim_suffix-has_suffix, if◌then◌else◌,
}
use llm_openresty.Base.Dict.{get, or_default, NodupKeys}
use llm_openresty.Listener.Files.{is_date_name, jsonl, parquet}
use llm_openresty.Listener.Housekeep.{
  Tools, Item, tree, blob, Disk, Copy, done, failed, stat, is_some, remove_file, bytes_of,
  converted, convert, rotate_day, rotate_file, rotate_item, rotate_all, rotate_details,
}
use llm_openresty.Listener.Housekeep.Names.{get-put_away, day-injective}
use llm_openresty.Listener.Housekeep.Step.{remove_file-away}
use llm_openresty.Listener.Housekeep.Pass.{get-put_same, or_empty}
use llm_openresty.Listener.Housekeep.Rows.{rows, table, rows-table, table-rows, rotate_file-away}

module _ (w : Tools) (today cutoff day : Text) (is_day : is_date_name day ≡ true) where
  -- The file of this day.
  pub record RowsKept (before : Disk) (content : Text) (d : Disk) : Type 0 where
    pub outcome :
        (get d (rows day) ≡ some (blob content))
        ⊎ (((stat before (table day) ≡ true) × (get d (table day) ≡ get before (table day)))
            ⊎ ((copy : Text → Copy) × ((out : Text) × ((w.copies ≡ some copy)
                    × ((copy content ≡ done out) × (get d (table day) ≡ some (blob out)))))))

  module _ (content : Text) (before : Disk) where
    -- The file is removed if the (table day) is there, or a COPY has made it.
    rotate_day-RowsKept :
        get before (rows day) ≡ some (blob content)
        → RowsKept before content (rotate_day w (rows day) (table day) before)
    rotate_day-RowsKept h = go (stat before (table day)) refl
      where
        made :
            (copy : Text → Copy) (c : Copy)
            → w.copies ≡ some copy
            → copy content ≡ c
            → RowsKept before content (converted w (rows day) (table day) c before)
        made copy (done b) e f = record {
          outcome = inr (
              inr (
                copy,
                (
                  b,
                  (
                    e,
                    (
                      f,
                      remove_file-away w (rows day) (table day) _ (rows-table day is_day)
                          ∙ get-put_same before (table day) (blob b),
                    ),
                  ),
                ),
              ));
        }
        made copy (failed none) e f = record {
          outcome =
              inl (remove_file-away w (table day) (rows day) before (table-rows day is_day) ∙ h);
        }
        made copy (failed (some b)) e f = record {
          outcome = inl (
              remove_file-away w (table day) (rows day) _ (table-rows day is_day)
              ∙ (get-put_away before (table day) (rows day) _ (table-rows day is_day) ∙ h));
        }

        with_copy :
            (o : Option (Text → Copy))
            → w.copies ≡ o
            → RowsKept before content (convert w o (rows day) (table day) before)
        with_copy none e = record { outcome = inl h }
        with_copy (some copy) e =
            made copy (copy (bytes_of (get before (rows day)))) e (ap copy (sym (ap bytes_of h)))

        go :
            (b : Bool)
            → stat before (table day) ≡ b
            → RowsKept before content (
                if b
                then remove_file w (rows day) before
                else convert w w.copies (rows day) (table day) before)
        go true e = record {
          outcome =
              inr
                (inl (e, remove_file-away w (rows day) (table day) before (rows-table day is_day)));
        }
        go false e = with_copy w.copies refl

    unchanged-RowsKept :
        (d e : Disk)
        → (get e (rows day) ≡ get d (rows day)) × (get e (table day) ≡ get d (table day))
        → RowsKept before content d
        → RowsKept before content e
    unchanged-RowsKept d e (h, g) k = record {
      outcome = elim k.outcome [
        | inl u ↦ inl (h ∙ u)
        | inr (inl (u, v)) ↦ inr (inl (u, g ∙ v))
        | inr (inr (copy, (out, (u, (v, x))))) ↦ inr (inr (copy, (out, (u, (v, g ∙ x)))))
      ];
    }

    rotate_file-RowsKept :
        get before (rows day) ≡ some (blob content)
        → RowsKept before content (rotate_file w today cutoff (rows day) before)
    unfolding rotate_file
    rotate_file-RowsKept h =
        go (has_suffix (rows day) jsonl) refl (is_date_name (trim_suffix (rows day) jsonl)) refl (
          not (
            text_eq (trim_suffix (rows day) jsonl) today
            || text_lt (trim_suffix (rows day) jsonl) cutoff))
      where
        go :
            (a : Bool)
            → has_suffix (rows day) jsonl ≡ a
            → (b : Bool) → is_date_name (trim_suffix (rows day) jsonl) ≡ b
            → (c : Bool)
            → RowsKept before content (
                if a && (b && c)
                then rotate_day w (rows day) (trim_suffix (rows day) jsonl ++ parquet) before
                else before)
        go false e b f c = record { outcome = inl h }
        go true e false f c = record { outcome = inl h }
        go true e true f false = record { outcome = inl h }
        go true e true f true =
            subst (λ s. RowsKept before content (rotate_day w (rows day) (s ++ parquet) before))
              (sym (
                day-injective (trim_suffix (rows day) jsonl) day jsonl f is_day
                  (trim_suffix-has_suffix (rows day) jsonl e)))
              (rotate_day-RowsKept h)

  rotate_item-away :
      (k : Text) (n : Item) (d : Disk)
      → text_eq k (rows day) ≡ false
      → (get (rotate_item w today cutoff k n d) (rows day) ≡ get d (rows day))
        × (get (rotate_item w today cutoff k n d) (table day) ≡ get d (table day))
  rotate_item-away k (tree fs) d h = (refl, refl)
  rotate_item-away k (blob b) d h = rotate_file-away w today cutoff day is_day k d h

  not_first :
      (k : Text) (n : Item) (o : Option Item)
      → (if text_eq k (rows day) then some n else o) ≡ none
      → (text_eq k (rows day) ≡ false) × (o ≡ none)
  not_first k n o h = go (text_eq k (rows day)) refl h
    where
      go :
          (b : Bool)
          → text_eq k (rows day) ≡ b
          → (if b then some n else o) ≡ none
          → (text_eq k (rows day) ≡ false) × (o ≡ none)
      go true e f = absurd cc
      go false e f = (e, f)

  rotate_all-away :
      (l : List (Text × Item)) (d : Disk)
      → get l (rows day) ≡ none
      → (get (rotate_all w today cutoff l d) (rows day) ≡ get d (rows day))
        × (get (rotate_all w today cutoff l d) (table day) ≡ get d (table day))
  unfolding rotate_all get
  rotate_all-away [] d h = (refl, refl)
  rotate_all-away ((k, n) ∷ l) d h =
      let (e, f) = not_first k n (get l (rows day)) h in
      let (u, v) = rotate_all-away l (rotate_item w today cutoff k n d) f in
      let (x, y) = rotate_item-away k n d e in (u ∙ x, v ∙ y)

  rebased-RowsKept :
      (content : Text) (d e x : Disk)
      → get e (table day) ≡ get d (table day)
      → RowsKept e content x
      → RowsKept d content x
  rebased-RowsKept content d e x h k = record {
    outcome = elim k.outcome [
      | inl u ↦ inl u
      | inr (inl (u, v)) ↦ inr (inl (ap is_some (sym h) ∙ u, v ∙ h))
      | inr (inr u) ↦ inr (inr u)
    ];
  }

  first-RowsKept :
      (n : Item) (l : List (Text × Item)) (content : Text) (d : Disk)
      → n ≡ blob content
      → get l (rows day) ≡ none
      → get d (rows day) ≡ some (blob content)
      → RowsKept d content (rotate_all w today cutoff l (rotate_item w today cutoff (rows day) n d))
  first-RowsKept (tree fs) l content d e h g = absurd cc
  first-RowsKept (blob b) l content d e h g =
      unchanged-RowsKept content d (rotate_file w today cutoff (rows day) d) _
        (rotate_all-away l _ h) (rotate_file-RowsKept content d g)

  rotate_all-RowsKept :
      (l : List (Text × Item)) (content : Text) (d : Disk)
      → NodupKeys l
      → get l (rows day) ≡ some (blob content)
      → get d (rows day) ≡ some (blob content)
      → RowsKept d content (rotate_all w today cutoff l d)
  unfolding rotate_all get
  rotate_all-RowsKept [] content d nodup h g = absurd cc
  rotate_all-RowsKept ((k, n) ∷ l) content d (fresh, nodup) h g =
      go (text_eq k (rows day)) refl h
        (rotate_all-RowsKept l content (rotate_item w today cutoff k n d) nodup)
    where
      content_of : ◌≡◌ {A = Option Item} (some n) (some (blob content)) → n ≡ blob content
      content_of e = ap (λ o. or_default o n) e

      go :
          (b : Bool)
          → text_eq k (rows day) ≡ b
          → (if b then some n else get l (rows day)) ≡ some (blob content)
          → (get l (rows day) ≡ some (blob content)
              → get (rotate_item w today cutoff k n d) (rows day) ≡ some (blob content)
              → RowsKept
                  (rotate_item w today cutoff k n d)
                  content
                  (rotate_all w today cutoff l (rotate_item w today cutoff k n d)))
          → RowsKept d content (rotate_all w today cutoff l (rotate_item w today cutoff k n d))
      go true e f rec =
          subst
            (λ j.
              RowsKept d content (rotate_all w today cutoff l (rotate_item w today cutoff j n d)))
            (sym ((text_eq_iff k (rows day)).0 e))
            (first-RowsKept n l content d (content_of f)
              (subst (λ j. get l j ≡ none) ((text_eq_iff k (rows day)).0 e) fresh) g)
      go false e f rec =
          let (u, v) = rotate_item-away k n d e in
          rebased-RowsKept content d (rotate_item w today cutoff k n d) _ v (rec f (u ∙ g))

  -- Of a day's details in a directory whose names differ, whatever fails: a pass of rotateDetails leaves the
  -- file of rows as it is, or there was a table of the day before, which is as it was, or a COPY of the
  -- whole file has made the table.
  pub rotate_details-RowsKept :
      (content : Text) (d : Disk)
      → NodupKeys d
      → get d (rows day) ≡ some (blob content)
      → RowsKept d content (or_empty (rotate_details w today cutoff (some d)))
  rotate_details-RowsKept content d nodup h = rotate_all-RowsKept d content d nodup h h
