-- ===== src/Listener/Aggregator/Tidy.antt =====
-- The maps of the aggregator of bodylog-listener-go/main.go stay maps with a minute in one of them.
use llm_openresty.Base.{
  ℕ, ◌-◌, ◌≡◌, refl, sym, ap, ◌∙◌, subst, Bool, true, false, ◌⊎◌, inl, inr, Option, none, some, [],
  ◌∷◌, Text, if◌then◌else◌, nat_eq, nat_eq_iff, nat_Eq, text_Eq, arith, ltb,
}
use llm_openresty.Base.Dict.{Dict, get, put, get-put, NodupKeys, put-NodupKeys, or_default}
use llm_openresty.Listener.Aggregator.{
  Aggregator, Request, Ref, Index, key_of, mark_dirty, still_active, close_buckets,
  flush_closed_minutes, in_active, in_archive, not_active, choose, ingest,
}
use llm_openresty.Listener.Aggregator.Closing.{
  Tidy, still_active-get, flushed-active, flushed-Less, close_minutes-get, closed_entry, closed,
  flushed,
}

still_active-NodupKeys : (cutoff : ℕ) (l : Index) → NodupKeys l → NodupKeys (still_active cutoff l)
unfolding still_active
still_active-NodupKeys cutoff [] d = tt
still_active-NodupKeys cutoff ((m, bk) ∷ l) (h, d) =
    go (ltb m cutoff) (still_active-get cutoff l m) (still_active-NodupKeys cutoff l d)
  where
    nothing : (c : Bool) → (if c then none else get l m) ≡ none
    nothing true = refl
    nothing false = h

    go :
        (b : Bool)
        → get (still_active cutoff l) m ≡ (if ltb m cutoff then none else get l m)
        → NodupKeys (still_active cutoff l)
        → NodupKeys (if b then still_active cutoff l else (m, bk) ∷ still_active cutoff l)
    go true e r = r
    go false e r = (e ∙ nothing (ltb m cutoff), r)

module _ (now : ℕ) (a : Aggregator) (tidy : Tidy a) where
  flush-minutes : NodupKeys (flushed now a tidy).active
  unfolding flush_closed_minutes
  flush-minutes = still_active-NodupKeys (now - 90) a.active tidy.minutes

  -- What a flush leaves active was active, and is not closed.
  flush-kept :
      (m : ℕ) (bk : Dict Text Ref)
      → get (flushed now a tidy).active m ≡ some bk
      → (ltb m (now - 90) ≡ false) × (get a.active m ≡ some bk)
  flush-kept m bk h = go (ltb m (now - 90)) refl (sym (flushed-active now a tidy m) ∙ h)
    where
      go :
          (c : Bool)
          → ltb m (now - 90) ≡ c
          → (if c then none else get a.active m) ≡ some bk
          → (ltb m (now - 90) ≡ false) × (get a.active m ≡ some bk)
      go true e f = absurd cc
      go false e f = (e, f)

  flush-disjoint :
      (m : ℕ) (bk : Dict Text Ref)
      → get (flushed now a tidy).active m ≡ some bk
      → get (flushed now a tidy).archive_idx m ≡ none
  flush-disjoint m bk h =
      let (e, f) = flush-kept m bk h in
      go (flushed-Less now a tidy m) (
        close_minutes-get a.heap (now - 90) a.active a.archive_idx m tidy.minutes
        ∙ ap (λ o. closed_entry a.heap (now - 90) m o (get a.archive_idx m)) f
        ∙ unclosed (ltb m (now - 90)) e (get a.archive_idx m)
            (close_buckets a.heap bk (or_default (get a.archive_idx m) []))
        ∙ tidy.disjoint m bk f)
    where
      unclosed :
          (c : Bool)
          → c ≡ false
          → (o : Option (Dict Text Ref)) (x : Dict Text Ref) → (if c then some x else o) ≡ o
      unclosed true e o x = absurd cc
      unclosed false e o x = refl

      go :
          (get (flushed now a tidy).archive_idx m ≡ none)
            ⊎ (get (flushed now a tidy).archive_idx m ≡ get (closed now a tidy) m)
          → get (closed now a tidy) m ≡ none
          → get (flushed now a tidy).archive_idx m ≡ none
      go (inl e) f = e
      go (inr e) f = e ∙ f

  pub flush-Tidy : Tidy (flushed now a tidy)
  flush-Tidy = record {
    disjoint = flush-disjoint;
    minutes = flush-minutes;
    keys = λ m bk h. tidy.keys m bk (flush-kept m bk h).1;
  }

put-entry :
    (l : Index) (n m : ℕ) (bk x : Dict Text Ref)
    → get (put l n bk) m ≡ some x
    → ((n ≡ m) × (bk ≡ x)) ⊎ (get l m ≡ some x)
put-entry l n m bk x h = go (nat_eq n m) refl (sym (get-put l n m bk) ∙ h)
  where
    go :
        (c : Bool)
        → nat_eq n m ≡ c
        → (if c then some bk else get l m) ≡ some x
        → ((n ≡ m) × (bk ≡ x)) ⊎ (get l m ≡ some x)
    go true e f = inl ((nat_eq_iff n m).0 e, cc)
    go false e f = inr f

module _ (q : Request) (a : Aggregator) (tidy : Tidy a) where
  -- A new entry of an active minute, or of a minute that is in neither map.
  put-Tidy :
      (bk : Dict Text Ref) (b : Aggregator)
      → get a.archive_idx q.minute ≡ none
      → NodupKeys bk
      → b.active ≡ put a.active q.minute bk
      → b.archive_idx ≡ a.archive_idx
      → Tidy b
  put-Tidy bk b empty d e f = record {
    disjoint = λ m x h. elim (was m x h) [
      | inl u ↦ ap (λ (i : Index). get i m) f ∙ ap (get a.archive_idx) (sym u.0) ∙ empty
      | inr u ↦ ap (λ (i : Index). get i m) f ∙ tidy.disjoint m x u
    ];
    minutes = subst NodupKeys (sym e) (put-NodupKeys a.active q.minute bk tidy.minutes);
    keys = λ m x h. elim (was m x h) [ inl u ↦ subst NodupKeys u.1 d | inr u ↦ tidy.keys m x u ];
  }
    where
      was :
          (m : ℕ) (x : Dict Text Ref)
          → get b.active m ≡ some x
          → ((q.minute ≡ m) × (bk ≡ x)) ⊎ (get a.active m ≡ some x)
      was m x h = put-entry a.active q.minute m bk x (sym (ap (λ (i : Index). get i m) e) ∙ h)

  -- A new entry of an archived minute.
  archive-Tidy :
      (bk : Dict Text Ref) (b : Aggregator)
      → get a.active q.minute ≡ none
      → b.active ≡ a.active
      → b.archive_idx ≡ put a.archive_idx q.minute bk
      → Tidy b
  archive-Tidy bk b empty e f = record {
    disjoint = λ m x h. ap (λ (i : Index). get i m) f ∙ other m x (was m x h);
    minutes = subst NodupKeys (sym e) tidy.minutes;
    keys = λ m x h. tidy.keys m x (was m x h);
  }
    where
      was : (m : ℕ) (x : Dict Text Ref) → get b.active m ≡ some x → get a.active m ≡ some x
      was m x h = sym (ap (λ (i : Index). get i m) e) ∙ h

      other :
          (m : ℕ) (x : Dict Text Ref)
          → get a.active m ≡ some x
          → get (put a.archive_idx q.minute bk) m ≡ none
      other m x h =
          ground
            (arith, get-put a.archive_idx q.minute m bk, tidy.disjoint m x h, nat_eq_iff q.minute m)

  mark_dirty-maps :
      (r : Ref) (b : Aggregator)
      → ((mark_dirty r b).active ≡ b.active) × ((mark_dirty r b).archive_idx ≡ b.archive_idx)
  mark_dirty-maps r b = ground arith

  in_active-Tidy :
      (bk : Dict Text Ref) (o : Option Ref)
      → get a.active q.minute ≡ some bk
      → Tidy (in_active q bk o a).1
  in_active-Tidy bk (some r) h = tidy
  in_active-Tidy bk none h =
      put-Tidy (put bk (key_of q) a.next) _ (tidy.disjoint q.minute bk h)
        (put-NodupKeys bk (key_of q) a.next (tidy.keys q.minute bk h)) refl refl

  in_archive-Tidy :
      (bk : Dict Text Ref) (o : Option Ref)
      → get a.active q.minute ≡ none
      → Tidy (in_archive q bk o a).1
  in_archive-Tidy bk (some r) h =
      let (e, f) = mark_dirty-maps r a in
      record {
        disjoint = λ m x g.
            ap (λ (i : Index). get i m) f
            ∙ tidy.disjoint m x (sym (ap (λ (i : Index). get i m) e) ∙ g);
        minutes = subst NodupKeys (sym e) tidy.minutes;
        keys = λ m x g. tidy.keys m x (sym (ap (λ (i : Index). get i m) e) ∙ g);
      }
  in_archive-Tidy bk none h =
      let maps = mark_dirty-maps a.next _ in
      archive-Tidy (put bk (key_of q) a.next) _ h maps.0 maps.1

  not_active-Tidy :
      (o : Option (Dict Text Ref))
      → get a.active q.minute ≡ none
      → get a.archive_idx q.minute ≡ o
      → Tidy (not_active q o a).1
  not_active-Tidy none g h =
      put-Tidy ((key_of q, a.next) ∷ []) _ h (unfold get in refl, tt) refl refl
  not_active-Tidy (some bk) g h = in_archive-Tidy bk (get bk (key_of q)) g

  choose-Tidy : (o : Option (Dict Text Ref)) → get a.active q.minute ≡ o → Tidy (choose q o a).1
  choose-Tidy (some bk) h = in_active-Tidy bk (get bk (key_of q)) h
  choose-Tidy none h = not_active-Tidy (get a.archive_idx q.minute) h refl

pub ingest-Tidy : (q : Request) (a : Aggregator) → Tidy a → Tidy (ingest q a)
unfolding ingest
ingest-Tidy q a tidy =
    let t = choose-Tidy q a tidy (get a.active q.minute) refl in
    record { disjoint = t.disjoint; minutes = t.minutes; keys = t.keys }
