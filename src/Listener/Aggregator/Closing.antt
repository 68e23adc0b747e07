-- ===== src/Listener/Aggregator/Closing.antt =====
-- What flushClosedMinutes of bodylog-listener-go/main.go does to the maps.
use llm_openresty.Base.{
  ℕ, zero, suc, ◌-◌, ◌*◌, ◌≤◌, ◌<◌, ◌≡◌, refl, sym, ap, ap₂, ◌∙◌, subst, Bool, true, false, ◌⊎◌,
  inl, inr, Option, none, some, List, [], ◌∷◌, Text, if◌then◌else◌, nat_eq_iff, nat_Eq, text_eq_iff,
  text_Eq, arith, ltb, ltb→lt,
}
use llm_openresty.Base.Dict.{
  Dict, get, get_or, put, get-put, get-remove, NodupKeys, remove, or_default,
}
use llm_openresty.Listener.Bucket.{Bucket}
use llm_openresty.Listener.Aggregator.{
  Aggregator, Ref, Index, close_buckets, close_minutes, still_active, evict, evict_if,
  flush_closed_minutes,
}
use llm_openresty.Listener.Aggregator.Placed.{loc, loc_in, find, deref}
use llm_openresty.Listener.Aggregator.Find.{Apart}

abbrev or_else : Option Ref → Option Ref → Option Ref
or_else (some r) o = some r
or_else none o = o

or_none : (o : Option Ref) (k : Text) → or_else o (get [] k) ≡ o
unfolding get
or_none (some r) k = refl
or_none none k = refl

pub still_active-get :
    (cutoff : ℕ) (l : Index) (m : ℕ)
    → get (still_active cutoff l) m ≡ (if ltb m cutoff then none else get l m)
unfolding still_active get
still_active-get cutoff [] m = ground arith
still_active-get cutoff ((n, bk) ∷ l) m =
    ground (arith, still_active-get cutoff l m, nat_eq_iff n m)

close_buckets-get :
    (heap : Ref → Bucket) (bk idx : Dict Text Ref) (k : Text)
    → NodupKeys bk
    → get (close_buckets heap bk idx) k ≡ or_else (get bk k) (get idx k)
unfolding close_buckets get
close_buckets-get heap [] idx k d = refl
close_buckets-get heap ((j, r) ∷ bk) idx k (h, d) =
    ground
      (arith, close_buckets-get heap bk (put idx j r) k d, get-put idx j k r, text_eq_iff j k, h)

-- The entry of a minute behind the loop over the active minutes.
abbrev pub closed_entry :
    (Ref → Bucket)
    → ℕ
    → ℕ
    → Option (Dict Text Ref)
    → Option (Dict Text Ref)
    → Option (Dict Text Ref)
closed_entry heap cutoff m none o = o
closed_entry heap cutoff m (some bk) o =
    if ltb m cutoff then some (close_buckets heap bk (or_default o [])) else o

pub close_minutes-get :
    (heap : Ref → Bucket) (cutoff : ℕ) (l idx : Index) (m : ℕ)
    → NodupKeys l
    → get (close_minutes heap cutoff l idx) m ≡ closed_entry heap cutoff m (get l m) (get idx m)
unfolding close_minutes get_or get
close_minutes-get heap cutoff [] idx m d = refl
close_minutes-get heap cutoff ((n, bk) ∷ l) idx m (h, d) = ground (
  arith,
  close_minutes-get heap cutoff l (put idx n (close_buckets heap bk (get_or idx n []))) m d,
  close_minutes-get heap cutoff l idx m d,
  get-put idx n m (close_buckets heap bk (get_or idx n [])),
  nat_eq_iff n m,
  h,
)

-- Eviction forgets minutes before the bound, and whole ones.
evict-get :
    (heap : Ref → Bucket) (cut_min : ℕ) (l : List Ref) (idx : Index) (lw : Dict Ref Bucket) (m : ℕ)
    → cut_min ≤ m
    → get (evict heap cut_min l idx lw).1.0 m ≡ get idx m
unfolding evict
evict-get heap cut_min [] idx lw m h = refl
evict-get heap cut_min (r ∷ l) idx lw m h = ground (
  arith,
  evict-get heap cut_min l (remove idx (heap r).minute) (remove lw r) m h,
  get-remove idx (heap r).minute m,
  ltb→lt (heap r).minute cut_min,
  nat_eq_iff (heap r).minute m,
)

abbrev pub Less : Index → Index → Type 0
Less i j = (m : ℕ) → (get i m ≡ none) ⊎ (get i m ≡ get j m)

Less-remove : (idx : Index) (n : ℕ) → Less (remove idx n) idx
Less-remove idx n m = ground (arith, get-remove idx n m)

Less-trans : (h i j : Index) → Less h i → Less i j → Less h j
Less-trans h i j x y m = go (x m) (y m)
  where
    go :
        (get h m ≡ none) ⊎ (get h m ≡ get i m)
        → (get i m ≡ none) ⊎ (get i m ≡ get j m)
        → (get h m ≡ none) ⊎ (get h m ≡ get j m)
    go (inl e) y = inl e
    go (inr e) (inl f) = inl (e ∙ f)
    go (inr e) (inr f) = inr (e ∙ f)

evict-Less :
    (heap : Ref → Bucket) (cut_min : ℕ) (l : List Ref) (idx : Index) (lw : Dict Ref Bucket)
    → Less (evict heap cut_min l idx lw).1.0 idx
unfolding evict
evict-Less heap cut_min [] idx lw = λ m. inr refl
evict-Less heap cut_min (r ∷ l) idx lw =
    go (ltb (heap r).minute cut_min)
      (evict heap cut_min l (remove idx (heap r).minute) (remove lw r))
      (evict-Less heap cut_min l (remove idx (heap r).minute) (remove lw r))
  where
    go :
        (b : Bool) (res : List Ref × (Index × Dict Ref Bucket))
        → Less res.1.0 (remove idx (heap r).minute)
        → Less
            (elim b as (λ x. List Ref × (Index × Dict Ref Bucket)) [
              | true ↦ res
              | false ↦ (r ∷ l, (idx, lw))
            ]).1.0
            idx
    go true res h =
        Less-trans res.1.0 (remove idx (heap r).minute) idx h (Less-remove idx (heap r).minute)
    go false res h = λ m. inr refl

evict_if-Less :
    (keep : ℕ) (heap : Ref → Bucket) (now : ℕ) (l : List Ref) (idx : Index) (lw : Dict Ref Bucket)
    → Less (evict_if keep heap now l idx lw).1.0 idx
evict_if-Less zero heap now l idx lw = λ m. inr refl
evict_if-Less (suc k) heap now l idx lw = evict-Less heap (now - suc k * 60) l idx lw

-- Whether a flush at `now` leaves a minute where it is.
abbrev pub KeptAt : ℕ → ℕ → ℕ → Type 0
KeptAt zero now m = Unit
KeptAt (suc k) now m = now - suc k * 60 ≤ m

evict_if-get :
    (keep : ℕ) (heap : Ref → Bucket) (now : ℕ) (l : List Ref) (idx : Index) (lw : Dict Ref Bucket)
    (m : ℕ)
    → KeptAt keep now m
    → get (evict_if keep heap now l idx lw).1.0 m ≡ get idx m
evict_if-get zero heap now l idx lw m h = refl
evict_if-get (suc k) heap now l idx lw m h = evict-get heap (now - suc k * 60) l idx lw m h

-- The maps are maps, and no minute is in both.
pub record Tidy (a : Aggregator) : Type 0 where
  pub disjoint :
      (m : ℕ) (bk : Dict Text Ref) → get a.active m ≡ some bk → get a.archive_idx m ≡ none
  pub minutes : NodupKeys a.active
  pub keys : (m : ℕ) (bk : Dict Text Ref) → get a.active m ≡ some bk → NodupKeys bk

module _ (now : ℕ) (a : Aggregator) (tidy : Tidy a) where
  -- archiveIdx before the eviction.
  abbrev pub closed : Index
  closed = close_minutes a.heap (now - 90) a.active a.archive_idx

  abbrev pub flushed : Aggregator
  flushed = flush_closed_minutes now a

  pub flushed-active :
      (m : ℕ) → get flushed.active m ≡ (if ltb m (now - 90) then none else get a.active m)
  unfolding flush_closed_minutes
  flushed-active m = still_active-get (now - 90) a.active m

  pub flushed-Less : Less flushed.archive_idx closed
  unfolding flush_closed_minutes
  flushed-Less = evict_if-Less a.archive_keep_min a.heap now _ closed _

  flushed-idx : (m : ℕ) → KeptAt a.archive_keep_min now m → get flushed.archive_idx m ≡ get closed m
  unfolding flush_closed_minutes
  flushed-idx m h = evict_if-get a.archive_keep_min a.heap now _ closed _ m h

  -- Closing moves the entries of a minute without changing them.
  closed-loc :
      (m : ℕ) (k : Text)
      → loc_in (if ltb m (now - 90) then none else get a.active m) (get closed m) k ≡ loc a m k
  closed-loc m k = go (get a.active m) refl
    where
      at : get closed m ≡ closed_entry a.heap (now - 90) m (get a.active m) (get a.archive_idx m)
      at = close_minutes-get a.heap (now - 90) a.active a.archive_idx m tidy.minutes

      unclosed :
          (c : Bool)
          → loc_in (if c then none else none) (get a.archive_idx m) k
            ≡ loc_in none (get a.archive_idx m) k
      unclosed true = refl
      unclosed false = refl

      moved :
          (bk : Dict Text Ref) (c : Bool)
          → get a.active m ≡ some bk
          → loc_in
              (if c then none else some bk)
              (if c
                then some (close_buckets a.heap bk (or_default (get a.archive_idx m) []))
                else get a.archive_idx m)
              k
            ≡ get bk k
      moved bk true h =
          close_buckets-get a.heap bk (or_default (get a.archive_idx m) []) k (tidy.keys m bk h)
          ∙ ap (λ o. or_else (get bk k) (get (or_default o []) k)) (tidy.disjoint m bk h)
          ∙ or_none (get bk k) k
      moved bk false h = refl

      go :
          (o : Option (Dict Text Ref))
          → get a.active m ≡ o
          → loc_in (if ltb m (now - 90) then none else o) (get closed m) k
            ≡ loc_in o (get a.archive_idx m) k
      go none h =
          ap (λ e. loc_in (if ltb m (now - 90) then none else none) e k)
            (at ∙ ap (λ o. closed_entry a.heap (now - 90) m o (get a.archive_idx m)) h)
          ∙ unclosed (ltb m (now - 90))
      go (some bk) h =
          ap (λ e. loc_in (if ltb m (now - 90) then none else some bk) e k)
            (at ∙ ap (λ o. closed_entry a.heap (now - 90) m o (get a.archive_idx m)) h)
          ∙ moved bk (ltb m (now - 90)) h

  -- A flush leaves every bucket in its place whose minute it does not evict.
  flushed-loc : (m : ℕ) (k : Text) → KeptAt a.archive_keep_min now m → loc flushed m k ≡ loc a m k
  flushed-loc m k h =
      ap₂ (λ o e. loc_in o e k) (flushed-active m) (flushed-idx m h) ∙ closed-loc m k

  -- And it moves none.
  flushed-loc_less : (m : ℕ) (k : Text) (r : Ref) → loc flushed m k ≡ some r → loc a m k ≡ some r
  flushed-loc_less m k r h = go (flushed-Less m)
    where
      gone :
          (o : Option (Dict Text Ref))
          → loc_in o none k ≡ some r
          → loc_in o (get closed m) k ≡ some r
      gone none e = cc
      gone (some bk) e = e

      go :
          (get flushed.archive_idx m ≡ none) ⊎ (get flushed.archive_idx m ≡ get closed m)
          → loc a m k ≡ some r
      go (inl e) =
          sym (closed-loc m k)
          ∙ gone (if ltb m (now - 90) then none else get a.active m)
              (sym (ap₂ (λ o e. loc_in o e k) (flushed-active m) e) ∙ h)
      go (inr e) = sym (closed-loc m k) ∙ (sym (ap₂ (λ o e. loc_in o e k) (flushed-active m) e) ∙ h)

  flushed-heap : (flushed.heap ≡ a.heap) × (flushed.next ≡ a.next)
  unfolding flush_closed_minutes
  flushed-heap = (refl, refl)

  pub flush-Apart : Apart a → Apart flushed
  flush-Apart p = record {
    same_minute = λ m n j k r x y.
        p.same_minute m n j k r (flushed-loc_less m j r x) (flushed-loc_less n k r y);
    same_key =
        λ m n j k r x y. p.same_key m n j k r (flushed-loc_less m j r x) (flushed-loc_less n k r y);
    in_heap = λ m k r x.
        subst (λ n. r < n) (sym flushed-heap.1) (p.in_heap m k r (flushed-loc_less m k r x));
  }

  pub flush-find :
      (m : ℕ) (k : Text) → KeptAt a.archive_keep_min now m → find flushed m k ≡ find a m k
  flush-find m k h = ap₂ deref flushed-heap.0 (flushed-loc m k h)
