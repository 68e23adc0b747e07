-- ===== src/Listener/Aggregator/History.antt =====
-- What the aggregator of bodylog-listener-go/main.go holds after any run of its operations.
use llm_openresty.Base.{
  ℕ, ◌≡◌, refl, sym, ap, ap₂, ◌∙◌, subst, Bool, true, false, ◌&&◌, Option, none, some, List, [],
  ◌∷◌, Text, if◌then◌else◌, nat_eq, nat_eq_iff, nat_Eq, text_eq, text_eq_iff, text_Eq, arith, Lacks,
  cut_byte, cut_byte-append, All,
}
use llm_openresty.Base.Dict.{Dict, get, or_default}
use llm_openresty.Listener.Bucket.{Bucket, Entry, new_bucket, count_entry}
use llm_openresty.Listener.Aggregator.{
  Aggregator, Request, Ref, bkey, key_of, fresh_bucket, new_aggregator, mark_dirty, in_active,
  in_archive, not_active, choose, ingest, flush_closed_minutes,
}
use llm_openresty.Listener.Aggregator.Placed.{find, hits}
use llm_openresty.Listener.Aggregator.Find.{Apart, ingest-find, ingest-Apart}
use llm_openresty.Listener.Aggregator.Closing.{Tidy, KeptAt, flush-Apart, flush-find}
use llm_openresty.Listener.Aggregator.Tidy.{flush-Tidy, ingest-Tidy}

pub data Op : Type 0 where
  requested : Request → Op
  flushed_at : ℕ → Op

abbrev pub step : Op → Aggregator → Aggregator
step (requested q) a = ingest q a
step (flushed_at now) a = flush_closed_minutes now a

unfoldable pub run : List Op → Aggregator → Aggregator
run [] a = a
run (op ∷ ops) a = run ops (step op a)

-- The entries of the requests of a peer and a stream in a minute.
abbrev pub asks : Request → ℕ → Text → Text → Bool
asks q m p s = nat_eq q.minute m && (text_eq q.peer p && text_eq q.stream s)

abbrev pub entries_of : List Op → ℕ → Text → Text → List Entry
entries_of [] m p s = []
entries_of (flushed_at now ∷ ops) m p s = entries_of ops m p s
entries_of (requested q ∷ ops) m p s =
    let rest = entries_of ops m p s in if asks q m p s then q.entry ∷ rest else rest

abbrev pub count_all : Bucket → List Entry → Bucket
count_all b [] = b
count_all b (e ∷ es) = count_all (count_entry e b) es

-- The bucket of a minute, a peer and a stream, if there is a request of these.
abbrev pub tally : Bucket → List Entry → Option Bucket
tally b [] = none
tally b (e ∷ es) = some (count_all b (e ∷ es))

-- No peer has a NUL byte, which separates the peer and the stream in a key; and no flush evicts the minute.
abbrev pub Regular : ℕ → ℕ → Op → Type 0
Regular keep_min m (requested q) = Lacks 0 q.peer
Regular keep_min m (flushed_at now) = KeptAt keep_min now m

abbrev cut_or_empty : Option (Text × Text) → Text × Text
cut_or_empty o = or_default o ([], [])

-- Keys of different peers or streams differ.
bkey-injective : (p q s t : Text) → Lacks 0 p → Lacks 0 q → bkey p s ≡ bkey q t → (p ≡ q) × (s ≡ t)
bkey-injective p q s t h g e =
    let cuts = sym (cut_byte-append 0 p s h) ∙ ap (cut_byte 0) e ∙ cut_byte-append 0 q t g in
    (ap (λ o. (cut_or_empty o).0) cuts, ap (λ o. (cut_or_empty o).1) cuts)

hits-asks :
    (q : Request) (m : ℕ) (p s : Text)
    → Lacks 0 q.peer
    → Lacks 0 p
    → hits q m (bkey p s) ≡ asks q m p s
hits-asks q m p s h g = ground (
  arith,
  bkey-injective q.peer p q.stream s h g,
  ap₂ bkey,
  text_eq_iff (key_of q) (bkey p s),
  text_eq_iff q.peer p,
  text_eq_iff q.stream s,
)

keep_mark_dirty :
    (r : Ref) (a : Aggregator) → (mark_dirty r a).archive_keep_min ≡ a.archive_keep_min
keep_mark_dirty r a = ground arith

module _ (q : Request) (a : Aggregator) where
  keep_active :
      (bk : Dict Text Ref) (o : Option Ref)
      → (in_active q bk o a).1.archive_keep_min ≡ a.archive_keep_min
  keep_active bk none = refl
  keep_active bk (some r) = refl

  keep_archive :
      (bk : Dict Text Ref) (o : Option Ref)
      → (in_archive q bk o a).1.archive_keep_min ≡ a.archive_keep_min
  keep_archive bk none = keep_mark_dirty a.next _
  keep_archive bk (some r) = keep_mark_dirty r a

  keep_not_active :
      (o : Option (Dict Text Ref)) → (not_active q o a).1.archive_keep_min ≡ a.archive_keep_min
  keep_not_active none = refl
  keep_not_active (some bk) = keep_archive bk (get bk (key_of q))

  keep_choose :
      (o : Option (Dict Text Ref)) → (choose q o a).1.archive_keep_min ≡ a.archive_keep_min
  keep_choose none = keep_not_active (get a.archive_idx q.minute)
  keep_choose (some bk) = keep_active bk (get bk (key_of q))

keep_step : (op : Op) (a : Aggregator) → (step op a).archive_keep_min ≡ a.archive_keep_min
unfolding ingest flush_closed_minutes
keep_step (requested q) a = keep_choose q a (get a.active q.minute)
keep_step (flushed_at now) a = refl

step-Apart : (op : Op) (a : Aggregator) → Apart a → Tidy a → Apart (step op a)
step-Apart (requested q) a p t = ingest-Apart q a p
step-Apart (flushed_at now) a p t = flush-Apart now a t p

step-Tidy : (op : Op) (a : Aggregator) → Tidy a → Tidy (step op a)
step-Tidy (requested q) a t = ingest-Tidy q a t
step-Tidy (flushed_at now) a t = flush-Tidy now a t

-- A bucket, and the entries that are still to come.
abbrev extend : Bucket → Option Bucket → List Entry → Option Bucket
extend b o [] = o
extend b o (e ∷ es) = extend b (some (count_entry e (or_default o b))) es

extend-some : (b c : Bucket) (es : List Entry) → extend b (some c) es ≡ some (count_all c es)
extend-some b c [] = refl
extend-some b c (e ∷ es) = extend-some b (count_entry e c) es

extend-none : (b : Bucket) (es : List Entry) → extend b none es ≡ tally b es
extend-none b [] = refl
extend-none b (e ∷ es) = extend-some b (count_entry e b) es

module _ (m : ℕ) (p s : Text) (lacks : Lacks 0 p) where
  asked : (q : Request) → asks q m p s ≡ true → (q.minute ≡ m) × ((q.peer ≡ p) × (q.stream ≡ s))
  asked q e = ground (arith, nat_eq_iff q.minute m, text_eq_iff q.peer p, text_eq_iff q.stream s)

  base : (q : Request) → asks q m p s ≡ true → fresh_bucket q ≡ new_bucket m p s
  base q e =
      let (f, (g, h)) = asked q e in
      ap (λ n. new_bucket n q.peer q.stream) f ∙ ap₂ (new_bucket m) g h

  place :
      (q : Request) (a : Aggregator)
      → asks q m p s ≡ true
      → find a q.minute (key_of q) ≡ find a m (bkey p s)
  place q a e = let (f, (g, h)) = asked q e in ap₂ (find a) f (ap₂ bkey g h)

  first-find :
      (q : Request) (es : List Entry) (a : Aggregator)
      → Lacks 0 q.peer
      → Apart a
      → extend (new_bucket m p s) (find (ingest q a) m (bkey p s)) es
        ≡ extend
            (new_bucket m p s)
            (find a m (bkey p s))
            (if asks q m p s then q.entry ∷ es else es)
  first-find q es a h apart =
      ap (λ o. extend (new_bucket m p s) o es)
        (ingest-find q a m (bkey p s) apart
          ∙ ap
              (λ c.
                if c
                then some
                    (count_entry q.entry (or_default (find a q.minute (key_of q)) (fresh_bucket q)))
                else find a m (bkey p s))
              (hits-asks q m p s h lacks))
      ∙ go (asks q m p s) refl
    where
      go :
          (c : Bool)
          → asks q m p s ≡ c
          → extend
              (new_bucket m p s)
              (if c
                then some
                    (count_entry q.entry (or_default (find a q.minute (key_of q)) (fresh_bucket q)))
                else find a m (bkey p s))
              es
            ≡ extend (new_bucket m p s) (find a m (bkey p s)) (if c then q.entry ∷ es else es)
      go true e =
          ap₂ (λ o b. extend (new_bucket m p s) (some (count_entry q.entry (or_default o b))) es)
            (place q a e) (base q e)
      go false e = refl

  extend-find :
      (ops : List Op) (a : Aggregator)
      → Apart a
      → Tidy a
      → All (Regular a.archive_keep_min m) ops
      → find (run ops a) m (bkey p s)
        ≡ extend (new_bucket m p s) (find a m (bkey p s)) (entries_of ops m p s)
  unfolding run
  extend-find [] a apart tidy h = refl
  extend-find (requested q ∷ ops) a apart tidy (h, hs) =
      extend-find ops (ingest q a) (ingest-Apart q a apart) (ingest-Tidy q a tidy)
        (subst (λ k. All (Regular k m) ops) (sym (keep_step (requested q) a)) hs)
      ∙ first-find q (entries_of ops m p s) a h apart
  extend-find (flushed_at now ∷ ops) a apart tidy (h, hs) =
      extend-find ops (flush_closed_minutes now a) (flush-Apart now a tidy apart)
        (flush-Tidy now a tidy)
        (subst (λ k. All (Regular k m) ops) (sym (keep_step (flushed_at now) a)) hs)
      ∙ ap (λ o. extend (new_bucket m p s) o (entries_of ops m p s))
          (flush-find now a tidy m (bkey p s) h)

new-Apart : (keep_min : ℕ) → Apart (new_aggregator keep_min)
unfolding get
new-Apart keep_min = record {
  same_minute = λ m n j k r h g. absurd cc;
  same_key = λ m n j k r h g. absurd cc;
  in_heap = λ m k r h. absurd cc;
}

new-Tidy : (keep_min : ℕ) → Tidy (new_aggregator keep_min)
unfolding get
new-Tidy keep_min = record { disjoint = λ m bk h. refl; minutes = tt; keys = λ m bk h. absurd cc }

nothing : (keep_min m : ℕ) (k : Text) → find (new_aggregator keep_min) m k ≡ none
unfolding get
nothing keep_min m k = refl

-- After any requests and flushes, the aggregator has for a minute, a peer and a stream the bucket that
-- counts exactly the requests of these, in their order, and none if there are none; where no peer has
-- a NUL byte and no flush is so late that it evicts the minute.
pub run-find :
    (ops : List Op) (keep_min m : ℕ) (p s : Text)
    → Lacks 0 p
    → All (Regular keep_min m) ops
    → find (run ops (new_aggregator keep_min)) m (bkey p s)
      ≡ tally (new_bucket m p s) (entries_of ops m p s)
run-find ops keep_min m p s lacks h =
    extend-find m p s lacks ops (new_aggregator keep_min) (new-Apart keep_min) (new-Tidy keep_min) h
    ∙ ap (λ o. extend (new_bucket m p s) o (entries_of ops m p s)) (nothing keep_min m (bkey p s))
    ∙ extend-none (new_bucket m p s) (entries_of ops m p s)
