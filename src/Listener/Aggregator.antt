-- ===== src/Listener/Aggregator.antt =====
-- The aggregator of bodylog-listener-go/main.go: ingest, flushClosedMinutes and reload on its maps.
-- Buckets stand in a heap, since the maps and the archive share pointers to them.
pub mod Placed
pub mod Find
pub mod Closing
pub mod Tidy
pub mod History
pub mod Reload
mod Examples
use llm_openresty.Base.{
  ℕ, zero, suc, ◌+◌, ◌-◌, ◌*◌, Bool, true, false, not, ◌&&◌, ◌||◌, Option, none, some, List, [],
  ◌∷◌, ◌++◌, Text, if◌then◌else◌, nat_eq, nat_Eq, text_Eq, ltb, leb, any, length,
}
use llm_openresty.Base.Dict.{Dict, get, get_or, put, remove}
use llm_openresty.Listener.Bucket.{Bucket, Entry, new_bucket, count_entry, add_bucket, delta_of}

-- A request as ingest reads it.
pub record Request : Type 0 where
  pub minute : ℕ
  pub peer : Text
  pub stream : Text
  pub entry : Entry

-- bkey
abbrev pub bkey : Text → Text → Text
bkey peer stream = peer ++ 0 ∷ stream

-- *bucket
abbrev pub Ref : Type 0
Ref = ℕ

abbrev pub Index : Type 0
Index = Dict ℕ (Dict Text Ref)

-- aggregator. Addresses from `next` on are free; `lines` is what appendToFile has been given.
pub record Aggregator : Type 0 where
  pub heap : Ref → Bucket
  pub next : Ref
  pub active : Index
  pub archive : List Ref
  pub archive_idx : Index
  pub archive_dirty : List Ref
  pub archive_last_written : Dict Ref Bucket
  pub archive_keep_min : ℕ
  pub lines : List Bucket

abbrev pub zero_bucket : Bucket
zero_bucket = new_bucket 0 [] []

-- newAggregator
abbrev pub new_aggregator : ℕ → Aggregator
new_aggregator keep_min = record {
  heap = λ r. zero_bucket;
  next = 0;
  active = [];
  archive = [];
  archive_idx = [];
  archive_dirty = [];
  archive_last_written = [];
  archive_keep_min = keep_min;
  lines = [];
}

-- *r = b
abbrev pub store : (Ref → Bucket) → Ref → Bucket → Ref → Bucket
store heap r b x = if nat_eq x r then b else heap x

abbrev pub alloc : Bucket → Aggregator → Aggregator
alloc b a = record a { heap = store a.heap a.next b; next = suc a.next }

-- archiveDirty[b] = struct{}{}
abbrev pub mark_dirty : Ref → Aggregator → Aggregator
mark_dirty r a =
    if any (nat_eq r) a.archive_dirty then a else record a { archive_dirty = r ∷ a.archive_dirty }

-- The insertion before the first bucket of the same minute or a later one, as sort.Search finds it.
unfoldable pub insert_archive : (Ref → Bucket) → ℕ → Ref → List Ref → List Ref
insert_archive heap minute r [] = r ∷ []
insert_archive heap minute r (x ∷ l) =
    let rest = insert_archive heap minute r l in
    if leb minute (heap x).minute then r ∷ x ∷ l else x ∷ rest

abbrev pub key_of : Request → Text
key_of q = bkey q.peer q.stream

abbrev pub fresh_bucket : Request → Bucket
fresh_bucket q = new_bucket q.minute q.peer q.stream

-- The three ways in which ingest chooses the bucket.
abbrev pub in_active : Request → Dict Text Ref → Option Ref → Aggregator → Ref × Aggregator
in_active q bk (some r) a = (r, a)
in_active q bk none a = (
  a.next,
  record (alloc (fresh_bucket q) a) { active = put a.active q.minute (put bk (key_of q) a.next) },
)

abbrev pub in_archive : Request → Dict Text Ref → Option Ref → Aggregator → Ref × Aggregator
in_archive q bk (some r) a = (r, mark_dirty r a)
in_archive q bk none a = (
  a.next,
  mark_dirty a.next (record (alloc (fresh_bucket q) a) {
    archive_idx = put a.archive_idx q.minute (put bk (key_of q) a.next);
    archive = insert_archive (store a.heap a.next (fresh_bucket q)) q.minute a.next a.archive;
  }),
)

abbrev pub in_neither : Request → Aggregator → Ref × Aggregator
in_neither q a = (
  a.next,
  record (alloc (fresh_bucket q) a) { active = put a.active q.minute ((key_of q, a.next) ∷ []) },
)

abbrev pub not_active : Request → Option (Dict Text Ref) → Aggregator → Ref × Aggregator
not_active q none a = in_neither q a
not_active q (some bk) a = in_archive q bk (get bk (key_of q)) a

abbrev pub choose : Request → Option (Dict Text Ref) → Aggregator → Ref × Aggregator
choose q (some bk) a = in_active q bk (get bk (key_of q)) a
choose q none a = not_active q (get a.archive_idx q.minute) a

-- ingest
abbrev pub counted : Request → Ref × Aggregator → Aggregator
counted q (r, a) = record a { heap = store a.heap r (count_entry q.entry (a.heap r)) }

unfoldable pub ingest : Request → Aggregator → Aggregator
unfolding insert_archive
ingest q a = counted q (choose q (get a.active q.minute) a)

-- The loop of flushClosedMinutes over the buckets of a closed minute.
unfoldable pub close_buckets : (Ref → Bucket) → Dict Text Ref → Dict Text Ref → Dict Text Ref
close_buckets heap [] idx = idx
close_buckets heap ((k, r) ∷ bk) idx = close_buckets heap bk (put idx k r)

unfoldable pub refs_of : Dict Text Ref → List Ref
refs_of [] = []
refs_of ((k, r) ∷ bk) = r ∷ refs_of bk

-- archiveIdx behind the loop over the active minutes, the new pointers, and what stays active.
unfoldable pub close_minutes : (Ref → Bucket) → ℕ → Index → Index → Index
close_minutes heap cutoff [] idx = idx
close_minutes heap cutoff ((m, bk) ∷ l) idx =
    close_minutes heap cutoff l
      (if ltb m cutoff then put idx m (close_buckets heap bk (get_or idx m [])) else idx)

unfoldable pub new_refs : ℕ → Index → List Ref
new_refs cutoff [] = []
new_refs cutoff ((m, bk) ∷ l) =
    let rest = new_refs cutoff l in if ltb m cutoff then refs_of bk ++ rest else rest

unfoldable pub still_active : ℕ → Index → Index
still_active cutoff [] = []
still_active cutoff ((m, bk) ∷ l) =
    let rest = still_active cutoff l in if ltb m cutoff then rest else (m, bk) ∷ rest

-- archiveLastWritten[b] = *b for every new pointer.
unfoldable pub snapshot : (Ref → Bucket) → List Ref → Dict Ref Bucket → Dict Ref Bucket
snapshot heap [] lw = lw
snapshot heap (r ∷ l) lw = snapshot heap l (put lw r (heap r))

unfoldable pub buckets_at : (Ref → Bucket) → List Ref → List Bucket
buckets_at heap [] = []
buckets_at heap (r ∷ l) = heap r ∷ buckets_at heap l

-- sort.Slice by minute.
unfoldable pub sort_archive : (Ref → Bucket) → List Ref → List Ref
unfolding insert_archive
sort_archive heap [] = []
sort_archive heap (r ∷ l) = insert_archive heap (heap r).minute r (sort_archive heap l)

-- The loop over archiveDirty: archiveLastWritten, and the deltas.
unfoldable pub flush_deltas :
    (Ref → Bucket) → List Ref → List Ref → Dict Ref Bucket → Dict Ref Bucket × List Bucket
flush_deltas heap new_ptrs [] lw = (lw, [])
flush_deltas heap new_ptrs (r ∷ l) lw =
    let delta = delta_of (get_or lw r zero_bucket) (heap r) in
    elim (any (nat_eq r) new_ptrs || nat_eq delta.requests 0) [
      | true ↦ flush_deltas heap new_ptrs l lw
      | false ↦
          let rest = flush_deltas heap new_ptrs l (put lw r (heap r)) in (rest.0, delta ∷ rest.1)
    ]

-- The eviction: the archive, archiveIdx and archiveLastWritten.
unfoldable pub evict :
    (Ref → Bucket) → ℕ → List Ref → Index → Dict Ref Bucket → List Ref × (Index × Dict Ref Bucket)
evict heap cut_min [] idx lw = ([], (idx, lw))
evict heap cut_min (r ∷ l) idx lw = elim (ltb (heap r).minute cut_min) [
  | true ↦ evict heap cut_min l (remove idx (heap r).minute) (remove lw r)
  | false ↦ (r ∷ l, (idx, lw))
]

abbrev pub evict_if :
    ℕ
    → (Ref → Bucket)
    → ℕ
    → List Ref
    → Index
    → Dict Ref Bucket
    → List Ref × (Index × Dict Ref Bucket)
evict_if zero heap now archive idx lw = (archive, (idx, lw))
evict_if (suc k) heap now archive idx lw = evict heap (now - suc k * 60) archive idx lw

-- flushClosedMinutes at the time `now`; the maps are walked in the order of their lists.
unfoldable pub flush_closed_minutes : ℕ → Aggregator → Aggregator
unfolding close_buckets refs_of close_minutes new_refs still_active snapshot buckets_at sort_archive
    flush_deltas evict
flush_closed_minutes now a =
    let cutoff = now - 90 in
    let new_ptrs = new_refs cutoff a.active in
    let idx = close_minutes a.heap cutoff a.active a.archive_idx in
    let (lw, deltas) =
      flush_deltas a.heap new_ptrs a.archive_dirty
        (snapshot a.heap new_ptrs a.archive_last_written) in
    let archive =
      if nat_eq (length new_ptrs) 0
      then a.archive
      else sort_archive a.heap (a.archive ++ new_ptrs) in
    let (archive', (idx', lw')) = evict_if a.archive_keep_min a.heap now archive idx lw in
    record a {
      active = still_active cutoff a.active;
      archive = archive';
      archive_idx = idx';
      archive_dirty = [];
      archive_last_written = lw';
      lines = a.lines ++ (buckets_at a.heap new_ptrs ++ deltas);
    }

-- The maps that reload fills; `loaded` is in the order of the first lines.
pub record Loading : Type 0 where
  pub heap : Ref → Bucket
  pub next : Ref
  pub idx : Index
  pub loaded : List Ref

abbrev pub line_key : Bucket → Text
line_key b = bkey b.peer b.stream

abbrev pub merge_line : Bucket → Option Ref → Loading → Loading
merge_line b (some r) s = record s { heap = store s.heap r (add_bucket (s.heap r) b) }
merge_line b none s = record s {
  heap = store s.heap s.next b;
  next = suc s.next;
  idx = put s.idx b.minute (put (get_or s.idx b.minute []) (line_key b) s.next);
  loaded = s.loaded ++ s.next ∷ [];
}

-- The loop of reload over the lines that decode.
unfoldable pub load_lines : List Bucket → Loading → Loading
load_lines [] s = s
load_lines (b ∷ bs) s = load_lines bs (merge_line b (get (get_or s.idx b.minute []) (line_key b)) s)

-- reload, whose results replace the archive and archiveIdx.
unfoldable pub reload : List Bucket → Aggregator → Aggregator
unfolding load_lines sort_archive
reload bs a =
    let s = load_lines bs (record { heap = a.heap; next = a.next; idx = []; loaded = [] }) in
    record a {
      heap = s.heap;
      next = s.next;
      archive = sort_archive s.heap s.loaded;
      archive_idx = s.idx;
    }
