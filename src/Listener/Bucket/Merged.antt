-- ===== src/Listener/Bucket/Merged.antt =====
-- What reload makes of the lines of a bucket in bodylog-listener-go/main.go.
use llm_openresty.Base.{
  ℕ, ◌<◌, ◌≡◌, ◌≢◌, refl, sym, ap, ap₂, ◌∙◌, subst, Bool, true, false, List, [], ◌∷◌, if◌then◌else◌,
  add64, sub64, nat_eq, add64-sub64, add64-lt, word_mod, arith, All,
}
use llm_openresty.Listener.Bucket.{
  Bucket, Entry, Archived, count_entry, add_bucket, delta_of, close_bucket, late, flush_dirty,
  later, count_if, is_2xx, is_4xx, is_5xx,
}

-- The fields that are summed up and that a delta carries.
abbrev pub sums : Bucket → List ℕ
sums b =
    b.requests ∷ b.status_2xx ∷ b.status_4xx ∷ b.status_5xx ∷ b.prompt_tok ∷ b.cached_tok
    ∷ b.compl_tok ∷ b.total_tok ∷ b.req_bytes ∷ b.resp_bytes ∷ b.rt_sum_ms ∷ []

abbrev Words : List ℕ → Type 0
Words = All (λ n. n < word_mod)

abbrev pub IsBucket : Bucket → Type 0
IsBucket b = Words (sums b)

abbrev added : List ℕ → List ℕ → List ℕ
added [] ys = []
added (x ∷ xs) [] = []
added (x ∷ xs) (y ∷ ys) = add64 x y ∷ added xs ys

abbrev differences : List ℕ → List ℕ → List ℕ
differences [] ys = []
differences (x ∷ xs) [] = []
differences (x ∷ xs) (y ∷ ys) = sub64 x y ∷ differences xs ys

abbrev SameLength : List ℕ → List ℕ → Type 0
SameLength [] [] = Unit
SameLength [] (y ∷ ys) = 1 < 0
SameLength (x ∷ xs) [] = 1 < 0
SameLength (x ∷ xs) (y ∷ ys) = SameLength xs ys

added-differences :
    (last cur : List ℕ) → SameLength last cur → Words cur → added last (differences cur last) ≡ cur
added-differences [] [] s w = refl
added-differences [] (y ∷ ys) s w = absurd (omega arith)
added-differences (x ∷ xs) [] s w = absurd (omega arith)
added-differences (x ∷ xs) (y ∷ ys) s (h, w) =
    ap₂ (λ a l. a ∷ l) (add64-sub64 x y h) (added-differences xs ys s w)

-- A delta that is added to what was last written gives the bucket.
delta-sums :
    (merged last cur : Bucket)
    → sums merged ≡ sums last
    → IsBucket cur
    → sums (add_bucket merged (delta_of last cur)) ≡ sums cur
unfolding add_bucket delta_of
delta-sums merged last cur e w =
    ap (λ l. added l (differences (sums cur) (sums last))) e
    ∙ added-differences (sums last) (sums cur) tt w

count_if-lt : (b : Bool) (n : ℕ) → n < word_mod → count_if b n < word_mod
count_if-lt true n h = add64-lt n 1
count_if-lt false n h = h

count_entry-IsBucket : (e : Entry) (b : Bucket) → IsBucket b → IsBucket (count_entry e b)
unfolding count_entry
count_entry-IsBucket e b (h0, (h1, (h2, (h3, rest)))) = (
  add64-lt b.requests 1,
  (
    count_if-lt (is_2xx e.status) b.status_2xx h1,
    (
      count_if-lt (is_4xx e.status) b.status_4xx h2,
      (
        count_if-lt (is_5xx e.status) b.status_5xx h3,
        (
          add64-lt b.prompt_tok e.prompt,
          (
            add64-lt b.cached_tok e.cached,
            (
              add64-lt b.compl_tok e.compl,
              (
                add64-lt b.total_tok e.total,
                (
                  add64-lt b.req_bytes e.req_bytes,
                  (add64-lt b.resp_bytes e.resp_bytes, (add64-lt b.rt_sum_ms e.rt_ms, tt)),
                ),
              ),
            ),
          ),
        ),
      ),
    ),
  ),
)

-- The lines add up to what was last written.
abbrev Kept : Archived → Type 0
Kept a = (sums a.merged ≡ sums a.last_written) × IsBucket a.cur

late-Kept : (e : Entry) (a : Archived) → Kept a → Kept (late e a)
unfolding late
late-Kept e a (m, w) = (m, count_entry-IsBucket e a.cur w)

flush-Kept : (a : Archived) → Kept a → Kept (flush_dirty a)
unfolding flush_dirty
flush-Kept a (m, w) = go (nat_eq (delta_of a.last_written a.cur).requests 0)
  where
    go :
        (b : Bool)
        → Kept (
            if b then a else record a {
              last_written = a.cur;
              merged = add_bucket a.merged (delta_of a.last_written a.cur);
            })
    go true = (m, w)
    go false = (delta-sums a.merged a.last_written a.cur m w, w)

later-Kept : (l : List (Entry × Bool)) (a : Archived) → Kept a → Kept (later l a)
unfolding later
later-Kept [] a k = k
later-Kept ((e, flushed) ∷ l) a k =
    later-Kept l (if flushed then flush_dirty (late e a) else late e a) (go flushed)
  where
    go : (b : Bool) → Kept (if b then flush_dirty (late e a) else late e a)
    go true = flush-Kept (late e a) (late-Kept e a k)
    go false = late-Kept e a k

flush-sums :
    (a : Archived)
    → Kept a
    → (b : Bool) → b ≡ false
    → sums
        (if b then a else record a {
          last_written = a.cur;
          merged = add_bucket a.merged (delta_of a.last_written a.cur);
        }).merged
      ≡ sums a.cur
flush-sums a (m, w) true e = cc
flush-sums a (m, w) false e = delta-sums a.merged a.last_written a.cur m w

-- A bucket of int64 patterns is closed and written, and any late requests follow, with or without a
-- flush behind each. If requests have come since the last line that was written, as the difference
-- of the counts tells, then the next flush makes the lines add up to the bucket in all the sums that
-- a line carries: those of requests, status classes, tokens, bytes and response times.
pub later-sums :
    (b : Bucket) (l : List (Entry × Bool))
    → IsBucket b
    → let a = later l (close_bucket b) in
      sub64 a.cur.requests a.last_written.requests ≢ 0 → sums (flush_dirty a).merged ≡ sums a.cur
unfolding flush_dirty
later-sums b l w new =
    let a = later l (close_bucket b) in
    flush-sums a (later-Kept l (close_bucket b) (refl, w))
      (nat_eq (delta_of a.last_written a.cur).requests 0) (unfold delta_of in ground (arith, new))

-- The sum of the times to the first chunk.
flush-frt :
    (a : Archived)
    → a.merged.frt_sum_ms < word_mod
    → (flush_dirty a).merged.frt_sum_ms ≡ a.merged.frt_sum_ms
unfolding flush_dirty
flush-frt a h = go (nat_eq (delta_of a.last_written a.cur).requests 0)
  where
    zero_frt :
        add64 a.merged.frt_sum_ms (delta_of a.last_written a.cur).frt_sum_ms ≡ a.merged.frt_sum_ms
    zero_frt = unfold delta_of add64 in omega (arith, h)

    go :
        (b : Bool)
        → (if b then a else record a {
          last_written = a.cur;
          merged = add_bucket a.merged (delta_of a.last_written a.cur);
        }).merged.frt_sum_ms
          ≡ a.merged.frt_sum_ms
    go true = refl
    go false = unfold add_bucket in zero_frt

step-frt :
    (e : Entry) (b : Bool) (a : Archived)
    → a.merged.frt_sum_ms < word_mod
    → (if b then flush_dirty (late e a) else late e a).merged.frt_sum_ms ≡ a.merged.frt_sum_ms
unfolding late
step-frt e true a h = flush-frt (record a { cur = count_entry e a.cur }) h
step-frt e false a h = refl

-- Whatever late requests follow a closed bucket, and however often it is flushed, the lines written
-- for it add up to the sum of first-chunk times that it had when it was closed: the times of the
-- late requests are in no line.
pub later-frt_sum_ms :
    (l : List (Entry × Bool)) (a : Archived)
    → a.merged.frt_sum_ms < word_mod
    → (later l a).merged.frt_sum_ms ≡ a.merged.frt_sum_ms
unfolding later
later-frt_sum_ms [] a h = refl
later-frt_sum_ms ((e, b) ∷ l) a h =
    let s = step-frt e b a h in
    later-frt_sum_ms l (if b then flush_dirty (late e a) else late e a)
      (subst (λ n. n < word_mod) (sym s) h)
    ∙ s
