-- ===== src/Listener/Aggregator/Reload.antt =====
-- What reload of bodylog-listener-go/main.go makes of the lines of summary.jsonl.
use llm_openresty.Base.{
  ℕ, ◌≡◌, refl, sym, ap, ap₂, ◌∙◌, Bool, true, false, ◌&&◌, inr, Option, none, some, List, [], ◌∷◌,
  Text, if◌then◌else◌, nat_eq, nat_eq_iff, nat_Eq, text_eq, text_eq_iff, text_Eq, arith,
}
use llm_openresty.Base.Dict.{Dict, get, get_or, put, get-put, or_default}
use llm_openresty.Listener.Bucket.{Bucket, Entry, add_bucket}
use llm_openresty.Listener.Aggregator.{
  Aggregator, Request, Ref, Index, Loading, new_aggregator, store, line_key, merge_line, load_lines,
  reload, zero_bucket, fresh_bucket,
}
use llm_openresty.Listener.Aggregator.Placed.{loc, loc_in, deref, find}
use llm_openresty.Listener.Aggregator.Find.{Apart, counted-Apart}

-- The maps of a run of reload, as an aggregator that has nothing active.
abbrev view : Loading → Aggregator
view s = record (new_aggregator 0) { heap = s.heap; next = s.next; archive_idx = s.idx }

abbrev no_entry : Entry
no_entry = record {
  status = 0;
  prompt = 0;
  cached = 0;
  compl = 0;
  total = 0;
  req_bytes = 0;
  resp_bytes = 0;
  rt_ms = 0;
  frt = none;
}

abbrev as_request : Bucket → Request
as_request b = record { minute = b.minute; peer = b.peer; stream = b.stream; entry = no_entry }

abbrev slot : Bucket → Loading → Option Ref
slot b s = get (get_or s.idx b.minute []) (line_key b)

abbrev fits : Bucket → ℕ → Text → Bool
fits b m k = nat_eq b.minute m && text_eq (line_key b) k

-- The sum of the lines of a minute and a key, behind what there is.
abbrev pub merged_into : Option Bucket → List Bucket → ℕ → Text → Option Bucket
merged_into o [] m k = o
merged_into none (b ∷ bs) m k =
    if fits b m k then merged_into (some b) bs m k else merged_into none bs m k
merged_into (some c) (b ∷ bs) m k =
    if fits b m k then merged_into (some (add_bucket c b)) bs m k else merged_into (some c) bs m k

-- What one line does to the bucket of its minute and key.
abbrev grown : Option Bucket → Bucket → Bucket
grown none b = b
grown (some c) b = add_bucket c b

get_or-loc : (idx : Index) (m : ℕ) (k : Text) → get (get_or idx m []) k ≡ loc_in none (get idx m) k
unfolding get_or get
get_or-loc idx m k = go (get idx m)
  where
    go : (o : Option (Dict Text Ref)) → get (or_default o []) k ≡ loc_in none o k
    go none = refl
    go (some bk) = refl

store-same : (heap : Ref → Bucket) (r : Ref) (b : Bucket) → store heap r b r ≡ b
store-same heap r b = ground (arith, nat_eq_iff r r)

store-other :
    (heap : Ref → Bucket) (r x : Ref) (b : Bucket) → nat_eq x r ≡ false → store heap r b x ≡ heap x
store-other heap r x b h = ground arith

module _ (b : Bucket) (s : Loading) (apart : Apart (view s)) where
  -- The pointer at the place of the line.
  here : (m : ℕ) (k : Text) → fits b m k ≡ true → loc (view s) m k ≡ slot b s
  unfolding get
  here m k e =
      sym (get_or-loc s.idx m k)
      ∙ ap₂ (λ n j. get (get_or s.idx n []) j) (ground (arith, nat_eq_iff b.minute m))
          (ground (arith, text_eq_iff (line_key b) k))

  -- A line of a place that has no bucket yet.
  new-loc :
      (m : ℕ) (k : Text)
      → loc (view (merge_line b none s)) m k
        ≡ (if fits b m k then some s.next else loc (view s) m k)
  unfolding get
  new-loc m k =
      ap (λ o. loc_in none o k)
        (get-put s.idx b.minute m (put (get_or s.idx b.minute []) (line_key b) s.next))
      ∙ go (nat_eq b.minute m) refl
    where
      go :
          (c : Bool)
          → nat_eq b.minute m ≡ c
          → loc_in none
              (if c then some (put (get_or s.idx b.minute []) (line_key b) s.next) else get s.idx m)
              k
            ≡ (if c && text_eq (line_key b) k then some s.next else loc (view s) m k)
      go true e =
          get-put (get_or s.idx b.minute []) (line_key b) k s.next
          ∙ ap (λ o. if text_eq (line_key b) k then some s.next else o)
              (get_or-loc s.idx b.minute k
                ∙ ap (λ n. loc (view s) n k) ((nat_eq_iff b.minute m).0 e))
      go false e = refl

  new-Apart : slot b s ≡ none → Apart (view (merge_line b none s))
  unfolding get
  new-Apart h =
      counted-Apart (as_request b) (view s) apart s.next
        (record (view (merge_line b none s)) {
          heap = store s.heap s.next (fresh_bucket (as_request b));
        })
        (record {
          at = new-loc;
          old_or_new = inr (sym (get_or-loc s.idx b.minute (line_key b)) ∙ h, (refl, (refl, refl)));
        })
        (store s.heap s.next b)

  merge-Apart : (o : Option Ref) → slot b s ≡ o → Apart (view (merge_line b o s))
  merge-Apart none h = new-Apart h
  merge-Apart (some r) h = record {
    same_minute = apart.same_minute;
    same_key = apart.same_key;
    in_heap = apart.in_heap;
  }

  new-find :
      (m : ℕ) (k : Text)
      → slot b s ≡ none
      → find (view (merge_line b none s)) m k
        ≡ (if fits b m k then some (grown (find (view s) m k) b) else find (view s) m k)
  new-find m k h = ap (deref (store s.heap s.next b)) (new-loc m k) ∙ go (fits b m k) refl
    where
      away :
          (o : Option Ref) → loc (view s) m k ≡ o → deref (store s.heap s.next b) o ≡ deref s.heap o
      away none e = refl
      away (some x) e = ap some (ground (arith, apart.in_heap m k x e, nat_eq_iff x s.next))

      go :
          (c : Bool)
          → fits b m k ≡ c
          → deref (store s.heap s.next b) (if c then some s.next else loc (view s) m k)
            ≡ (if c then some (grown (find (view s) m k) b) else find (view s) m k)
      go true e =
          ap some (store-same s.heap s.next b)
          ∙ ap (λ o. some (grown (deref s.heap o) b)) (sym (here m k e ∙ h))
      go false e = away (loc (view s) m k) refl

  old-find :
      (r : Ref) (m : ℕ) (k : Text)
      → slot b s ≡ some r
      → find (view (merge_line b (some r) s)) m k
        ≡ (if fits b m k then some (grown (find (view s) m k) b) else find (view s) m k)
  unfolding get
  old-find r m k h = go (fits b m k) refl
    where
      at : loc (view s) b.minute (line_key b) ≡ some r
      at = sym (get_or-loc s.idx b.minute (line_key b)) ∙ h

      away :
          (o : Option Ref)
          → loc (view s) m k ≡ o
          → fits b m k ≡ false
          → deref (store s.heap r (add_bucket (s.heap r) b)) o ≡ deref s.heap o
      away none e f = refl
      away (some x) e f = ap some (
          store-other s.heap r x _ (
            ground (
              arith,
              apart.same_minute b.minute m (line_key b) k r at,
              apart.same_key b.minute m (line_key b) k r at,
              nat_eq_iff x r,
              nat_eq_iff b.minute m,
              text_eq_iff (line_key b) k,
            )))

      go :
          (c : Bool)
          → fits b m k ≡ c
          → deref (store s.heap r (add_bucket (s.heap r) b)) (loc (view s) m k)
            ≡ (if c then some (grown (find (view s) m k) b) else find (view s) m k)
      go true e =
          ap (deref (store s.heap r (add_bucket (s.heap r) b))) (here m k e ∙ h)
          ∙ ap some (store-same s.heap r _)
          ∙ ap (λ o. some (grown (deref s.heap o) b)) (sym (here m k e ∙ h))
      go false e = away (loc (view s) m k) refl e

  merge-find :
      (o : Option Ref) (m : ℕ) (k : Text)
      → slot b s ≡ o
      → find (view (merge_line b o s)) m k
        ≡ (if fits b m k then some (grown (find (view s) m k) b) else find (view s) m k)
  merge-find none m k h = new-find m k h
  merge-find (some r) m k h = old-find r m k h

merged-step :
    (o : Option Bucket) (b : Bucket) (bs : List Bucket) (m : ℕ) (k : Text)
    → merged_into (if fits b m k then some (grown o b) else o) bs m k ≡ merged_into o (b ∷ bs) m k
merged-step none b bs m k = ground arith
merged-step (some c) b bs m k = ground arith

load_lines-find :
    (bs : List Bucket) (s : Loading) (m : ℕ) (k : Text)
    → Apart (view s)
    → find (view (load_lines bs s)) m k ≡ merged_into (find (view s) m k) bs m k
unfolding load_lines
load_lines-find [] s m k apart = ground arith
load_lines-find (b ∷ bs) s m k apart =
    load_lines-find bs (merge_line b (slot b s) s) m k (merge-Apart b s apart (slot b s) refl)
    ∙ ap (λ o. merged_into o bs m k) (merge-find b s apart (slot b s) m k refl)
    ∙ merged-step (find (view s) m k) b bs m k

-- A new aggregator that reloads lines has for a minute and a key the sum of exactly the lines of these,
-- which is the first of them with the later ones added in their order, and none if there is no such line.
pub reload-find :
    (bs : List Bucket) (keep_min m : ℕ) (k : Text)
    → find (reload bs (new_aggregator keep_min)) m k ≡ merged_into none bs m k
unfolding reload get
reload-find bs keep_min m k =
    load_lines-find bs (record { heap = λ r. zero_bucket; next = 0; idx = []; loaded = [] }) m k
      (record {
        same_minute = λ m n j k r h g. absurd cc;
        same_key = λ m n j k r h g. absurd cc;
        in_heap = λ m k r h. absurd cc;
      })
