-- ===== src/Listener/Api/Summary/Totals.antt =====
-- The rows that summaryHandler and mergeBucketsByPeer of bodylog-listener-go/httpapi.go make of the buckets.
use llm_openresty.Base.{
  ℕ, ◌≡◌, refl, sym, ap, ◌∙◌, subst, Bool, true, false, Option, none, some, List, [], ◌∷◌, Text,
  text_eq, text_Eq, if◌then◌else◌, keep, Comparable, ◌==◌,
}
use llm_openresty.Base.Dict.{Dict, get, put, get-put, NodupKeys, put-NodupKeys, or_default}
use llm_openresty.Listener.Bucket.{Bucket, add_bucket}
use llm_openresty.Listener.Api.Summary.{
  joined, group, values, peer_start, peer_totals, without_stream, minute_peer, minute_peer_Eq,
  merge_buckets_by_peer,
}

-- The sum of the rows of one key behind what there is.
abbrev pub total : (Bucket → Bucket) → Option Bucket → List Bucket → Option Bucket
total start o [] = o
total start o (b ∷ bs) = total start (some (joined start b o)) bs

abbrev pub at_most_one : Option Bucket → List Bucket
at_most_one none = []
at_most_one (some b) = b ∷ []

module _ {K : Type 0} ⦃cmp : Comparable K⦄ (key : Bucket → K) (start : Bucket → Bucket) where
  group-get :
      (bs : List Bucket) (d : Dict K Bucket) (k : K)
      → get (group key start bs d) k ≡ total start (get d k) (keep (λ b. key b == k) bs)
  unfolding group keep
  group-get [] d k = refl
  group-get (b ∷ bs) d k =
      group-get bs (put d (key b) (joined start b (get d (key b)))) k
      ∙ ap (λ o. total start o (keep (λ b. key b == k) bs))
          (get-put d (key b) k (joined start b (get d (key b))))
      ∙ go (key b == k) refl
    where
      go :
          (c : Bool)
          → (key b == k) ≡ c
          → total start
              (if c then some (joined start b (get d (key b))) else get d k)
              (keep (λ b. key b == k) bs)
            ≡ total start (get d k) (elim c as (λ x. List Bucket) [
              | true ↦ b ∷ keep (λ b. key b == k) bs
              | false ↦ keep (λ b. key b == k) bs
            ])
      go true e =
          ap (λ j. total start (some (joined start b (get d j))) (keep (λ b. key b == k) bs))
            ((cmp.same_iff (key b) k).0 e)
      go false e = refl

  group-NodupKeys :
      (bs : List Bucket) (d : Dict K Bucket) → NodupKeys d → NodupKeys (group key start bs d)
  unfolding group
  group-NodupKeys [] d h = h
  group-NodupKeys (b ∷ bs) d h =
      group-NodupKeys bs (put d (key b) (joined start b (get d (key b))))
        (put-NodupKeys d (key b) _ h)

  -- Every bucket of the map stands under its own key.
  abbrev Keyed : Dict K Bucket → Type 0
  Keyed [] = Unit
  Keyed ((k, b) ∷ d) = (key b ≡ k) × Keyed d

  put-Keyed : (d : Dict K Bucket) (k : K) (b : Bucket) → key b ≡ k → Keyed d → Keyed (put d k b)
  unfolding put
  put-Keyed [] k b h t = (h, tt)
  put-Keyed ((j, c) ∷ d) k b h (e, t) = go (j == k) (put-Keyed d k b h t)
    where
      go : (x : Bool) → Keyed (put d k b) → Keyed (if x then (k, b) ∷ d else (j, c) ∷ put d k b)
      go true r = (h, t)
      go false r = (e, r)

  get-Keyed : (d : Dict K Bucket) (k : K) (b : Bucket) → Keyed d → get d k ≡ some b → key b ≡ k
  unfolding get
  get-Keyed [] k b t h = absurd cc
  get-Keyed ((j, c) ∷ d) k b (e, t) h = go (j == k) refl h (get-Keyed d k b t)
    where
      go :
          (x : Bool)
          → (j == k) ≡ x
          → (if x then some c else get d k) ≡ some b
          → (get d k ≡ some b → key b ≡ k)
          → key b ≡ k
      go true f g rec = ap (λ o. key (or_default o c)) (sym g) ∙ e ∙ (cmp.same_iff j k).0 f
      go false f g rec = rec g

  module _ (starts : (b : Bucket) → key (start b) ≡ key b)
      (adds : (b c : Bucket) → key (add_bucket c b) ≡ key c) where
    joined-key :
        (b : Bucket) (o : Option Bucket) (d : Dict K Bucket)
        → Keyed d
        → get d (key b) ≡ o
        → key (joined start b o) ≡ key b
    joined-key b none d t h = starts b
    joined-key b (some c) d t h = adds b c ∙ get-Keyed d (key b) c t h

    group-Keyed : (bs : List Bucket) (d : Dict K Bucket) → Keyed d → Keyed (group key start bs d)
    unfolding group
    group-Keyed [] d t = t
    group-Keyed (b ∷ bs) d t =
        group-Keyed bs (put d (key b) (joined start b (get d (key b))))
          (put-Keyed d (key b) _ (joined-key b (get d (key b)) d t refl) t)

  keep-values :
      (d : Dict K Bucket) (k : K)
      → NodupKeys d
      → Keyed d
      → keep (λ b. key b == k) (values d) ≡ at_most_one (get d k)
  unfolding keep values get
  keep-values [] k n t = refl
  keep-values ((j, c) ∷ d) k (fresh, n) (e, t) =
      ap
        (λ i. elim (i == k) as (λ x. List Bucket) [
          | true ↦ c ∷ keep (λ b. key b == k) (values d)
          | false ↦ keep (λ b. key b == k) (values d)
        ])
        e
      ∙ go (j == k) refl (keep-values d k n t)
    where
      go :
          (x : Bool)
          → (j == k) ≡ x
          → keep (λ b. key b == k) (values d) ≡ at_most_one (get d k)
          → elim x as (λ x. List Bucket) [
            | true ↦ c ∷ keep (λ b. key b == k) (values d)
            | false ↦ keep (λ b. key b == k) (values d)
          ]
            ≡ at_most_one (if x then some c else get d k)
      go true f r =
          ap (λ l. c ∷ l)
            (r ∙ ap at_most_one (subst (λ i. get d i ≡ none) ((cmp.same_iff j k).0 f) fresh))
      go false f r = r

  -- Of the groups there is one of each key that a row has, and it is the sum of the rows of that key.
  group-values :
      ((b : Bucket) → key (start b) ≡ key b)
      → ((b c : Bucket) → key (add_bucket c b) ≡ key c)
      → (rows : List Bucket) (k : K)
      → keep (λ b. key b == k) (values (group key start rows []))
        ≡ at_most_one (total start none (keep (λ b. key b == k) rows))
  group-values starts adds rows k =
      keep-values (group key start rows []) k (group-NodupKeys rows [] tt)
        (group-Keyed starts adds rows [] tt)
      ∙ ap at_most_one
          (group-get rows [] k ∙ ap (λ o. total start o (keep (λ b. key b == k) rows)) (nothing k))
    where
      nothing : (k : K) → ◌≡◌ {A = Option Bucket} (get [] k) none
      nothing k = unfold get in refl

-- The row of a minute and a peer, as the loop folds it.
pub merge_buckets_by_peer-keep :
    (rows : List Bucket) (minute : ℕ) (peer : Text)
    → keep (λ b. minute_peer b == (minute, peer)) (merge_buckets_by_peer rows)
      ≡ at_most_one (total without_stream none (keep (λ b. minute_peer b == (minute, peer)) rows))
unfolding merge_buckets_by_peer
merge_buckets_by_peer-keep rows minute peer =
    group-values minute_peer without_stream (λ b. refl) (λ b c. unfold add_bucket in refl) rows
      (minute, peer)

-- The total of a peer, as the loop folds it.
pub peer_totals-keep :
    (rows : List Bucket) (peer : Text)
    → keep (λ b. text_eq b.peer peer) (peer_totals rows)
      ≡ at_most_one (total peer_start none (keep (λ b. text_eq b.peer peer) rows))
unfolding peer_totals
peer_totals-keep rows peer =
    group-values (λ b. b.peer) peer_start (λ b. unfold add_bucket in refl)
      (λ b c. unfold add_bucket in refl) rows peer
