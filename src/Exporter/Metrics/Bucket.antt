-- ===== src/Exporter/Metrics/Bucket.antt =====
-- promptBucket of bodylog-exporter-go/metrics.go.
use llm_openresty.Base.{
  ℕ, ◌+◌, ◌/◌, ◌%◌, ◌<◌, ◌≤◌, ◌≡◌, refl, ◌⊎◌, inl, inr, true, false, not, List, [], ◌∷◌, ◌++◌, Text,
  codes, if◌then◌else◌, slt64, ltb, arith, ltb→lt, Bool-cases,
}

abbrev pub prompt_bucket_bounds : List ℕ
prompt_bucket_bounds =
    1 ∷ 2 ∷ 3 ∷ 4 ∷ 6 ∷ 8 ∷ 10 ∷ 12 ∷ 16 ∷ 20 ∷ 24 ∷ 32 ∷ 40 ∷ 48 ∷ 64 ∷ 80 ∷ 96 ∷ 128 ∷ 160 ∷ 192
    ∷ 256 ∷ 384 ∷ 512 ∷ 768 ∷ 1024 ∷ []

-- %04d, for the numbers below 10000 that it is used for.
abbrev pub four_digits : ℕ → Text
four_digits n = (48 + n / 1000 % 10) ∷ (48 + n / 100 % 10) ∷ (48 + n / 10 % 10) ∷ (48 + n % 10) ∷ []

abbrev pub bucket_label : ℕ → ℕ → Text
bucket_label lo hi = four_digits lo ++ codes "k_" ++ four_digits hi ++ codes "k"

abbrev pub last_label : ℕ → Text
last_label lo = four_digits lo ++ codes "k_inf"

-- The loop that fills promptBucketLabels.
unfoldable pub labels_from : ℕ → List ℕ → List Text
labels_from lo [] = last_label lo ∷ []
labels_from lo (hi ∷ bounds) = bucket_label lo hi ∷ labels_from hi bounds

-- The loop of promptBucket over the bounds and the labels; the last label is behind the bounds.
unfoldable pub pick_label : List ℕ → List Text → ℕ → Text
pick_label bounds [] k = []
pick_label [] (l ∷ ls) k = l
pick_label (hi ∷ bounds) (l ∷ ls) k =
    let rest = pick_label bounds ls k in if ltb k hi then l else rest

unfoldable pub prompt_bucket : ℕ → Text
unfolding labels_from pick_label
prompt_bucket tok =
    if not (slt64 0 tok)
    then codes "unknown"
    else pick_label prompt_bucket_bounds (labels_from 0 prompt_bucket_bounds) (tok / 1024)

-- Two neighbours of a list of bounds that begins with `lo`.
unfoldable pub Neighbours : ℕ → List ℕ → ℕ → ℕ → Type 0
Neighbours lo [] a b = 1 < 0
Neighbours lo (hi ∷ bounds) a b = ((lo ≡ a) × (hi ≡ b)) ⊎ Neighbours hi bounds a b

unfoldable pub last_bound : ℕ → List ℕ → ℕ
last_bound lo [] = lo
last_bound lo (hi ∷ bounds) = last_bound hi bounds

-- The label of the half-open interval that k lies in.
abbrev pub InBucket : ℕ → List ℕ → ℕ → Text → Type 0
InBucket lo bounds k label =
    ((a : ℕ) × ((b : ℕ) × ((Neighbours lo bounds a b × (label ≡ bucket_label a b))
          × ((a ≤ k) × (k < b)))))
    ⊎ ((label ≡ last_label (last_bound lo bounds)) × (last_bound lo bounds ≤ k))

pick_label_lem :
    (lo : ℕ) (bounds : List ℕ) (k : ℕ)
    → lo ≤ k
    → InBucket lo bounds k (pick_label bounds (labels_from lo bounds) k)
unfolding labels_from pick_label Neighbours last_bound
pick_label_lem lo [] k h = inr (refl, h)
pick_label_lem lo (hi ∷ bounds) k h = elim (Bool-cases (ltb k hi)) [
  | inl b ↦ inl (lo, (hi, ((inl (refl, refl), rw b refl), (h, ltb→lt k hi b))))
  | inr b ↦ rw b (up (pick_label_lem hi bounds k (ground (arith, b))))
]
  where
    up : {t : Text} → InBucket hi bounds k t → InBucket lo (hi ∷ bounds) k t
    up (inl (a, (c, ((n, e), r)))) = inl (a, (c, ((inr n, e), r)))
    up (inr e) = inr e

-- A token count that is not positive as an int64 is labelled unknown. A positive one has the label
-- of the two neighbouring bounds that enclose it, counted in units of 1024 with the lower bound
-- included and the upper one excluded, or the label of the last bound if it is not below that.
pub prompt_bucket_lem :
    (tok : ℕ)
    → ((slt64 0 tok ≡ false) × (prompt_bucket tok ≡ codes "unknown"))
      ⊎ ((slt64 0 tok ≡ true) × InBucket 0 prompt_bucket_bounds (tok / 1024) (prompt_bucket tok))
unfolding prompt_bucket
prompt_bucket_lem tok = elim (Bool-cases (slt64 0 tok)) [
  | inl h ↦ inr (h, rw h (pick_label_lem 0 prompt_bucket_bounds (tok / 1024) (omega arith)))
  | inr h ↦ inl (h, rw h refl)
]
