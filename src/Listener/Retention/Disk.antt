-- ===== src/Listener/Retention/Disk.antt =====
-- The disk step of prune.
use llm_openresty.Base.{
  ℕ, suc, ◌+◌, ◌-◌, ◌≤◌, ◌<◌, ◌≡◌, refl, sym, ap, ◌∙◌, true, false, not, ◌&&◌, inl, inr, List, [],
  ◌∷◌, ◌++◌, Option, none, some, arith, add64, add64_small, word_mod, keep, take, Bool-cases, leb,
  append-nil, if◌then◌else◌,
}
use native.Mathlib.Nat.{zero-add}
use llm_openresty.Listener.Retention.Candidates.{Candidate, prune_candidates}
use llm_openresty.Listener.Retention.Pass.{
  World, DiskState, Disk, idle, warned, batch, age_step, disk_step, measured, with_stat,
  disk_decision, conclude, with_aged, prune, expired, limit_of, since_lt, disk_cooldown,
}
use llm_openresty.Listener.Retention.Sizes.{sizes, sizes-append, sizes-keep-le, avail_of-eq-sizes}
use llm_openresty.Listener.Retention.Order.{
  OldestFirst, keep-OldestFirst, prune_candidates-OldestFirst,
}
use llm_openresty.Listener.Retention.Age.{old, young, age_step-eq-keep}

module _ (w : World) (need : ℕ) where
  -- Oldest first, with nothing skipped but what cannot be removed.
  disk_step_prefix :
      (cs : List Candidate) (n : ℕ)
      → (k : ℕ) × (disk_step w need cs n ≡ keep w.removable (take k cs))
  unfolding disk_step keep
  disk_step_prefix [] n = (0, refl)
  disk_step_prefix (c ∷ cs) n = elim (Bool-cases (leb need n)) [
    | inl done ↦ (0, ground arith)
    | inr more ↦ elim (Bool-cases (w.removable c)) [
      | inl gone ↦ let (k, e) = disk_step_prefix cs (add64 n c.size) in (suc k, ground arith)
      | inr kept ↦ let (k, e) = disk_step_prefix cs n in (suc k, ground arith)
    ]
  ]

  disk_step_enough :
      (cs : List Candidate) (n : ℕ)
      → ((c : Candidate) → w.removable c ≡ true)
      → n + sizes cs < word_mod
      → need ≤ n + sizes cs
      → need ≤ n + sizes (disk_step w need cs n)
  unfolding disk_step sizes
  disk_step_enough [] n all fits enough = omega arith
  disk_step_enough (c ∷ cs) n all fits enough =
      ground (arith, all c, add64_small n c.size, disk_step_enough cs (n + c.size) all)

  disk_step_minimal :
      (cs init : List Candidate) (last : Candidate) (n : ℕ)
      → n + sizes cs < word_mod
      → disk_step w need cs n ≡ init ++ last ∷ []
      → n + sizes init < need
  unfolding disk_step sizes
  disk_step_minimal [] [] last n fits e = cc
  disk_step_minimal [] (d ∷ init) last n fits e = cc
  disk_step_minimal (c ∷ cs) [] last n fits e = ground (arith, disk_step_minimal cs [] last n)
  disk_step_minimal (c ∷ cs) (d ∷ init) last n fits e = ground (
    arith,
    add64_small n c.size,
    disk_step_minimal cs init last (n + c.size),
    disk_step_minimal cs (d ∷ init) last n,
  )

abbrev pub candidates : World → List Candidate
candidates w = prune_candidates w.fs w.has_duckdb w.today w.details_cutoff

-- The bytes in use, less those that the age step has freed.
abbrev pub used_after : World → ℕ → ℕ
used_after w used = used - sizes (old w (candidates w))

-- The bytes to free for the used size to be below the limit.
abbrev pub need_of : World → ℕ → ℕ → ℕ
need_of w used total = used_after w used - limit_of total w.disk_usage_pct + 1

-- The disk step has no reason to delete, or may not.
pub data IsQuiet (w : World) (st : DiskState) : Type 0 where
  off : w.disk_usage_pct ≡ 0 → IsQuiet w st
  no_stat : w.disk_stat ≡ none → IsQuiet w st
  below :
      (used total : ℕ)
      → w.disk_stat ≡ some (used, total)
      → used_after w used < limit_of total w.disk_usage_pct
      → IsQuiet w st
  cooling : (t : ℕ) → st.last_disk_batch ≡ some t → w.now - t < disk_cooldown → IsQuiet w st
  hopeless :
      (used total : ℕ)
      → w.disk_stat ≡ some (used, total)
      → sizes (young w (candidates w)) < need_of w used total
      → IsQuiet w st

module _ (w : World) (st : DiskState) (fits : sizes (candidates w) < word_mod) where
  aged_parts : age_step w (candidates w) 0 ≡ record {
    removed = old w (candidates w);
    freed = sizes (old w (candidates w));
    left = young w (candidates w);
  }
  aged_parts =
      age_step-eq-keep w (candidates w) 0
        (omega (arith, sizes-keep-le (λ c. expired w c && w.removable c) (candidates w)))
      ∙ ap
          (λ n. record { removed = old w (candidates w); freed = n; left = young w (candidates w) })
          (zero-add (sizes (old w (candidates w))))

  young_fits : sizes (young w (candidates w)) < word_mod
  young_fits = omega (arith, sizes-keep-le (λ c. not (expired w c)) (candidates w))

  abbrev decision : Disk
  decision = disk_decision w st (sizes (old w (candidates w))) (young w (candidates w))

  prune-decision : (d : Disk) → decision ≡ d → prune w st ≡ conclude w st (old w (candidates w)) d
  unfolding prune
  prune-decision d e =
      ap (λ a. with_aged w st a) aged_parts ∙ ap (λ d. conclude w st (old w (candidates w)) d) e

  -- What the disk step deletes.
  abbrev extra : Disk → List Candidate
  extra idle = []
  extra warned = []
  extra (batch cs) = cs

  removed-conclude :
      (removed : List Candidate) (d : Disk) → (conclude w st removed d).0 ≡ removed ++ extra d
  removed-conclude removed idle = sym (append-nil removed)
  removed-conclude removed warned = sym (append-nil removed)
  removed-conclude removed (batch cs) = refl

  measured_off :
      (left : List Candidate) (used total : ℕ)
      → w.disk_usage_pct ≡ 0
      → extra (measured w st left used total) ≡ []
  unfolding measured
  measured_off left used total h = ground arith

  measured_cooling :
      (left : List Candidate) (used total t : ℕ)
      → st.last_disk_batch ≡ some t
      → w.now - t < disk_cooldown
      → extra (measured w st left used total) ≡ []
  unfolding measured
  measured_cooling left used total t e h = ground arith

  measured_hopeless :
      (left : List Candidate) (used total : ℕ)
      → sizes left < word_mod
      → sizes left < used - limit_of total w.disk_usage_pct + 1
      → extra (measured w st left used total) ≡ []
  unfolding measured
  measured_hopeless left used total small h =
      rw (avail_of-eq-sizes left 0 (omega arith)) (ground arith)

  measured_below :
      (left : List Candidate) (used total : ℕ)
      → used < limit_of total w.disk_usage_pct
      → extra (measured w st left used total) ≡ []
  unfolding measured
  measured_below left used total h = ground arith

  less-aged : (used freed : ℕ) → (if leb used freed then 0 else used - freed) ≡ used - freed
  less-aged used freed = ground arith

  any_stat :
      (o : Option (ℕ × ℕ))
      → ((used total : ℕ) → extra (measured w st (young w (candidates w)) used total) ≡ [])
      → extra (with_stat w st (sizes (old w (candidates w))) (young w (candidates w)) o) ≡ []
  any_stat none h = refl
  any_stat (some (used, total)) h = h _ total

  decision_at :
      (used total : ℕ)
      → w.disk_stat ≡ some (used, total)
      → decision ≡ measured w st (young w (candidates w)) (used_after w used) total
  unfolding disk_decision
  decision_at used total stat =
      ap (with_stat w st (sizes (old w (candidates w))) (young w (candidates w))) stat
      ∙ ap (λ u. measured w st (young w (candidates w)) u total)
          (less-aged used (sizes (old w (candidates w))))

  quiet_decision : IsQuiet w st → extra decision ≡ []
  unfolding disk_decision
  quiet_decision (off h) = any_stat w.disk_stat (λ u t. measured_off _ u t h)
  quiet_decision (no_stat h) =
      ap (λ o. extra (with_stat w st (sizes (old w (candidates w))) (young w (candidates w)) o)) h
  quiet_decision (below used total stat h) =
      ap extra (decision_at used total stat) ∙ measured_below _ _ total h
  quiet_decision (cooling t last h) = any_stat w.disk_stat (λ u n. measured_cooling _ u n t last h)
  quiet_decision (hopeless used total stat h) =
      ap extra (decision_at used total stat) ∙ measured_hopeless _ _ total young_fits h

  removed-prune : (prune w st).0 ≡ old w (candidates w) ++ extra decision
  removed-prune =
      ap (λ (r : List Candidate × DiskState). r.0) (prune-decision decision refl)
      ∙ removed-conclude (old w (candidates w)) decision

-- A pass deletes the expired files that can be removed and nothing else, if the disk threshold is
-- off, the file system cannot be measured, it is below the threshold once the expired files are
-- gone, the last disk-driven batch is less than the cooldown ago, or deleting every remaining
-- candidate would not get below the threshold. The candidates' sizes add up to less than 2 ^ 64.
pub prune-quiet :
    (w : World) (st : DiskState)
    → sizes (candidates w) < word_mod
    → IsQuiet w st
    → (prune w st).0 ≡ old w (candidates w)
prune-quiet w st fits quiet =
    removed-prune w st fits
    ∙ ap (λ l. old w (candidates w) ++ l) (quiet_decision w st fits quiet)
    ∙ append-nil (old w (candidates w))

-- Nothing stands in the way of a disk-driven batch.
pub record IsPressed (w : World) (st : DiskState) (used total : ℕ) : Type 0 where
  pub stat : w.disk_stat ≡ some (used, total)
  pub on : 0 < w.disk_usage_pct
  pub total_pos : 0 < total
  pub at_limit : limit_of total w.disk_usage_pct ≤ used_after w used
  pub warm : since_lt w.now st.last_disk_batch disk_cooldown ≡ false
  pub possible : need_of w used total ≤ sizes (young w (candidates w))
  pub fits : sizes (candidates w) < word_mod

module _ (w : World) (st : DiskState) (used total : ℕ) (p : IsPressed w st used total) where
  pressed_decision :
      decision w st p.fits ≡ batch (disk_step w (need_of w used total) (young w (candidates w)) 0)
  unfolding measured
  pressed_decision =
      decision_at w st p.fits used total p.stat
      ∙ rw (avail_of-eq-sizes (young w (candidates w)) 0 (omega (arith, young_fits w st p.fits)))
          (ground (arith, p.on, p.total_pos, p.at_limit, p.warm, p.possible))

  abbrev the_batch : List Candidate
  the_batch = disk_step w (need_of w used total) (young w (candidates w)) 0

  prune-pressed :
      prune w st ≡ (old w (candidates w) ++ the_batch, record st { last_disk_batch = some w.now })
  prune-pressed = prune-decision w st p.fits _ pressed_decision

-- A disk-driven batch, with the threshold reached, the cooldown over and enough to delete: what the
-- pass deletes is the expired files and then a batch of the others, which are in the order archives
-- before details and oldest first within either; of the batch only what cannot be removed is
-- skipped; all but its last file would not have been enough; and the time of the batch is noted.
pub prune-batch :
    (w : World) (st : DiskState) (used total : ℕ)
    → IsPressed w st used total
    → (deleted : List Candidate) × (k : ℕ) × ((prune w st)
        ≡ (old w (candidates w) ++ deleted, record st { last_disk_batch = some w.now }))
      × (deleted ≡ keep w.removable (take k (young w (candidates w))))
      × OldestFirst (young w (candidates w))
      × ((init : List Candidate) (last : Candidate)
          → deleted ≡ init ++ last ∷ []
          → sizes init < need_of w used total)
prune-batch w st used total p =
    let cs = young w (candidates w) in
    let need = need_of w used total in
    let (k, e) = disk_step_prefix w need cs 0 in
    (
      disk_step w need cs 0,
      k,
      prune-pressed w st used total p,
      e,
      keep-OldestFirst (λ c. not (expired w c)) (candidates w)
          (prune_candidates-OldestFirst w.fs w.has_duckdb w.today w.details_cutoff),
      λ init last h. omega (
        arith,
        disk_step_minimal w need cs init last 0 (omega (arith, young_fits w st p.fits)) h,
      ),
    )

-- Where nothing refuses to be removed, a disk-driven batch brings the used bytes below the limit.
pub prune_below_limit :
    (w : World) (st : DiskState) (used total : ℕ)
    → IsPressed w st used total
    → 0 < limit_of total w.disk_usage_pct
    → ((c : Candidate) → w.removable c ≡ true)
    → used - sizes (prune w st).0 < limit_of total w.disk_usage_pct
prune_below_limit w st used total p pos all =
    let cs = young w (candidates w) in
    let need = need_of w used total in
    let small = young_fits w st p.fits in
    let enough : need ≤ sizes (disk_step w need cs 0) =
      omega (arith, disk_step_enough w need cs 0 all (omega arith) (omega (arith, p.possible))) in
    rw (ap (λ (r : List Candidate × DiskState). r.0) (prune-pressed w st used total p))
      (omega (arith, sizes-append (old w (candidates w)) (disk_step w need cs 0)))
