-- ===== src/Listener/Retention/Age.antt =====
-- The age step of prune.
use llm_openresty.Base.{
  ℕ, ◌+◌, ◌<◌, ◌≡◌, not, ◌&&◌, List, [], ◌∷◌, arith, add64_small, word_mod, keep,
}
use llm_openresty.Listener.Retention.Candidates.{Candidate}
use llm_openresty.Listener.Retention.Pass.{World, age_step, expired}
use llm_openresty.Listener.Retention.Sizes.{sizes}

module _ (w : World) where
  -- What the age step has to remove: the expired candidates whose removal succeeds.
  abbrev pub old : List Candidate → List Candidate
  old = keep (λ c. expired w c && w.removable c)

  abbrev pub young : List Candidate → List Candidate
  young = keep (λ c. not (expired w c))

  pub age_step-eq-keep :
      (cs : List Candidate) (n : ℕ)
      → n + sizes (old cs) < word_mod
      → age_step w cs n ≡ record { removed = old cs; freed = n + sizes (old cs); left = young cs }
  unfolding age_step keep sizes
  age_step-eq-keep [] n h = ground arith
  age_step-eq-keep (c ∷ cs) n h =
      ground (arith, add64_small n c.size, age_step-eq-keep cs (n + c.size), age_step-eq-keep cs n)
