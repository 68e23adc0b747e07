-- ===== src/Listener/Retention/Sizes.antt =====
-- The bytes of a list of candidates, and the uint64 sums that prune keeps of them.
use llm_openresty.Base.{
  ℕ, ◌+◌, ◌≤◌, ◌<◌, ◌≡◌, refl, List, [], ◌∷◌, ◌++◌, arith, add64_small, word_mod, keep, Bool,
}
use llm_openresty.Listener.Retention.Candidates.{Candidate}
use llm_openresty.Listener.Retention.Pass.{avail_of}

-- The exact sum of the sizes.
unfoldable pub sizes : List Candidate → ℕ
sizes [] = 0
sizes (c ∷ cs) = c.size + sizes cs

pub sizes-nil : sizes [] ≡ 0
unfolding sizes
sizes-nil = refl

pub sizes-cons : (c : Candidate) (cs : List Candidate) → sizes (c ∷ cs) ≡ c.size + sizes cs
unfolding sizes
sizes-cons c cs = refl

pub sizes-append : (xs ys : List Candidate) → sizes (xs ++ ys) ≡ sizes xs + sizes ys
unfolding sizes
sizes-append [] ys = omega arith
sizes-append (x ∷ xs) ys = omega (arith, sizes-append xs ys)

pub avail_of-eq-sizes :
    (cs : List Candidate) (n : ℕ) → n + sizes cs < word_mod → avail_of cs n ≡ n + sizes cs
unfolding sizes avail_of
avail_of-eq-sizes [] n h = omega arith
avail_of-eq-sizes (c ∷ cs) n h =
    rw (add64_small n c.size (omega arith)) (omega (arith, avail_of-eq-sizes cs (n + c.size)))

pub sizes-keep-le : (p : Candidate → Bool) (cs : List Candidate) → sizes (keep p cs) ≤ sizes cs
unfolding sizes keep
sizes-keep-le p [] = omega arith
sizes-keep-le p (c ∷ cs) = ground (arith, sizes-keep-le p cs)
