-- ===== src/Base/Dict.antt =====
-- Go's maps as association lists. The program's results do not rest on the order of iteration
-- except where it sorts.
use mathlib.Core.Path.{◌≡◌, refl, ap, subst, ◌∙◌}
use mathlib.Core.Bool.{Bool, true, false}
use mathlib.Core.Option.{Option, none, some}
use mathlib.Core.List.{List, [], ◌∷◌}
use native.Mathlib.Omega.{arith}
use llm_openresty.Base.Tests.{Comparable, ◌==◌, if◌then◌else◌}

abbrev pub Dict {ℓ κ} : Type ℓ → Type κ → Type (ℓ ⊔ κ)
Dict K V = List (K × V)

module _ {ℓ κ} {K : Type ℓ} {V : Type κ} ⦃cmp : Comparable K⦄ where
  -- v, ok := m[k]
  unfoldable pub get : Dict K V → K → Option V
  get [] k = none
  get ((j, v) ∷ m) k = if j == k then some v else get m k

  -- m[k] = v
  unfoldable pub put : Dict K V → K → V → Dict K V
  put [] k v = (k, v) ∷ []
  put ((j, w) ∷ m) k v = if j == k then (k, v) ∷ m else (j, w) ∷ put m k v

  -- delete(m, k)
  unfoldable pub remove : Dict K V → K → Dict K V
  remove [] k = []
  remove ((j, w) ∷ m) k = let rest = remove m k in if j == k then rest else (j, w) ∷ rest

  pub get-put :
      (m : Dict K V) (k j : K) (v : V) → get (put m k v) j ≡ (if k == j then some v else get m j)
  unfolding get put
  get-put [] k j v = refl
  get-put ((i, w) ∷ m) k j v =
      ground (arith, cmp.same_iff i k, cmp.same_iff i j, cmp.same_iff k j, get-put m k j v)

  pub get-remove :
      (m : Dict K V) (k j : K) → get (remove m k) j ≡ (if k == j then none else get m j)
  unfolding get remove
  get-remove [] k j = ground arith
  get-remove ((i, w) ∷ m) k j =
      ground (arith, cmp.same_iff i k, cmp.same_iff i j, cmp.same_iff k j, get-remove m k j)

abbrev pub or_default {ℓ} : {A : Type ℓ} → Option A → A → A
or_default none d = d
or_default (some a) d = a

if_some {ℓ} :
    {A : Type ℓ} (b : Bool) (v d : A) (o : Option A)
    → or_default (if b then some v else o) d ≡ (if b then v else or_default o d)
if_some true v d o = refl
if_some false v d o = refl

module _ {ℓ κ} {K : Type ℓ} {V : Type κ} ⦃cmp : Comparable K⦄ where
  -- m[k], where `d` is the zero value of the map's values.
  unfoldable pub get_or : Dict K V → K → V → V
  get_or m k d = or_default (get m k) d

  pub get_or-put :
      (m : Dict K V) (k j : K) (v d : V)
      → get_or (put m k v) j d ≡ (if k == j then v else get_or m j d)
  unfolding get_or
  get_or-put m k j v d = ap (λ o. or_default o d) (get-put m k j v) ∙ if_some (k == j) v d (get m j)

  pub get_or-nil : (k : K) (d : V) → get_or [] k d ≡ d
  unfolding get_or
  get_or-nil k d = unfold get in refl

module _ {ℓ κ} {K : Type ℓ} {V : Type κ} ⦃cmp : Comparable K⦄ where
  -- A map of Go has every key once.
  abbrev pub NodupKeys : Dict K V → Type κ
  NodupKeys [] = Unit
  NodupKeys ((k, v) ∷ m) = (get m k ≡ none) × NodupKeys m

  pub put-NodupKeys : (m : Dict K V) (k : K) (v : V) → NodupKeys m → NodupKeys (put m k v)
  unfolding put
  put-NodupKeys [] k v h = (unfold get in refl, tt)
  put-NodupKeys ((j, w) ∷ m) k v (h, hs) = go (j == k) refl (put-NodupKeys m k v hs)
    where
      go :
          (b : Bool)
          → (j == k) ≡ b
          → NodupKeys (put m k v)
          → NodupKeys (if b then (k, v) ∷ m else (j, w) ∷ put m k v)
      go true e r = (subst (λ i. get m i ≡ none) ((cmp.same_iff j k).0 e) h, hs)
      go false e r = (ground (arith, get-put m k j v, cmp.same_iff k j, cmp.same_iff j k, h), r)
