-- ===== src/Listener/Api/Metrics/Behind.antt =====
-- The rows behind a row, in the order of /metrics of bodylog-listener-go/httpapi.go.
use llm_openresty.Base.{
  ℕ, ◌≡◌, refl, sym, ap, ◌∙◌, Bool, true, false, List, [], ◌∷◌, ◌++◌, keep, All, Text, leb, arith,
  subst,
}
use llm_openresty.Listener.Api.Metrics.Page.{Row, any_str}
use llm_openresty.Listener.Api.Metrics.Window.{follows, Ascending}
use llm_openresty.Listener.Retention.Order.{text_lt_irrefl, text_lt_asymm}

module _ (shown : ℕ → Text) (ends : Row → ℕ) where
  follows_irrefl : (r : Row) → follows shown ends (ends r) (any_str shown r.request_id) r ≡ false
  follows_irrefl r = ground (arith, text_lt_irrefl (any_str shown r.request_id))

  follows_asymm :
      (r s : Row)
      → follows shown ends (ends r) (any_str shown r.request_id) s ≡ true
      → follows shown ends (ends s) (any_str shown s.request_id) r ≡ false
  follows_asymm r s h =
      ground (arith, text_lt_asymm (any_str shown r.request_id) (any_str shown s.request_id))

  abbrev past : Row → Row → Bool
  past r = follows shown ends (ends r) (any_str shown r.request_id)

  keep-all : (p : Row → Bool) (xs : List Row) → All (λ x. p x ≡ true) xs → keep p xs ≡ xs
  unfolding keep
  keep-all p [] h = refl
  keep-all p (x ∷ xs) h =
      ap (λ b. elim b [ true ↦ x ∷ keep p xs | false ↦ keep p xs ]) h.0
      ∙ ap (λ l. x ∷ l) (keep-all p xs h.1)

  keep-keep :
      (p q : Row → Bool) (xs : List Row)
      → ((x : Row) → p x ≡ true → q x ≡ true)
      → keep p (keep q xs) ≡ keep p xs
  unfolding keep
  keep-keep p q [] h = refl
  keep-keep p q (x ∷ xs) h = ground (arith, h x, keep-keep p q xs h)

  pub All-at :
      (P : Row → Type 0) (before after : List Row) (r : Row) → All P (before ++ r ∷ after) → P r
  All-at P [] after r h = h.0
  All-at P (b ∷ before) after r h = All-at P before after r h.1

  All-kept :
      (P : Row → Type 0) (b : Bool) (x : Row) (l : List Row)
      → (b ≡ true → P x)
      → All P l
      → All P (elim b [ true ↦ x ∷ l | false ↦ l ])
  All-kept P true x l h hs = (h refl, hs)
  All-kept P false x l h hs = hs

  pub All-keep : (P : Row → Type 0) (p : Row → Bool) (xs : List Row) → All P xs → All P (keep p xs)
  unfolding keep
  All-keep P p [] h = tt
  All-keep P p (x ∷ xs) h = All-kept P (p x) x (keep p xs) (λ e. h.0) (All-keep P p xs h.1)

  All-meets : (p : Row → Bool) (xs : List Row) → All (λ x. p x ≡ true) (keep p xs)
  unfolding keep
  All-meets p [] = tt
  All-meets p (x ∷ xs) = All-kept (λ y. p y ≡ true) (p x) x (keep p xs) (λ e. e) (All-meets p xs)

  keep-Ascending :
      (p : Row → Bool) (xs : List Row) → Ascending shown ends xs → Ascending shown ends (keep p xs)
  unfolding keep
  keep-Ascending p [] h = tt
  keep-Ascending p (x ∷ xs) h =
      elim (p x)
        as (λ b. Ascending shown ends (elim b [ true ↦ x ∷ keep p xs | false ↦ keep p xs ])) [
          | true ↦ (All-keep (λ y. past x y ≡ true) p xs h.0, keep-Ascending p xs h.1)
          | false ↦ keep-Ascending p xs h.1
        ]

  keep-past :
      (before after : List Row) (r : Row)
      → Ascending shown ends (before ++ r ∷ after)
      → keep (past r) (before ++ r ∷ after) ≡ after
  unfolding keep
  keep-past [] after r h =
      ap (λ b. elim b [ true ↦ r ∷ keep (past r) after | false ↦ keep (past r) after ])
        (follows_irrefl r)
      ∙ keep-all (past r) after h.0
  keep-past (b ∷ before) after r h =
      ap
        (λ c. elim c [
          | true ↦ b ∷ keep (past r) (before ++ r ∷ after)
          | false ↦ keep (past r) (before ++ r ∷ after)
        ])
        (follows_asymm b r (All-at (λ y. past b y ≡ true) before after r h.0))
      ∙ keep-past before after r h.1

  past-window :
      (start : ℕ) (r x : Row)
      → leb start (ends r) ≡ true
      → past r x ≡ true
      → leb start (ends x) ≡ true
  past-window start r x h g = ground arith

  -- Behind a row of the window lie just the rows of the window behind it.
  pub keep-behind :
      (start : ℕ) (stored before after : List Row) (r : Row)
      → Ascending shown ends stored
      → keep (λ x. leb start (ends x)) stored ≡ before ++ r ∷ after
      → keep (past r) stored ≡ after
  keep-behind start stored before after r h e =
      let window = λ (x : Row). leb start (ends x) in
      let there : leb start (ends r) ≡ true =
        All-at (λ x. leb start (ends x) ≡ true) before after r
          (subst (All (λ x. leb start (ends x) ≡ true)) e (All-meets window stored)) in
      sym (keep-keep (past r) window stored (λ x g. past-window start r x there g))
      ∙ ap (keep (past r)) e
      ∙ keep-past before after r (subst (Ascending shown ends) e (keep-Ascending window stored h))
