-- ===== src/Exporter/Poller/Rejected.antt =====
-- What the 429 counters of bodylog-exporter-go/openresty_poll.go add up to over many polls.
use llm_openresty.Base.{
  ℕ, ◌+◌, ◌≡◌, refl, sym, ap, ap₂, subst, ◌∙◌, Bool, true, false, ◌&&◌, Option, none, some, List,
  [], ◌∷◌, ◌++◌, Text, text_eq, text_eq_iff, text_Eq, text_eq_refl, if◌then◌else◌, leb, leb→le,
  arith,
}
use llm_openresty.Base.Dict.{Dict, get_or, get_or-put}
use llm_openresty.Exporter.Poller.{
  Poller, Added, reject_key, reject_reasons, increase, count_reason, count_reasons, add_zeros,
  on_reject_status, fail, add,
}

-- What one series of openresty_rejected_total has been increased by.
abbrev part : Text → Text → Text → Added → ℕ
part service route reason a =
    if text_eq a.service service && text_eq a.route route && text_eq a.reason reason
    then a.by
    else 0

unfoldable pub total : Text → Text → Text → List Added → ℕ
total service route reason [] = 0
total service route reason (a ∷ l) = part service route reason a + total service route reason l

total-snoc :
    (s r q : Text) (l : List Added) (a : Added)
    → total s r q (l ++ a ∷ []) ≡ total s r q l + part s r q a
unfolding total
total-snoc s r q [] a = omega arith
total-snoc s r q (x ∷ l) a = omega (arith, total-snoc s r q l a)

-- The values that a list of reasons reports for one reason, before `more`.
unfoldable pub values : Text → List (Text × ℕ) → List ℕ → List ℕ
values reason [] more = more
values reason ((q, v) ∷ l) more =
    let rest = values reason l more in if text_eq q reason then v ∷ rest else rest

-- The values that a run of answers reports; a failed request reports none.
unfoldable pub reported : Text → Text → List (Option (Dict Text (List (Text × ℕ)))) → List ℕ
reported route reason [] = []
reported route reason (none ∷ l) = reported route reason l
reported route reason (some rj ∷ l) = values reason (get_or rj route []) (reported route reason l)

-- The sum of what a counter had reached before each of its restarts and of what it has reached
-- last. A restart shows as a value below the one before.
unfoldable pub peaks : ℕ → List ℕ → ℕ
peaks last [] = last
peaks last (v ∷ vs) = let rest = peaks v vs in if leb last v then rest else last + rest

increase-peaks :
    (last v a : ℕ) (vs : List ℕ)
    → a + v ≡ peaks v vs
    → increase last v + a + last ≡ peaks last (v ∷ vs)
unfolding peaks
increase-peaks last v a vs h = ground (arith, leb→le last v)

append-cancel : (a b c : Text) → text_eq (a ++ b) (a ++ c) ≡ text_eq b c
unfolding text_eq
append-cancel [] b c = refl
append-cancel (x ∷ a) b c = ground (arith, append-cancel a b c)

key-cancel :
    (base route q reason : Text)
    → text_eq (reject_key base route q) (reject_key base route reason) ≡ text_eq q reason
unfolding text_eq
key-cancel base route q reason =
    append-cancel base (b'|' ∷ (route ++ b'|' ∷ q)) (b'|' ∷ (route ++ b'|' ∷ reason))
    ∙ append-cancel route (b'|' ∷ q) (b'|' ∷ reason)

module _ {V : Type 0} (b2f : Bool → V) (base service route reason : Text) where
  -- The series' total and the value that the poller has last seen.
  abbrev sum_of : Poller V → ℕ
  sum_of p = total service route reason p.added

  abbrev last_of : Poller V → ℕ
  last_of p = get_or p.prev (reject_key base route reason) 0

  part-reason :
      (q : Text) (n : ℕ)
      → part service route reason (record { service = service; route = route; reason = q; by = n })
        ≡ (if text_eq q reason then n else 0)
  part-reason q n = ground (arith, text_eq_refl service, text_eq_refl route)

  count_reason-sum :
      (q : Text) (v : ℕ) (p : Poller V)
      → sum_of (count_reason b2f base service route q v p)
        ≡ sum_of p
          + (if text_eq q reason then increase (get_or p.prev (reject_key base route q) 0) v else 0)
  count_reason-sum q v p =
      let n = increase (get_or p.prev (reject_key base route q) 0) v in
      total-snoc service route reason p.added
        (record { service = service; route = route; reason = q; by = n })
      ∙ ap (λ k. sum_of p + k) (part-reason q n)

  count_reason-last :
      (q : Text) (v : ℕ) (p : Poller V)
      → last_of (count_reason b2f base service route q v p)
        ≡ (if text_eq q reason then v else last_of p)
  count_reason-last q v p =
      get_or-put p.prev (reject_key base route q) (reject_key base route reason) v 0
      ∙ ap (λ b. if b then v else last_of p) (key-cancel base route q reason)

  -- From a state on, the final sum is what the values reported from there on make of it.
  abbrev Ends : ℕ → Poller V → List ℕ → Type 0
  Ends sum p vs = sum + last_of p ≡ sum_of p + peaks (last_of p) vs

  peaks-step :
      (sum s last v : ℕ) (vs : List ℕ)
      → sum + v ≡ (s + increase last v) + peaks v vs
      → sum + last ≡ s + peaks last (v ∷ vs)
  unfolding peaks
  peaks-step sum s last v vs h = ground (arith, leb→le last v)

  count_reason-Ends :
      (sum : ℕ) (q : Text) (v : ℕ) (p : Poller V) (vs : List ℕ) (b : Bool)
      → text_eq q reason ≡ b
      → Ends sum (count_reason b2f base service route q v p) vs
      → Ends sum p (if b then v ∷ vs else vs)
  count_reason-Ends sum q v p vs true e h =
      let last : get_or p.prev (reject_key base route q) 0 ≡ last_of p =
        ap (λ k. get_or p.prev (reject_key base route k) 0) ((text_eq_iff q reason).0 e) in
      let u = count_reason b2f base service route q v p in
      let s : sum_of u ≡ sum_of p + increase (last_of p) v =
        count_reason-sum q v p ∙ ap₂ (λ c n. sum_of p + (if c then increase n v else 0)) e last in
      let l : last_of u ≡ v = count_reason-last q v p ∙ ap (λ c. if c then v else last_of p) e in
      peaks-step sum (sum_of p) (last_of p) v vs
        (ap (λ k. sum + k) (sym l) ∙ h ∙ ap₂ (λ a k. a + peaks k vs) s l)
  count_reason-Ends sum q v p vs false e h =
      let u = count_reason b2f base service route q v p in
      let s : sum_of u ≡ sum_of p =
        count_reason-sum q v p
        ∙ ap
            (λ c.
              sum_of p + (if c then increase (get_or p.prev (reject_key base route q) 0) v else 0))
            e
        ∙ omega arith in
      let l : last_of u ≡ last_of p =
        count_reason-last q v p ∙ ap (λ c. if c then v else last_of p) e in
      ap (λ k. sum + k) (sym l) ∙ h ∙ ap₂ (λ a k. a + peaks k vs) s l

  count_reasons-Ends :
      (sum : ℕ) (l : List (Text × ℕ)) (p : Poller V) (more : List ℕ)
      → Ends sum (count_reasons b2f base service route l p) more
      → Ends sum p (values reason l more)
  unfolding count_reasons values
  count_reasons-Ends sum [] p more h = h
  count_reasons-Ends sum ((q, v) ∷ l) p more h =
      count_reason-Ends sum q v p (values reason l more) (text_eq q reason) refl
        (count_reasons-Ends sum l (count_reason b2f base service route q v p) more h)

  add_zeros-sum :
      (l : List Text) (p : Poller V)
      → (sum_of (add_zeros b2f service route l p) ≡ sum_of p)
        × (last_of (add_zeros b2f service route l p) ≡ last_of p)
  unfolding add_zeros
  add_zeros-sum [] p = (refl, refl)
  add_zeros-sum (q ∷ l) p =
      let r = add_zeros-sum l (add b2f service route q 0 p) in
      (
        r.0
            ∙ total-snoc service route reason p.added
                (record { service = service; route = route; reason = q; by = 0 })
            ∙ ap (λ k. sum_of p + k) (part-reason q 0)
            ∙ zero_part (text_eq q reason) (sum_of p),
        r.1,
      )
    where
      zero_part : (b : Bool) (n : ℕ) → n + (if b then 0 else 0) ≡ n
      zero_part true n = omega arith
      zero_part false n = omega arith

  -- One answer after another of the target (base, route).
  unfoldable pub answers_in : List (Option (Dict Text (List (Text × ℕ)))) → Poller V → Poller V
  answers_in [] p = p
  answers_in (a ∷ l) p = answers_in l (on_reject_status b2f (base, route) service a p)

  answers-Ends :
      (l : List (Option (Dict Text (List (Text × ℕ))))) (p : Poller V)
      → Ends (sum_of (answers_in l p)) p (reported route reason l)
  unfolding answers_in reported
  answers-Ends [] p = unfold peaks in omega arith
  answers-Ends (none ∷ l) p = answers-Ends l (fail b2f (base, route) p)
  answers-Ends (some rj ∷ l) p =
      let z = add_zeros b2f service route reject_reasons p in
      let e = add_zeros-sum reject_reasons p in
      let sum = sum_of (answers_in l (on_reject_status b2f (base, route) service (some rj) p)) in
      let r =
        count_reasons-Ends sum (get_or rj route []) z (reported route reason l)
          (answers-Ends l (on_reject_status b2f (base, route) service (some rj) p)) in
      ap (λ k. sum + k) (sym e.1)
      ∙ r
      ∙ ap₂ (λ a k. a + peaks k (values reason (get_or rj route []) (reported route reason l))) e.0
          e.1

  -- A target is polled any number of times, from a poller that has not yet seen the counter. What
  -- its series of the reason has been increased by is then the sum of the values that the counter
  -- had before each of its restarts and of its last value. Failed requests change nothing.
  pub rejected-peaks :
      (l : List (Option (Dict Text (List (Text × ℕ))))) (p : Poller V)
      → last_of p ≡ 0
      → sum_of (answers_in l p) ≡ sum_of p + peaks 0 (reported route reason l)
  rejected-peaks l p h =
      let e : sum_of (answers_in l p) + 0 ≡ sum_of p + peaks 0 (reported route reason l) =
        subst (λ k. sum_of (answers_in l p) + k ≡ sum_of p + peaks k (reported route reason l)) h
          (answers-Ends l p) in
      omega (arith, e)
