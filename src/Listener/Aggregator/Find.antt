-- ===== src/Listener/Aggregator/Find.antt =====
-- Where ingest of bodylog-listener-go/main.go counts a request: the bucket of its minute and key,
-- and no other.
use llm_openresty.Base.{
  ℕ, suc, ◌<◌, ◌≡◌, refl, sym, ap, ◌∙◌, Bool, true, false, ◌⊎◌, inl, inr, Option, none, some, Text,
  if◌then◌else◌, nat_eq, nat_eq_iff, nat_Eq, text_eq_iff, text_Eq, arith,
}
use llm_openresty.Base.Dict.{get, or_default}
use llm_openresty.Listener.Bucket.{Bucket, count_entry}
use llm_openresty.Listener.Aggregator.{
  Aggregator, Request, Ref, key_of, fresh_bucket, store, choose, counted, ingest,
}
use llm_openresty.Listener.Aggregator.Placed.{loc, deref, find, hits, Placed, choose-Placed}

-- No two entries of the maps share a pointer, and none points to free memory.
pub record Apart (a : Aggregator) : Type 0 where
  pub same_minute :
      (m n : ℕ) (j k : Text) (r : Ref) → loc a m j ≡ some r → loc a n k ≡ some r → m ≡ n
  pub same_key : (m n : ℕ) (j k : Text) (r : Ref) → loc a m j ≡ some r → loc a n k ≡ some r → j ≡ k
  pub in_heap : (m : ℕ) (k : Text) (r : Ref) → loc a m k ≡ some r → r < a.next

module _ (q : Request) (a : Aggregator) (apart : Apart a) (r : Ref) (b : Aggregator)
    (p : Placed q a r b) where
  -- A pointer to the chosen bucket was at the request's place, or nowhere.
  elsewhere : (m : ℕ) (k : Text) → loc a m k ≡ some r → hits q m k ≡ true
  elsewhere m k h = go p.old_or_new
    where
      go :
          ((loc a q.minute (key_of q) ≡ some r) × ((b.heap ≡ a.heap) × (b.next ≡ a.next)))
            ⊎ ((loc a q.minute (key_of q) ≡ none)
                × ((r ≡ a.next)
                    × ((b.heap ≡ store a.heap a.next (fresh_bucket q)) × (b.next ≡ suc a.next))))
          → hits q m k ≡ true
      go (inl (e, rest)) = ground (
        arith,
        apart.same_minute q.minute m (key_of q) k r e h,
        apart.same_key q.minute m (key_of q) k r e h,
        nat_eq_iff q.minute m,
        text_eq_iff (key_of q) k,
      )
      go (inr (e, (f, rest))) = absurd (omega (arith, apart.in_heap m k r h, f))

  came :
      (m : ℕ) (k : Text) (x : Ref)
      → loc b m k ≡ some x
      → ((hits q m k ≡ true) × (r ≡ x)) ⊎ ((hits q m k ≡ false) × (loc a m k ≡ some x))
  came m k x h = go (hits q m k) refl (sym (p.at m k) ∙ h)
    where
      go :
          (c : Bool)
          → hits q m k ≡ c
          → (if c then some r else loc a m k) ≡ some x
          → ((hits q m k ≡ true) × (r ≡ x)) ⊎ ((hits q m k ≡ false) × (loc a m k ≡ some x))
      go true e g = inl (e, cc)
      go false e g = inr (e, g)

  same_place :
      (m n : ℕ) (j k : Text) (x : Ref) → loc b m j ≡ some x → loc b n k ≡ some x → (m ≡ n) × (j ≡ k)
  same_place m n j k x h g = go (came m j x h) (came n k x g)
    where
      go :
          ((hits q m j ≡ true) × (r ≡ x)) ⊎ ((hits q m j ≡ false) × (loc a m j ≡ some x))
          → ((hits q n k ≡ true) × (r ≡ x)) ⊎ ((hits q n k ≡ false) × (loc a n k ≡ some x))
          → (m ≡ n) × (j ≡ k)
      go (inl (u, v)) (inl (w, y)) = ground (
        arith,
        nat_eq_iff q.minute m,
        nat_eq_iff q.minute n,
        text_eq_iff (key_of q) j,
        text_eq_iff (key_of q) k,
      )
      go (inl (u, v)) (inr (w, y)) = absurd (ground (arith, elsewhere n k (y ∙ ap some (sym v))))
      go (inr (w, y)) (inl (u, v)) = absurd (ground (arith, elsewhere m j (y ∙ ap some (sym v))))
      go (inr (u, v)) (inr (w, y)) = (apart.same_minute m n j k x v y, apart.same_key m n j k x v y)

  placed-lt : (x : Ref) → (x < a.next) ⊎ (r ≡ x) → x < b.next
  placed-lt x = go p.old_or_new
    where
      go :
          ((loc a q.minute (key_of q) ≡ some r) × ((b.heap ≡ a.heap) × (b.next ≡ a.next)))
            ⊎ ((loc a q.minute (key_of q) ≡ none)
                × ((r ≡ a.next)
                    × ((b.heap ≡ store a.heap a.next (fresh_bucket q)) × (b.next ≡ suc a.next))))
          → (x < a.next) ⊎ (r ≡ x)
          → x < b.next
      go (inl (e, (f, g))) (inl h) = omega (arith, g, h)
      go (inl (e, (f, g))) (inr h) = omega (arith, g, h, apart.in_heap q.minute (key_of q) r e)
      go (inr (e, (f, (g, i)))) (inl h) = omega (arith, i, h)
      go (inr (e, (f, (g, i)))) (inr h) = omega (arith, i, h, f)

  pub counted-Apart : (e : Ref → Bucket) → Apart (record b { heap = e })
  counted-Apart e = record {
    same_minute = λ m n j k x h g. (same_place m n j k x h g).0;
    same_key = λ m n j k x h g. (same_place m n j k x h g).1;
    in_heap = λ m k x h. elim (came m k x h) [
      | inl u ↦ placed-lt x (inr u.1)
      | inr u ↦ placed-lt x (inl (apart.in_heap m k x u.1))
    ];
  }

  placed-heap : b.heap r ≡ or_default (find a q.minute (key_of q)) (fresh_bucket q)
  placed-heap = go p.old_or_new
    where
      go :
          ((loc a q.minute (key_of q) ≡ some r) × ((b.heap ≡ a.heap) × (b.next ≡ a.next)))
            ⊎ ((loc a q.minute (key_of q) ≡ none)
                × ((r ≡ a.next)
                    × ((b.heap ≡ store a.heap a.next (fresh_bucket q)) × (b.next ≡ suc a.next))))
          → b.heap r ≡ or_default (find a q.minute (key_of q)) (fresh_bucket q)
      go (inl (e, (f, g))) =
          ap (λ (h : Ref → Bucket). h r) f
          ∙ sym (ap (λ o. or_default (deref a.heap o) (fresh_bucket q)) e)
      go (inr (e, (f, (g, i)))) =
          ap (λ (h : Ref → Bucket). h r) g
          ∙ ground (arith, f, nat_eq_iff r a.next)
          ∙ sym (ap (λ o. or_default (deref a.heap o) (fresh_bucket q)) e)

  old-heap : (x : Ref) → x < a.next → b.heap x ≡ a.heap x
  old-heap x h = go p.old_or_new
    where
      go :
          ((loc a q.minute (key_of q) ≡ some r) × ((b.heap ≡ a.heap) × (b.next ≡ a.next)))
            ⊎ ((loc a q.minute (key_of q) ≡ none)
                × ((r ≡ a.next)
                    × ((b.heap ≡ store a.heap a.next (fresh_bucket q)) × (b.next ≡ suc a.next))))
          → b.heap x ≡ a.heap x
      go (inl (e, (f, g))) = ap (λ (h : Ref → Bucket). h x) f
      go (inr (e, (f, (g, i)))) = ap (λ (h : Ref → Bucket). h x) g ∙ ground (arith, h)

  others :
      (m : ℕ) (k : Text) (o : Option Ref)
      → loc a m k ≡ o
      → hits q m k ≡ false
      → deref (store b.heap r (count_entry q.entry (b.heap r))) o ≡ deref a.heap o
  others m k none h e = refl
  others m k (some x) h e = ap some (go (nat_eq x r) refl)
    where
      go :
          (c : Bool)
          → nat_eq x r ≡ c
          → (if c then count_entry q.entry (b.heap r) else b.heap x) ≡ a.heap x
      go true f = absurd (ground (arith, elsewhere m k (h ∙ ap some ((nat_eq_iff x r).0 f))))
      go false f = old-heap x (apart.in_heap m k x h)

  -- The bucket of a minute and a key behind the count.
  counted-find :
      (m : ℕ) (k : Text)
      → find (counted q (r, b)) m k ≡ (
          if hits q m k
          then some (count_entry q.entry (or_default (find a q.minute (key_of q)) (fresh_bucket q)))
          else find a m k)
  counted-find m k =
      ap (deref (store b.heap r (count_entry q.entry (b.heap r)))) (p.at m k) ∙ go (hits q m k) refl
    where
      go :
          (c : Bool)
          → hits q m k ≡ c
          → deref
              (store b.heap r (count_entry q.entry (b.heap r)))
              (if c then some r else loc a m k)
            ≡ (if c
                then some
                    (count_entry q.entry (or_default (find a q.minute (key_of q)) (fresh_bucket q)))
                else find a m k)
      go true e = ap some (ground (arith, nat_eq_iff r r) ∙ ap (count_entry q.entry) placed-heap)
      go false e = others m k (loc a m k) refl e

-- ingest counts a request in the bucket of its minute and key, which is a new one if the maps have
-- none, and leaves every other bucket alone.
pub ingest-find :
    (q : Request) (a : Aggregator) (m : ℕ) (k : Text)
    → Apart a
    → find (ingest q a) m k ≡ (
        if hits q m k
        then some (count_entry q.entry (or_default (find a q.minute (key_of q)) (fresh_bucket q)))
        else find a m k)
unfolding ingest
ingest-find q a m k apart =
    let c = choose q (get a.active q.minute) a in
    counted-find q a apart c.0 c.1 (choose-Placed q a (get a.active q.minute) refl) m k

pub ingest-Apart : (q : Request) (a : Aggregator) → Apart a → Apart (ingest q a)
unfolding ingest
ingest-Apart q a apart =
    let c = choose q (get a.active q.minute) a in
    counted-Apart q a apart c.0 c.1 (choose-Placed q a (get a.active q.minute) refl)
      (store c.1.heap c.0 (count_entry q.entry (c.1.heap c.0)))
