-- ===== src/Listener/Aggregator/Placed.antt =====
-- Where ingest of bodylog-listener-go/main.go places a request's bucket in the maps.
use llm_openresty.Base.{
  ℕ, suc, ◌≡◌, refl, ◌∙◌, Bool, ◌&&◌, ◌⊎◌, inl, inr, Option, none, some, [], ◌∷◌, Text,
  if◌then◌else◌, nat_eq, nat_eq_iff, nat_Eq, text_eq, text_eq_iff, text_Eq, arith,
}
use llm_openresty.Base.Dict.{Dict, get, put, get-put}
use llm_openresty.Listener.Bucket.{Bucket}
use llm_openresty.Listener.Aggregator.{
  Aggregator, Request, Ref, key_of, fresh_bucket, store, mark_dirty, in_active, in_archive,
  in_neither, not_active, choose,
}

-- The pointer of a minute and a key, by what the two maps have for the minute.
abbrev pub loc_in : Option (Dict Text Ref) → Option (Dict Text Ref) → Text → Option Ref
loc_in (some bk) o k = get bk k
loc_in none (some bk) k = get bk k
loc_in none none k = none

abbrev pub loc : Aggregator → ℕ → Text → Option Ref
loc a m k = loc_in (get a.active m) (get a.archive_idx m) k

abbrev pub deref : (Ref → Bucket) → Option Ref → Option Bucket
deref heap none = none
deref heap (some r) = some (heap r)

-- The bucket of a minute and a key.
abbrev pub find : Aggregator → ℕ → Text → Option Bucket
find a m k = deref a.heap (loc a m k)

abbrev pub hits : Request → ℕ → Text → Bool
hits q m k = nat_eq q.minute m && text_eq (key_of q) k

-- What the choice of the bucket may do to the aggregator `a`.
pub record Placed (q : Request) (a : Aggregator) (r : Ref) (b : Aggregator) : Type 0 where
  pub at : (m : ℕ) (k : Text) → loc b m k ≡ (if hits q m k then some r else loc a m k)
  pub old_or_new :
      ((loc a q.minute (key_of q) ≡ some r) × ((b.heap ≡ a.heap) × (b.next ≡ a.next)))
      ⊎ ((loc a q.minute (key_of q) ≡ none)
          × ((r ≡ a.next)
              × ((b.heap ≡ store a.heap a.next (fresh_bucket q)) × (b.next ≡ suc a.next))))

module _ (q : Request) (a : Aggregator) where
  mark_dirty-loc :
      (r : Ref) (b : Aggregator) (m : ℕ) (k : Text) → loc (mark_dirty r b) m k ≡ loc b m k
  mark_dirty-loc r b m k = ground arith

  pub old-Placed : (r : Ref) → loc a q.minute (key_of q) ≡ some r → Placed q a r a
  old-Placed r h = record {
    at = λ m k. ground (arith, nat_eq_iff q.minute m, text_eq_iff (key_of q) k);
    old_or_new = inl (h, (refl, refl));
  }

  mark_dirty-heap :
      (r : Ref) (b : Aggregator)
      → ((mark_dirty r b).heap ≡ b.heap) × ((mark_dirty r b).next ≡ b.next)
  mark_dirty-heap r b = ground arith

  dirty-Placed : (r : Ref) (b : Aggregator) → Placed q a r b → Placed q a r (mark_dirty r b)
  dirty-Placed r b p =
      let (h, n) = mark_dirty-heap r b in
      record { at = λ m k. mark_dirty-loc r b m k ∙ p.at m k; old_or_new = go h n p.old_or_new }
    where
      go :
          (mark_dirty r b).heap ≡ b.heap
          → (mark_dirty r b).next ≡ b.next
          → ((loc a q.minute (key_of q) ≡ some r) × ((b.heap ≡ a.heap) × (b.next ≡ a.next)))
            ⊎ ((loc a q.minute (key_of q) ≡ none)
                × ((r ≡ a.next)
                    × ((b.heap ≡ store a.heap a.next (fresh_bucket q)) × (b.next ≡ suc a.next))))
          → ((loc a q.minute (key_of q) ≡ some r)
              × (((mark_dirty r b).heap ≡ a.heap) × ((mark_dirty r b).next ≡ a.next)))
            ⊎ ((loc a q.minute (key_of q) ≡ none)
                × ((r ≡ a.next)
                    × (((mark_dirty r b).heap ≡ store a.heap a.next (fresh_bucket q))
                        × ((mark_dirty r b).next ≡ suc a.next))))
      go h n (inl (e, (f, g))) = inl (e, (h ∙ f, n ∙ g))
      go h n (inr (e, (f, (g, i)))) = inr (e, (f, (h ∙ g, n ∙ i)))

  module _ (bk : Dict Text Ref) (absent : get bk (key_of q) ≡ none) where
    new_active-Placed :
        get a.active q.minute ≡ some bk
        → Placed q a (in_active q bk none a).0 (in_active q bk none a).1
    new_active-Placed h = record {
      at = λ m k. ground (
        arith,
        get-put a.active q.minute m (put bk (key_of q) a.next),
        get-put bk (key_of q) k a.next,
        nat_eq_iff q.minute m,
        text_eq_iff (key_of q) k,
      );
      old_or_new = inr (ground arith, (refl, (refl, refl)));
    }

    new_archive-Placed :
        get a.active q.minute ≡ none
        → get a.archive_idx q.minute ≡ some bk
        → Placed q a (in_archive q bk none a).0 (in_archive q bk none a).1
    new_archive-Placed g h = dirty-Placed a.next _ (record {
      at = λ m k. ground (
        arith,
        get-put a.archive_idx q.minute m (put bk (key_of q) a.next),
        get-put bk (key_of q) k a.next,
        nat_eq_iff q.minute m,
        text_eq_iff (key_of q) k,
      );
      old_or_new = inr (ground arith, (refl, (refl, refl)));
    })

  neither-Placed :
      get a.active q.minute ≡ none
      → get a.archive_idx q.minute ≡ none
      → Placed q a (in_neither q a).0 (in_neither q a).1
  unfolding get
  neither-Placed g h = record {
    at = λ m k. ground (
      arith,
      get-put a.active q.minute m ((key_of q, a.next) ∷ []),
      nat_eq_iff q.minute m,
      text_eq_iff (key_of q) k,
    );
    old_or_new = inr (ground arith, (refl, (refl, refl)));
  }

  active-Placed :
      (bk : Dict Text Ref) (o : Option Ref)
      → get a.active q.minute ≡ some bk
      → get bk (key_of q) ≡ o
      → Placed q a (in_active q bk o a).0 (in_active q bk o a).1
  active-Placed bk (some r) h e = old-Placed r (rw h e)
  active-Placed bk none h e = new_active-Placed bk e h

  archive-Placed :
      (bk : Dict Text Ref) (o : Option Ref)
      → get a.active q.minute ≡ none
      → get a.archive_idx q.minute ≡ some bk
      → get bk (key_of q) ≡ o
      → Placed q a (in_archive q bk o a).0 (in_archive q bk o a).1
  archive-Placed bk (some r) g h e = dirty-Placed r a (old-Placed r (rw (g, h) e))
  archive-Placed bk none g h e = new_archive-Placed bk e g h

  not_active-Placed :
      (o : Option (Dict Text Ref))
      → get a.active q.minute ≡ none
      → get a.archive_idx q.minute ≡ o
      → Placed q a (not_active q o a).0 (not_active q o a).1
  not_active-Placed none g h = neither-Placed g h
  not_active-Placed (some bk) g h = archive-Placed bk (get bk (key_of q)) g h refl

  pub choose-Placed :
      (o : Option (Dict Text Ref))
      → get a.active q.minute ≡ o
      → Placed q a (choose q o a).0 (choose q o a).1
  choose-Placed (some bk) h = active-Placed bk (get bk (key_of q)) h refl
  choose-Placed none h = not_active-Placed (get a.archive_idx q.minute) h refl
