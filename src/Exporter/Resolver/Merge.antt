-- ===== src/Exporter/Resolver/Merge.antt =====
-- What listModelRoutes of bodylog-exporter-go/route_endpoints.go returns, against a description
-- that first gathers all items and then drops the later ones of a key.
use llm_openresty.Base.{
  ℕ, zero, suc, ◌≡◌, refl, sym, ap, ap₂, ◌∙◌, Bool, true, false, ◌&&◌, ◌||◌, not, Option, none,
  some, List, [], ◌∷◌, ◌++◌, append-nil, append_assoc, Text, text_eq, text_eq_iff, if◌then◌else◌,
  any, keep, nat_eq, arith,
}
use llm_openresty.Exporter.PdRoles.{Answer, body, status, failed, undecodable}
use llm_openresty.Exporter.Resolver.Routes.{
  ModelRoute, object_key, has_key, merge_items, list_groups, list_model_routes,
}

-- Whether an item is told apart from `it`: it has no name, or another key.
abbrev pub other : ModelRoute → ModelRoute → Bool
other it x = text_eq x.name [] || not (text_eq (object_key it) (object_key x))

-- Of the items of one key the first is left; items without a name all stay.
unfoldable pub first_of_key : List ModelRoute → List ModelRoute
first_of_key [] = []
first_of_key (it ∷ l) =
    let rest = first_of_key l in if text_eq it.name [] then it ∷ rest else it ∷ keep (other it) rest

-- What the groups that answered have sent, in the order of the groups.
abbrev pub items_of : Answer (List ModelRoute) → List ModelRoute
items_of (body items) = items
items_of _ = []

unfoldable pub all_items : (Text → Answer (List ModelRoute)) → List Text → List ModelRoute
all_items answer [] = []
all_items answer (g ∷ gs) = items_of (answer g) ++ all_items answer gs

-- An answer that fails the whole listing, and one that counts as served.
abbrev pub hard : Answer (List ModelRoute) → Bool
hard (body items) = false
hard (status code) = not (nat_eq code 404)
hard failed = true
hard undecodable = true

abbrev pub serves : Answer (List ModelRoute) → Bool
serves (body items) = true
serves _ = false

abbrev fresh : List Text → ModelRoute → Bool
fresh seen x = text_eq x.name [] || not (has_key seen (object_key x))

keep_in :
    (p : ModelRoute → Bool) (x : ModelRoute) (l : List ModelRoute)
    → p x ≡ true
    → keep p (x ∷ l) ≡ x ∷ keep p l
unfolding keep
keep_in p x l h = rw (h, keep) refl

keep_out :
    (p : ModelRoute → Bool) (x : ModelRoute) (l : List ModelRoute)
    → p x ≡ false
    → keep p (x ∷ l) ≡ keep p l
unfolding keep
keep_out p x l h = rw (h, keep) refl

keep-keep :
    (p q r : ModelRoute → Bool)
    → ((x : ModelRoute) → r x ≡ p x && q x)
    → (l : List ModelRoute) → keep p (keep q l) ≡ keep r l
unfolding keep
keep-keep p q r h [] = refl
keep-keep p q r h (x ∷ l) = ground (arith, h x, keep-keep p q r h l)

has_key_same :
    (seen : List Text) (a b : Text) → text_eq a b ≡ true → has_key seen a ≡ has_key seen b
has_key_same seen a b h = ap (has_key seen) ((text_eq_iff a b).0 h)

fresh-other_seen :
    (seen : List Text) (it x : ModelRoute)
    → has_key seen (object_key it) ≡ true
    → fresh seen x ≡ fresh seen x && other it x
fresh-other_seen seen it x h = ground (arith, has_key_same seen (object_key it) (object_key x))

fresh-other_new :
    (seen : List Text) (it x : ModelRoute)
    → fresh (object_key it ∷ seen) x ≡ fresh seen x && other it x
fresh-other_new seen it x = ground arith

keep_all : (l : List ModelRoute) → keep (fresh []) l ≡ l
unfolding keep
keep_all [] = refl
keep_all (x ∷ l) = ground (arith, keep_all l)

module _ (it : ModelRoute) (l : List ModelRoute) (seen : List Text) (out : List ModelRoute) where
  fresh_at :
      (b c : Bool)
      → text_eq it.name [] ≡ b
      → has_key seen (object_key it) ≡ c
      → fresh seen it ≡ b || not c
  fresh_at b c h k = rw (h, k) refl

  merge_item_lem :
      (b c : Bool)
      → text_eq it.name [] ≡ b
      → has_key seen (object_key it) ≡ c
      → ((seen : List Text) (out : List ModelRoute)
          → (merge_items l (seen, out)).1 ≡ out ++ keep (fresh seen) (first_of_key l))
      → (merge_items l (
          if b
          then (seen, out ++ it ∷ [])
          else if c
          then (seen, out)
          else (object_key it ∷ seen, out ++ it ∷ []))).1
        ≡ out
          ++ keep
              (fresh seen)
              (if b then it ∷ first_of_key l else it ∷ keep (other it) (first_of_key l))
  merge_item_lem true c h k ih =
      ih seen (out ++ it ∷ [])
      ∙ append_assoc out (it ∷ []) (keep (fresh seen) (first_of_key l))
      ∙ ap (λ m. out ++ m)
          (sym (
            keep_in (fresh seen) it (first_of_key l)
              (ap (λ u. u || not (has_key seen (object_key it))) h)))
  merge_item_lem false true h k ih =
      ih seen out
      ∙ ap (λ m. out ++ m)
          (sym (
            keep_out (fresh seen) it (keep (other it) (first_of_key l)) (fresh_at false true h k)
            ∙ keep-keep (fresh seen) (other it) (fresh seen) (λ x. fresh-other_seen seen it x k)
                (first_of_key l)))
  merge_item_lem false false h k ih =
      ih (object_key it ∷ seen) (out ++ it ∷ [])
      ∙ append_assoc out (it ∷ []) (keep (fresh (object_key it ∷ seen)) (first_of_key l))
      ∙ ap (λ m. out ++ m)
          (sym (
            keep_in (fresh seen) it (keep (other it) (first_of_key l)) (fresh_at false false h k)
            ∙ ap (λ m. it ∷ m)
                (keep-keep (fresh seen) (other it) (fresh (object_key it ∷ seen))
                  (fresh-other_new seen it) (first_of_key l))))

merge_items_lem :
    (l : List ModelRoute) (seen : List Text) (out : List ModelRoute)
    → (merge_items l (seen, out)).1 ≡ out ++ keep (fresh seen) (first_of_key l)
unfolding merge_items first_of_key
merge_items_lem [] seen out = unfold keep in sym (append-nil out)
merge_items_lem (it ∷ l) seen out =
    merge_item_lem it l seen out (text_eq it.name []) (has_key seen (object_key it)) refl refl
      (merge_items_lem l)

merge_items-append :
    (l m : List ModelRoute) (acc : List Text × List ModelRoute)
    → merge_items m (merge_items l acc) ≡ merge_items (l ++ m) acc
unfolding merge_items
merge_items-append [] m acc = refl
merge_items-append (it ∷ l) m (seen, out) = merge_items-append l m _

abbrev is_zero : ℕ → Bool
is_zero zero = true
is_zero (suc n) = false

abbrev outcome :
    (Text → Answer (List ModelRoute))
    → List Text
    → ℕ
    → List ModelRoute
    → List ModelRoute
    → Option (List ModelRoute)
outcome answer gs served sofar rest =
    if any (λ g. hard (answer g)) gs || (is_zero served && not (any (λ g. serves (answer g)) gs))
    then none
    else some (merge_items (sofar ++ rest) ([], [])).1

or_false : (b : Bool) → (b || false) ≡ b
or_false true = refl
or_false false = refl

or_and_false : (b c : Bool) → (b || (c && false)) ≡ b
or_and_false true c = refl
or_and_false false true = refl
or_and_false false false = refl

abbrev Listing : Type 0
Listing = Option (List ModelRoute)

not_found_lem :
    (b x y z : Bool) (l m : Listing)
    → l ≡ (if x || (z && not y) then none else m)
    → (elim b [ true ↦ l | false ↦ none ])
      ≡ (if elim (not b) [ true ↦ true | false ↦ x ] || (z && not y) then none else m)
not_found_lem true x y z l m h = h
not_found_lem false x y z l m h = refl

module _ (answer : Text → Answer (List ModelRoute)) (gs : List Text) where
  abbrev is_hard : Text → Bool
  is_hard g = hard (answer g)

  abbrev is_served : Text → Bool
  is_served g = serves (answer g)

  group_lem :
      (a : Answer (List ModelRoute)) (served : ℕ) (sofar : List ModelRoute)
      → ((served : ℕ) (sofar : List ModelRoute)
          → list_groups answer gs served (merge_items sofar ([], []))
            ≡ outcome answer gs served sofar (all_items answer gs))
      → (elim a [
        | body items ↦
            list_groups answer gs (suc served) (merge_items items (merge_items sofar ([], [])))
        | status code ↦ elim (nat_eq code 404) [
          | true ↦ list_groups answer gs served (merge_items sofar ([], []))
          | false ↦ none
        ]
        | failed ↦ none
        | undecodable ↦ none
      ])
        ≡ (if (elim (hard a) [ true ↦ true | false ↦ any is_hard gs ])
              || (is_zero served
                  && not (elim (serves a) [ true ↦ true | false ↦ any is_served gs ]))
            then none
            else some (merge_items (sofar ++ (items_of a ++ all_items answer gs)) ([], [])).1)
  group_lem (body items) served sofar ih =
      ap (list_groups answer gs (suc served)) (merge_items-append sofar items ([], []))
      ∙ ih (suc served) (sofar ++ items)
      ∙ ap₂
          (λ (b : Bool) (l : List ModelRoute). if b then none else some (merge_items l ([], [])).1)
          (or_false (any is_hard gs) ∙ sym (or_and_false (any is_hard gs) (is_zero served)))
          (append_assoc sofar items (all_items answer gs))
  group_lem (status code) served sofar ih =
      not_found_lem (nat_eq code 404) (any is_hard gs) (any is_served gs) (is_zero served) _ _
        (ih served sofar)
  group_lem failed served sofar ih = refl
  group_lem undecodable served sofar ih = refl

list_groups_lem :
    (answer : Text → Answer (List ModelRoute)) (gs : List Text) (served : ℕ)
    (sofar : List ModelRoute)
    → list_groups answer gs served (merge_items sofar ([], []))
      ≡ outcome answer gs served sofar (all_items answer gs)
unfolding list_groups all_items
list_groups_lem answer [] zero sofar = refl
list_groups_lem answer [] (suc served) sofar =
    ap (λ l. some (merge_items l ([], [])).1) (sym (append-nil sofar))
list_groups_lem answer (g ∷ gs) served sofar =
    group_lem answer gs (answer g) served sofar (list_groups_lem answer gs)

-- The listing fails exactly if a group's answer is a hard failure (anything but a body or a 404)
-- or no group answers with a body. Otherwise it is what all groups sent, in the order of the
-- groups, without the items whose namespace and name an earlier item has; items without a name
-- are never dropped.
pub list_model_routes_lem :
    (answer : Text → Answer (List ModelRoute)) (groups : List Text)
    → list_model_routes answer groups ≡ (
        if any (λ g. hard (answer g)) groups || not (any (λ g. serves (answer g)) groups)
        then none
        else some (first_of_key (all_items answer groups)))
unfolding list_model_routes merge_items
list_model_routes_lem answer groups =
    list_groups_lem answer groups 0 []
    ∙ ap
        (λ l.
          if any (λ g. hard (answer g)) groups || not (any (λ g. serves (answer g)) groups)
          then none
          else some l)
        (merge_items_lem (all_items answer groups) [] []
          ∙ keep_all (first_of_key (all_items answer groups)))
