-- ===== src/Listener/Retention/Order.antt =====
-- The order in which prune of bodylog-listener-go/retention.go meets its candidates.
use llm_openresty.Base.{
  ◌≡◌, refl, sym, ap, ◌∙◌, Bool, true, false, not, ◌&&◌, Option, none, some, List, [], ◌∷◌, ◌++◌,
  Text, text_eq, text_eq_iff, text_lt, All, All-append, keep, if◌then◌else◌, arith,
}
use llm_openresty.Listener.Files.{is_date_name, Node, Dir, Fs}
use llm_openresty.Listener.Retention.Candidates.{
  root, details, Place, Candidate, candidate_lt, insert_sorted, sort_candidates, archive_date,
  details_date, archives_of, details_of, listed, prune_candidates,
}

pub text_lt_irrefl : (s : Text) → text_lt s s ≡ false
unfolding text_lt
text_lt_irrefl [] = refl
text_lt_irrefl (x ∷ s) = ground (arith, text_lt_irrefl s)

pub text_lt_asymm : (s t : Text) → text_lt s t ≡ true → text_lt t s ≡ false
unfolding text_lt
text_lt_asymm [] [] h = refl
text_lt_asymm [] (y ∷ t) h = refl
text_lt_asymm (x ∷ s) [] h = absurd cc
text_lt_asymm (x ∷ s) (y ∷ t) h = ground (arith, text_lt_asymm s t)

-- s ≤ t and t ≤ u, as the negations of the strict order.
text_lt_trans : (s t u : Text) → text_lt t s ≡ false → text_lt u t ≡ false → text_lt u s ≡ false
unfolding text_lt
text_lt_trans [] t u h g = refl
text_lt_trans (x ∷ s) [] u h g = absurd cc
text_lt_trans (x ∷ s) (y ∷ t) [] h g = absurd cc
text_lt_trans (x ∷ s) (y ∷ t) (z ∷ u) h g = ground (arith, text_lt_trans s t u)

-- A candidate that goes before another or with it: archives before details, and within either the older.
abbrev pub Before : Candidate → Candidate → Type 0
Before c d = elim c.place [
  | root ↦ elim d.place [ root ↦ text_lt d.date c.date ≡ false | details ↦ Unit ]
  | details ↦ elim d.place [
    | root ↦ ◌≡◌ {A = Bool} false true
    | details ↦ text_lt d.date c.date ≡ false
  ]
]

abbrev pub OldestFirst : List Candidate → Type 0
OldestFirst [] = Unit
OldestFirst (c ∷ l) = All (Before c) l × OldestFirst l

-- The candidates of one directory.
abbrev In : Place → Candidate → Type 0
In place c = c.place ≡ place

abbrev NoOlder : Candidate → Candidate → Type 0
NoOlder c d = text_lt d.date c.date ≡ false

abbrev ByDate : List Candidate → Type 0
ByDate [] = Unit
ByDate (c ∷ l) = All (NoOlder c) l × ByDate l

map-All :
    {P Q : Candidate → Type 0} (l : List Candidate) (f : (c : Candidate) → P c → Q c)
    → All P l
    → All Q l
map-All [] f h = tt
map-All (c ∷ l) f (h, hs) = (f c h, map-All l f hs)

candidate_lt-NoOlder : (c d : Candidate) → candidate_lt c d ≡ true → NoOlder c d
candidate_lt-NoOlder c d h = go (text_eq c.date d.date) refl h
  where
    go :
        (b : Bool)
        → text_eq c.date d.date ≡ b
        → (if b then text_lt c.name d.name else text_lt c.date d.date) ≡ true
        → text_lt d.date c.date ≡ false
    go true e f =
        ap (λ t. text_lt t c.date) (sym ((text_eq_iff c.date d.date).0 e)) ∙ text_lt_irrefl c.date
    go false e f = text_lt_asymm c.date d.date f

not_candidate_lt-NoOlder : (c d : Candidate) → candidate_lt d c ≡ false → NoOlder c d
not_candidate_lt-NoOlder c d h = go (text_eq d.date c.date) refl h
  where
    go :
        (b : Bool)
        → text_eq d.date c.date ≡ b
        → (if b then text_lt d.name c.name else text_lt d.date c.date) ≡ false
        → text_lt d.date c.date ≡ false
    go true e f =
        ap (λ t. text_lt t c.date) ((text_eq_iff d.date c.date).0 e) ∙ text_lt_irrefl c.date
    go false e f = f

insert_sorted-All :
    (P : Candidate → Type 0) (c : Candidate) (l : List Candidate)
    → P c
    → All P l
    → All P (insert_sorted c l)
unfolding insert_sorted
insert_sorted-All P c [] h hs = (h, tt)
insert_sorted-All P c (d ∷ l) h (k, hs) = go (candidate_lt d c) (insert_sorted-All P c l h hs)
  where
    go :
        (b : Bool)
        → All P (insert_sorted c l)
        → All P (if b then d ∷ insert_sorted c l else c ∷ d ∷ l)
    go true r = (k, r)
    go false r = (h, (k, hs))

insert_sorted-ByDate : (c : Candidate) (l : List Candidate) → ByDate l → ByDate (insert_sorted c l)
unfolding insert_sorted
insert_sorted-ByDate c [] h = (tt, tt)
insert_sorted-ByDate c (d ∷ l) (h, hs) =
    go (candidate_lt d c) refl (λ g. insert_sorted-All (NoOlder d) c l g h)
      (insert_sorted-ByDate c l hs)
  where
    go :
        (b : Bool)
        → candidate_lt d c ≡ b
        → (NoOlder d c → All (NoOlder d) (insert_sorted c l))
        → ByDate (insert_sorted c l)
        → ByDate (if b then d ∷ insert_sorted c l else c ∷ d ∷ l)
    go true e f r = (f (candidate_lt-NoOlder d c e), r)
    go false e f r =
        let below = not_candidate_lt-NoOlder c d e in
        ((below, map-All l (λ x g. text_lt_trans c.date d.date x.date below g) h), (h, hs))

sort_candidates-ByDate : (l : List Candidate) → ByDate (sort_candidates l)
unfolding sort_candidates
sort_candidates-ByDate [] = tt
sort_candidates-ByDate (c ∷ l) =
    insert_sorted-ByDate c (sort_candidates l) (sort_candidates-ByDate l)

sort_candidates-All :
    (P : Candidate → Type 0) (l : List Candidate) → All P l → All P (sort_candidates l)
unfolding sort_candidates
sort_candidates-All P [] h = tt
sort_candidates-All P (c ∷ l) (h, hs) =
    insert_sorted-All P c (sort_candidates l) h (sort_candidates-All P l hs)

archives_of-In : (d : Dir) (l : List (Text × Node)) → All (In root) (archives_of d l)
unfolding archives_of
archives_of-In d [] = tt
archives_of-In d ((name, n) ∷ l) = go (archive_date d name n) (archives_of-In d l)
  where
    pick :
        (date : Text) (b : Bool)
        → All (In root) (archives_of d l)
        → All (In root) (
            if b
            then record { date = date; place = root; name = name; size = n.size } ∷ archives_of d l
            else archives_of d l)
    pick date true h = (refl, h)
    pick date false h = h

    go :
        (o : Option Text)
        → All (In root) (archives_of d l)
        → All (In root) (elim o as (λ x. List Candidate) [
          | none ↦ archives_of d l
          | some date ↦
              if is_date_name date
              then record { date = date; place = root; name = name; size = n.size }
                ∷ archives_of d l
              else archives_of d l
        ])
    go none h = h
    go (some date) h = pick date (is_date_name date) h

details_of-In :
    (d : Dir) (has_duckdb : Bool) (today cutoff : Text) (l : List (Text × Node))
    → All (In details) (details_of d has_duckdb today cutoff l)
unfolding details_of
details_of-In d has_duckdb today cutoff [] = tt
details_of-In d has_duckdb today cutoff ((name, n) ∷ l) =
    go (details_date d has_duckdb cutoff name n) (details_of-In d has_duckdb today cutoff l)
  where
    pick :
        (date : Text) (b : Bool)
        → All (In details) (details_of d has_duckdb today cutoff l)
        → All (In details) (
            if b
            then record { date = date; place = details; name = name; size = n.size }
              ∷ details_of d has_duckdb today cutoff l
            else details_of d has_duckdb today cutoff l)
    pick date true h = (refl, h)
    pick date false h = h

    go :
        (o : Option Text)
        → All (In details) (details_of d has_duckdb today cutoff l)
        → All (In details) (elim o as (λ x. List Candidate) [
          | none ↦ details_of d has_duckdb today cutoff l
          | some date ↦
              if is_date_name date && not (text_eq date today)
              then record { date = date; place = details; name = name; size = n.size }
                ∷ details_of d has_duckdb today cutoff l
              else details_of d has_duckdb today cutoff l
        ])
    go none h = h
    go (some date) h = pick date (is_date_name date && not (text_eq date today)) h

root-Before : (c d : Candidate) → In root c → In root d → NoOlder c d → Before c d
root-Before c d h g e = rw (h, g) e

details-Before : (c d : Candidate) → In details c → In details d → NoOlder c d → Before c d
details-Before c d h g e = rw (h, g) e

apart-Before : (c d : Candidate) → In root c → In details d → Before c d
apart-Before c d h g = rw (h, g) tt

zip-All :
    (P Q R : Candidate → Type 0) (l : List Candidate)
    → ((d : Candidate) → P d → Q d → R d)
    → All P l
    → All Q l
    → All R l
zip-All P Q R [] f h g = tt
zip-All P Q R (d ∷ l) f (h, hs) (g, gs) = (f d h g, zip-All P Q R l f hs gs)

details-OldestFirst : (l : List Candidate) → All (In details) l → ByDate l → OldestFirst l
details-OldestFirst [] h g = tt
details-OldestFirst (c ∷ l) (h, hs) (g, gs) = (
  zip-All (In details) (NoOlder c) (Before c) l (λ d x y. details-Before c d h x y) hs g,
  details-OldestFirst l hs gs,
)

append-OldestFirst :
    (l m : List Candidate)
    → All (In root) l
    → ByDate l
    → All (In details) m
    → ByDate m
    → OldestFirst (l ++ m)
append-OldestFirst [] m h g i j = details-OldestFirst m i j
append-OldestFirst (c ∷ l) m (h, hs) (g, gs) i j = (
  All-append (Before c) l m
      (zip-All (In root) (NoOlder c) (Before c) l (λ d x y. root-Before c d h x y) hs g)
      (map-All m (λ d x. apart-Before c d h x) i),
  append-OldestFirst l m hs gs i j,
)

-- The candidates come archives first, and oldest first in either directory.
pub prune_candidates-OldestFirst :
    (fs : Fs) (has_duckdb : Bool) (today cutoff : Text)
    → OldestFirst (prune_candidates fs has_duckdb today cutoff)
unfolding prune_candidates
prune_candidates-OldestFirst fs has_duckdb today cutoff =
    append-OldestFirst (sort_candidates archives) (sort_candidates rows)
      (sort_candidates-All (In root) archives (in_root fs.root)) (sort_candidates-ByDate archives)
      (sort_candidates-All (In details) rows (in_details fs.details)) (sort_candidates-ByDate rows)
  where
    archives : List Candidate
    archives = listed fs.root (λ d. archives_of d d)

    rows : List Candidate
    rows = listed fs.details (λ d. details_of d has_duckdb today cutoff d)

    in_root : (o : Option Dir) → All (In root) (listed o (λ d. archives_of d d))
    in_root none = tt
    in_root (some d) = archives_of-In d d

    in_details :
        (o : Option Dir) → All (In details) (listed o (λ d. details_of d has_duckdb today cutoff d))
    in_details none = tt
    in_details (some d) = details_of-In d has_duckdb today cutoff d

keep-All :
    (p : Candidate → Bool) (P : Candidate → Type 0) (l : List Candidate)
    → All P l
    → All P (keep p l)
unfolding keep
keep-All p P [] h = tt
keep-All p P (c ∷ l) (h, hs) = go (p c) (keep-All p P l hs)
  where
    go :
        (b : Bool)
        → All P (keep p l)
        → All P (elim b as (λ x. List Candidate) [ true ↦ c ∷ keep p l | false ↦ keep p l ])
    go true r = (h, r)
    go false r = r

pub keep-OldestFirst :
    (p : Candidate → Bool) (l : List Candidate) → OldestFirst l → OldestFirst (keep p l)
unfolding keep
keep-OldestFirst p [] h = tt
keep-OldestFirst p (c ∷ l) (h, hs) = go (p c) (keep-OldestFirst p l hs)
  where
    go :
        (b : Bool)
        → OldestFirst (keep p l)
        → OldestFirst (elim b as (λ x. List Candidate) [ true ↦ c ∷ keep p l | false ↦ keep p l ])
    go true r = (keep-All p (Before c) l h, r)
    go false r = r
