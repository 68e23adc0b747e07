-- ===== src/Listener/Housekeep/Names.antt =====
-- The names that housekeep of bodylog-listener-go/main.go uses for a day are different.
use llm_openresty.Base.{
  append-nil, split_and, ℕ, ◌-◌, ◌≤◌, ◌≡◌, ◌≢◌, refl, sym, ap, ◌∙◌, true, false, none, some, [],
  ◌∷◌, ◌++◌, Text, codes, length, take, take-append_length, length-append, length-take, has_prefix,
  has_suffix, trim_suffix, nat_eq, arith, text_eq, text_eq_iff, text_Eq, if◌then◌else◌,
}
use llm_openresty.Base.Dict.{get, put, remove, get-put, get-remove}
use llm_openresty.Listener.Files.{is_date_name, is_digit, tar_gz, jsonl}
use llm_openresty.Listener.Housekeep.{Item, Disk, contains, is_leftover, tmp_dash}

-- No dot is in a day's name.
abbrev Undotted : Text → Type 0
Undotted [] = Unit
Undotted (c ∷ s) = (nat_eq c b'.' ≡ false) × Undotted s

abbrev crashed : Text
crashed = codes ".tar.gz.tmp"

record DateShape (s : Text) : Type 0 where
  size : length s ≡ 10
  undotted : Undotted s
  complete : has_suffix s crashed ≡ false
  archive_complete : has_suffix (s ++ tar_gz) crashed ≡ false

digit-undotted : (c : ℕ) → is_digit c ≡ true → nat_eq c b'.' ≡ false
digit-undotted c h = ground arith

dash-undotted : (c : ℕ) → nat_eq c b'-' ≡ true → nat_eq c b'.' ≡ false
dash-undotted c h = ground arith

date-DateShape : (s : Text) → is_date_name s ≡ true → DateShape s
unfolding is_date_name has_suffix text_eq
date-DateShape [] h = absurd cc
date-DateShape (a ∷ []) h = absurd cc
date-DateShape (a ∷ b ∷ []) h = absurd cc
date-DateShape (a ∷ b ∷ c ∷ []) h = absurd cc
date-DateShape (a ∷ b ∷ c ∷ d ∷ []) h = absurd cc
date-DateShape (a ∷ b ∷ c ∷ d ∷ m ∷ []) h = absurd cc
date-DateShape (a ∷ b ∷ c ∷ d ∷ m ∷ e ∷ []) h = absurd cc
date-DateShape (a ∷ b ∷ c ∷ d ∷ m ∷ e ∷ f ∷ []) h = absurd cc
date-DateShape (a ∷ b ∷ c ∷ d ∷ m ∷ e ∷ f ∷ n ∷ []) h = absurd cc
date-DateShape (a ∷ b ∷ c ∷ d ∷ m ∷ e ∷ f ∷ n ∷ g ∷ []) h = absurd cc
date-DateShape (a ∷ b ∷ c ∷ d ∷ m ∷ e ∷ f ∷ n ∷ g ∷ i ∷ []) h =
    let (h1, hi) = split_and _ (is_digit i) h in
    let (h2, hg) = split_and _ (is_digit g) h1 in
    let (h3, hf) = split_and _ (is_digit f) h2 in
    let (h4, he) = split_and _ (is_digit e) h3 in
    let (h5, hd) = split_and _ (is_digit d) h4 in
    let (h6, hc) = split_and _ (is_digit c) h5 in
    let (h7, hb) = split_and _ (is_digit b) h6 in
    let (h8, ha) = split_and _ (is_digit a) h7 in
    let (hm, hn) = split_and (nat_eq m b'-') (nat_eq n b'-') h8 in
    record {
      size = refl;
      undotted = (
        digit-undotted a ha,
        (
          digit-undotted b hb,
          (
            digit-undotted c hc,
            (
              digit-undotted d hd,
              (
                dash-undotted m hm,
                (
                  digit-undotted e he,
                  (
                    digit-undotted f hf,
                    (dash-undotted n hn, (digit-undotted g hg, (digit-undotted i hi, tt))),
                  ),
                ),
              ),
            ),
          ),
        ),
      );
      complete = refl;
      archive_complete = rw (digit-undotted f hf) refl;
    }
date-DateShape (a ∷ b ∷ c ∷ d ∷ m ∷ e ∷ f ∷ n ∷ g ∷ i ∷ j ∷ s) h = absurd cc

pub is_date_name-length : (s : Text) → is_date_name s ≡ true → length s ≡ 10
is_date_name-length s h = (date-DateShape s h).size

Undotted-contains :
    (s t : Text)
    → Undotted s
    → contains t (codes ".tar.gz.tmp-") ≡ false
    → contains (s ++ t) (codes ".tar.gz.tmp-") ≡ false
unfolding has_prefix
Undotted-contains [] t u h = h
Undotted-contains (c ∷ s) t (u, us) h = rw (u, Undotted-contains s t us h) refl

-- Names of different lengths.
pub length-apart : (s t : Text) → length s ≢ length t → text_eq s t ≡ false
length-apart s t h = ground (arith, text_eq_iff s t, ap {A = Text} (λ u. length u))

pub get-put_away :
    (d : Disk) (k x : Text) (v : Item) → text_eq k x ≡ false → get (put d k v) x ≡ get d x
get-put_away d k x v h = get-put d k x v ∙ ap (λ b. if b then some v else get d x) h

pub get-remove_away : (d : Disk) (k x : Text) → text_eq k x ≡ false → get (remove d k) x ≡ get d x
get-remove_away d k x h = get-remove d k x ∙ ap (λ b. if b then none else get d x) h

pub length-tar_gz : (s : Text) → is_date_name s ≡ true → length (s ++ tar_gz) ≡ 17
length-tar_gz s h = omega (arith, length-append s tar_gz, is_date_name-length s h)

pub length-tmp :
    (s suffix : Text) → is_date_name s ≡ true → 22 ≤ length ((s ++ tar_gz) ++ (tmp_dash ++ suffix))
length-tmp s suffix h = omega (
  arith,
  length-append (s ++ tar_gz) (tmp_dash ++ suffix),
  length-append tmp_dash suffix,
  length-tar_gz s h,
)

pub length-jsonl :
    (s : Text)
    → has_suffix s jsonl ≡ true
    → is_date_name (trim_suffix s jsonl) ≡ true
    → length s ≡ 16
length-jsonl s h g = omega (
  arith,
  suffix-le s h,
  length-take (length s - 6) s (omega arith),
  trimmed s h,
  is_date_name-length (trim_suffix s jsonl) g,
)
  where
    suffix-le : (s : Text) → has_suffix s jsonl ≡ true → 6 ≤ length s
    suffix-le s h = unfold has_suffix in ground arith

    trimmed :
        (s : Text)
        → has_suffix s jsonl ≡ true
        → length (trim_suffix s jsonl) ≡ length (take (length s - 6) s)
    trimmed s h = unfold trim_suffix in rw h refl

pub is_leftover-date : (s : Text) → is_date_name s ≡ true → is_leftover s ≡ false
is_leftover-date s h = rw ((date-DateShape s h).complete, whole) refl
  where
    whole : contains s (codes ".tar.gz.tmp-") ≡ false
    whole =
        sym (ap (λ u. contains u (codes ".tar.gz.tmp-")) (append-nil s))
        ∙ Undotted-contains s [] (date-DateShape s h).undotted (unfold has_prefix in refl)

pub is_leftover-tar_gz : (s : Text) → is_date_name s ≡ true → is_leftover (s ++ tar_gz) ≡ false
unfolding has_prefix
is_leftover-tar_gz s h =
    rw
      (
        (date-DateShape s h).archive_complete,
        Undotted-contains s tar_gz (date-DateShape s h).undotted refl,
      )
      refl

pub day-injective :
    (s t u : Text) → is_date_name s ≡ true → is_date_name t ≡ true → s ++ u ≡ t ++ u → s ≡ t
day-injective s t u h g e =
    sym (take-append_length s u)
    ∙ ap (λ n. take n (s ++ u)) (is_date_name-length s h)
    ∙ ap (take 10) e
    ∙ ap (λ n. take n (t ++ u)) (sym (is_date_name-length t g))
    ∙ take-append_length t u
