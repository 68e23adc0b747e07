-- ===== src/Base/Texts.antt =====
-- Go strings as lists of bytes, with the parts of package strings that the program calls.
use Prim.Native.Nat.{ℕ, ◌-◌, compare, Ordering}
use Prim.Native.Char.{code}
use Prim.Native.String.{String}
use mathlib.Core.Path.{◌≡◌, refl, sym, ap, ◌∙◌}
use mathlib.Core.Logic.{◌↔◌}
use mathlib.Core.Bool.{Bool, true, false, ◌&&◌, ◌||◌}
use mathlib.Core.Option.{Option, none, some}
use mathlib.Core.List.{List, [], ◌∷◌, ◌++◌}
use native.Mathlib.Omega.{arith}
use llm_openresty.Base.Tests.{Comparable, nat_eq, nat_eq_iff, leb, if◌then◌else◌, split_and}
use llm_openresty.Base.Lists.{length, take, drop, All, take-append-drop, drop-append_length}

abbrev pub Text : Type 0
Text = List ℕ

-- The code points of a literal: its bytes, where it is ASCII.
abbrev pub codes : String → Text
codes String.[] = []
codes (String.◌∷◌ c s) = code c ∷ codes s

unfoldable pub text_eq : Text → Text → Bool
text_eq [] [] = true
text_eq [] (y ∷ ys) = false
text_eq (x ∷ xs) [] = false
text_eq (x ∷ xs) (y ∷ ys) = nat_eq x y && text_eq xs ys

pub text_eq_refl : (s : Text) → text_eq s s ≡ true
unfolding text_eq
text_eq_refl [] = refl
text_eq_refl (x ∷ xs) = ground (arith, text_eq_refl xs)

text_eq_sound : (s t : Text) → text_eq s t ≡ true → s ≡ t
unfolding text_eq
text_eq_sound [] [] h = refl
text_eq_sound [] (y ∷ ys) h = cc
text_eq_sound (x ∷ xs) [] h = cc
text_eq_sound (x ∷ xs) (y ∷ ys) h = ground (arith, text_eq_sound xs ys)

pub text_eq_iff : (s t : Text) → (text_eq s t ≡ true) ↔ (s ≡ t)
text_eq_iff s t = (text_eq_sound s t, λ e. rw e (text_eq_refl t))

instance abbrev pub text_Eq : Comparable Text
text_Eq = record { same = text_eq; same_iff = text_eq_iff }

-- s < t, byte by byte.
unfoldable pub text_lt : Text → Text → Bool
text_lt s [] = false
text_lt [] (y ∷ ys) = true
text_lt (x ∷ xs) (y ∷ ys) =
    let rest = text_lt xs ys in
    elim (compare x y) [ Ordering.lt ↦ true | Ordering.eq ↦ rest | Ordering.gt ↦ false ]

-- strings.IndexByte split there: the part before the first such byte and the part behind it.
unfoldable pub cut_byte : ℕ → Text → Option (Text × Text)
cut_byte b [] = none
cut_byte b (c ∷ s) =
    let rest = cut_byte b s in
    if nat_eq c b then some ([], s) else elim rest [ none ↦ none | some (p, q) ↦ some (c ∷ p, q) ]

-- strings.HasPrefix
unfoldable pub has_prefix : Text → Text → Bool
has_prefix s [] = true
has_prefix [] (p ∷ ps) = false
has_prefix (c ∷ s) (p ∷ ps) = nat_eq c p && has_prefix s ps

-- strings.HasSuffix
unfoldable pub has_suffix : Text → Text → Bool
unfolding text_eq
has_suffix s suffix =
    leb (length suffix) (length s) && text_eq (drop (length s - length suffix) s) suffix

-- strings.TrimSuffix
unfoldable pub trim_suffix : Text → Text → Text
unfolding has_suffix
trim_suffix s suffix = if has_suffix s suffix then take (length s - length suffix) s else s

-- What TrimSuffix has cut off is the suffix.
pub trim_suffix-has_suffix :
    (s suffix : Text) → has_suffix s suffix ≡ true → trim_suffix s suffix ++ suffix ≡ s
trim_suffix-has_suffix s suffix h =
    ap (λ p. p ++ suffix) (trimmed h)
    ∙ ap (λ q. take (length s - length suffix) s ++ q) (sym (cut h))
    ∙ take-append-drop (length s - length suffix) s
  where
    trimmed : has_suffix s suffix ≡ true → trim_suffix s suffix ≡ take (length s - length suffix) s
    trimmed h = unfold trim_suffix in rw h refl

    cut : has_suffix s suffix ≡ true → drop (length s - length suffix) s ≡ suffix
    cut h =
        unfold has_suffix in
        (text_eq_iff (drop (length s - length suffix) s) suffix).0
          (split_and (leb (length suffix) (length s))
            (text_eq (drop (length s - length suffix) s) suffix) h).1

-- strings.TrimPrefix
unfoldable pub trim_prefix : Text → Text → Text
unfolding has_prefix
trim_prefix s prefix = if has_prefix s prefix then drop (length prefix) s else s

pub has_prefix-append : (p s : Text) → has_prefix (p ++ s) p ≡ true
unfolding has_prefix
has_prefix-append [] s = refl
has_prefix-append (c ∷ p) s = ground (arith, nat_eq_iff c c, has_prefix-append p s)

pub trim_prefix-append : (p s : Text) → trim_prefix (p ++ s) p ≡ s
unfolding trim_prefix
trim_prefix-append p s = rw (has_prefix-append p s) (drop-append_length p s)

-- The bytes that strings.TrimSpace removes from an ASCII text.
abbrev pub is_space : ℕ → Bool
is_space c = nat_eq c 32 || (leb 9 c && leb c 13)

abbrev pub drop_spaces : Text → Text
drop_spaces [] = []
drop_spaces (c ∷ s) = elim (is_space c) [ true ↦ drop_spaces s | false ↦ c ∷ s ]

abbrev pub trim_right_spaces : Text → Text
trim_right_spaces [] = []
trim_right_spaces (c ∷ s) =
    let rest = trim_right_spaces s in
    elim rest [ [] ↦ elim (is_space c) [ true ↦ [] | false ↦ c ∷ [] ] | d ∷ r ↦ c ∷ d ∷ r ]

-- strings.TrimSpace
unfoldable pub trim_space : Text → Text
trim_space s = trim_right_spaces (drop_spaces s)

abbrev pub Lacks : ℕ → Text → Type 0
Lacks b = All (λ c. nat_eq c b ≡ false)

-- The cut is at the first such byte.
pub cut_byte-append : (b : ℕ) (p q : Text) → Lacks b p → cut_byte b (p ++ b ∷ q) ≡ some (p, q)
unfolding cut_byte
cut_byte-append b [] q h = ground arith
cut_byte-append b (c ∷ p) q h = rw (h.0, cut_byte-append b p q h.1)

pub cut_byte-Lacks : (b : ℕ) (s : Text) → Lacks b s → cut_byte b s ≡ none
unfolding cut_byte
cut_byte-Lacks b [] h = refl
cut_byte-Lacks b (c ∷ s) h = rw (h.0, cut_byte-Lacks b s h.1)
