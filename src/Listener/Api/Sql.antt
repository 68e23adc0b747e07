-- ===== src/Listener/Api/Sql.antt =====
-- The literals of sqlStr in bodylog-listener-go/main.go, read the way SQL reads them.
use llm_openresty.Base.{
  ℕ, ◌≡◌, refl, sym, ap, ◌∙◌, Bool, true, false, Option, none, some, [], ◌∷◌, ◌++◌, Text, nat_eq,
  nat_eq_iff, if◌then◌else◌, append_assoc,
}
use llm_openresty.Listener.Api.{double_quotes, sql_str}

-- A literal from behind its opening quote: two quotes are a quote of the text, and one ends it.
abbrev grow : ℕ → Option (Text × Text) → Option (Text × Text)
grow c none = none
grow c (some (s, rest)) = some (c ∷ s, rest)

-- The flag says that a quote has just been read.
abbrev literal : Bool → Text → Option (Text × Text)
literal false [] = none
literal true [] = some ([], [])
literal false (c ∷ s) =
    let quote = literal true s in
    let plain = literal false s in if nat_eq c b'\'' then quote else grow c plain
literal true (c ∷ s) =
    let rest = literal false s in if nat_eq c b'\'' then grow b'\'' rest else some ([], c ∷ s)

abbrev pub read_literal : Text → Option (Text × Text)
read_literal [] = none
read_literal (c ∷ s) = if nat_eq c b'\'' then literal false s else none

abbrev pub StartsUnquoted : Text → Type 0
StartsUnquoted [] = Unit
StartsUnquoted (c ∷ s) = nat_eq c b'\'' ≡ false

literal-end : (rest : Text) → StartsUnquoted rest → literal true rest ≡ some ([], rest)
literal-end [] h = refl
literal-end (c ∷ rest) h = rw h refl

literal-double_quotes :
    (s rest : Text)
    → StartsUnquoted rest
    → literal false (double_quotes s ++ b'\'' ∷ rest) ≡ some (s, rest)
unfolding double_quotes
literal-double_quotes [] rest h = literal-end rest h
literal-double_quotes (c ∷ s) rest h = go (nat_eq c b'\'') refl (literal-double_quotes s rest h)
  where
    go :
        (b : Bool)
        → nat_eq c b'\'' ≡ b
        → literal false (double_quotes s ++ b'\'' ∷ rest) ≡ some (s, rest)
        → literal false
            ((if b then b'\'' ∷ b'\'' ∷ double_quotes s else c ∷ double_quotes s) ++ b'\'' ∷ rest)
          ≡ some (c ∷ s, rest)
    go true e f = ap (grow b'\'') f ∙ ap (λ q. some (q ∷ s, rest)) (sym ((nat_eq_iff c b'\'').0 e))
    go false e f = rw e (ap (grow c) f)

-- SQL reads the literal that sqlStr makes of any text as that text, and goes on behind it, unless a quote
-- follows: no text can end its literal early.
pub read_literal-sql_str :
    (s rest : Text) → StartsUnquoted rest → read_literal (sql_str s ++ rest) ≡ some (s, rest)
unfolding sql_str
read_literal-sql_str s rest h =
    ap (literal false) (append_assoc (double_quotes s) (b'\'' ∷ []) rest)
    ∙ literal-double_quotes s rest h
