-- ===== src/Listener/Api/Metrics/WalkExamples.antt =====
-- Two rows, whose ends are given and computed, in pages of one.
use llm_openresty.Base.{
  ℕ, ◌+◌, ◌≡◌, refl, ap, Bool, true, false, Option, none, some, List, [], ◌∷◌, Text, codes, keep,
  arith, text_eq, text_lt, text_eq_iff, if◌then◌else◌,
}
use llm_openresty.Listener.Api.{Base64, sql_str}
use llm_openresty.Listener.Api.Metrics.Query.{
  Go, since, behind, files_of, limit_of, parse_time_param,
}
use llm_openresty.Listener.Api.Metrics.Page.{Row, null, text, number}
use llm_openresty.Listener.Api.Metrics.Window.{given, computed, Database, statement}
use llm_openresty.Listener.Api.Metrics.Walk.{walk, walk-all}

abbrev digit : Bool → Bool → Bool → Bool → Option ℕ
digit true b c d = some 1
digit false true c d = some 2
digit false false true d = some 3
digit false false false true = some 9
digit false false false false = none

-- The times 1, 2, 3 and 9 are written as these digits.
abbrev literal : Text → Option ℕ
literal s =
    digit (text_eq s (49 ∷ [])) (text_eq s (50 ∷ [])) (text_eq s (51 ∷ [])) (text_eq s (57 ∷ []))

abbrev go : Go
go = record {
  unix = literal;
  rfc3339 = λ s. none;
  local_t = λ s. none;
  local_space = λ s. none;
  format = λ t. (48 + t) ∷ [];
  details_dir = [];
  day_of = λ t. 0;
  date_text = λ d. codes "2026-01-01";
  atoi = λ s. some 1;
  int_text = λ s. some s;
  float_text = λ s. some s;
  decimal = λ n. (48 + n) ∷ [];
}

-- It ended at 2, and the other began at 1 and took 2.
abbrev first_row : Row
first_row = record { ts_end = text (50 ∷ []); ts = null; rt = null; request_id = text (120 ∷ []) }

abbrev second_row : Row
second_row = record {
  ts_end = null;
  ts = text (49 ∷ []);
  rt = number 2 (50 ∷ []);
  request_id = null;
}

abbrev two_rows : List Row
two_rows = first_row ∷ second_row ∷ []

abbrev ends : Row → ℕ
ends r = elim r.ts_end [ null ↦ 3 | _ ↦ 2 ]

abbrev shown : ℕ → Text
shown t = []

abbrev exists : Text → Bool
exists path = true

abbrev ask : Text → Text
ask ts = statement go (files_of go exists 2 9) 9 (behind 2 ts (120 ∷ [])) 2

abbrev query : Text → Option (List Row)
query sql =
    if text_eq sql (statement go (files_of go exists 1 9) 9 (since 1) 2)
    then some two_rows
    else if text_eq sql (ask (50 ∷ []))
    then some (second_row ∷ [])
    else some []

abbrev strip : Text → Option Text
strip [] = none
strip (c ∷ s) = some s

abbrev marked : Base64
marked = record { encode = λ s. 65 ∷ s; decode = strip }

literal-two : (ts : Text) → literal ts ≡ some 2 → ts ≡ 50 ∷ []
literal-two ts h =
    pick (text_eq ts (49 ∷ [])) (text_eq ts (50 ∷ [])) (text_eq ts (51 ∷ [])) (text_eq ts (57 ∷ []))
      refl h
  where
    pick : (a b c d : Bool) → text_eq ts (50 ∷ []) ≡ b → digit a b c d ≡ some 2 → ts ≡ 50 ∷ []
    pick true b c d e g = absurd cc
    pick false true c d e g = (text_eq_iff ts (50 ∷ [])).0 e
    pick false false true d e g = absurd cc
    pick false false false true e g = absurd cc
    pick false false false false e g = absurd cc

literal-three : (ts : Text) → literal ts ≡ some 3 → ts ≡ 51 ∷ []
literal-three ts h =
    pick (text_eq ts (49 ∷ [])) (text_eq ts (50 ∷ [])) (text_eq ts (51 ∷ [])) (text_eq ts (57 ∷ []))
      refl h
  where
    pick : (a b c d : Bool) → text_eq ts (51 ∷ []) ≡ c → digit a b c d ≡ some 3 → ts ≡ 51 ∷ []
    pick true b c d e g = absurd cc
    pick false true c d e g = absurd cc
    pick false false true d e g = (text_eq_iff ts (51 ∷ [])).0 e
    pick false false false true e g = absurd cc
    pick false false false false e g = absurd cc

two_rows-Database : Database shown ends go literal exists query 1 9 two_rows 2
unfolding files_of keep sql_str text_eq text_lt parse_time_param
two_rows-Database = record {
  ordered = ((refl, tt), (tt, tt));
  timed = (
    given (record {
      written = 50 ∷ [];
      holds = refl;
      reads = record { nonempty = refl; plain = (refl, tt); parsed = refl; meant = refl };
    }),
    (
      computed refl 1
          (record {
            written = 49 ∷ [];
            holds = refl;
            reads = record { nonempty = refl; plain = (refl, tt); parsed = refl; meant = refl };
          })
          refl (record { nonempty = refl; plain = (refl, tt); parsed = refl; meant = refl }),
      tt,
    ),
  );
  first = refl;
  later = (
    λ ts h. ap (λ s. query (ask s)) (literal-two ts h),
    (
      λ ts h.
          ap (λ s. query (statement go (files_of go exists 3 9) 9 (behind 3 s []) 2))
            (literal-three ts h),
      tt,
    ),
  );
  no_files = λ lo e. absurd cc;
}

walk-all_example : walk go shown marked exists query 5 (57 ∷ []) (49 ∷ []) (49 ∷ []) 3 [] ≡ two_rows
unfolding keep limit_of parse_time_param text_eq
walk-all_example =
    walk-all go shown marked exists query 5 (57 ∷ []) (49 ∷ []) (49 ∷ []) literal 0 1 9 ends
      two_rows refl refl refl (omega arith)
      (record { decodes = λ s. refl; nonempty = λ s h e. absurd cc }) two_rows-Database 3
      (omega arith)
