-- ===== src/Listener/Api/Metrics/Scanned.antt =====
-- What a page takes of the rows, in metricsHandler of bodylog-listener-go/httpapi.go.
use llm_openresty.Base.{ℕ, zero, suc, ◌≡◌, refl, ap, Bool, true, false, List, [], ◌∷◌, ◌++◌, take}
use llm_openresty.Listener.Api.Metrics.Page.{Row, last_of, scan_rows}

-- What a page of at most `suc n` rows takes of the rows, with the rows behind it.
pub record Scanned (n : ℕ) (x : Row) (xs : List Row) : Type 0 where
  pub tl : List Row
  pub init : List Row
  pub after : List Row
  pub more : Bool
  pub out : scan_rows (suc n) (take (suc (suc n)) (x ∷ xs)) ≡ (x ∷ tl, more)
  pub whole : x ∷ xs ≡ init ++ last_of x tl ∷ after
  pub cut : x ∷ xs ≡ (x ∷ tl) ++ after
  pub ends : more ≡ false → after ≡ []

pub scanned : (n : ℕ) (x : Row) (xs : List Row) → Scanned n x xs
unfolding scan_rows
scanned zero x [] = record {
  tl = [];
  init = [];
  after = [];
  more = false;
  out = refl;
  whole = refl;
  cut = refl;
  ends = λ e. refl;
}
scanned zero x (y ∷ ys) = record {
  tl = [];
  init = [];
  after = y ∷ ys;
  more = true;
  out = refl;
  whole = refl;
  cut = refl;
  ends = λ e. absurd cc;
}
scanned (suc n) x [] = record {
  tl = [];
  init = [];
  after = [];
  more = false;
  out = refl;
  whole = refl;
  cut = refl;
  ends = λ e. refl;
}
scanned (suc n) x (y ∷ ys) =
    let s = scanned n y ys in
    record {
      tl = y ∷ s.tl;
      init = x ∷ s.init;
      after = s.after;
      more = s.more;
      out = ap (λ (p : List Row × Bool). (x ∷ p.0, p.1)) s.out;
      whole = ap (λ l. x ∷ l) s.whole;
      cut = ap (λ l. x ∷ l) s.cut;
      ends = s.ends;
    }
