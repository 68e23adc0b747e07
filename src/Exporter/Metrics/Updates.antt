-- ===== src/Exporter/Metrics/Updates.antt =====
-- Which series a row touches in observe of bodylog-exporter-go/metrics.go.
use llm_openresty.Base.{
  ℕ, ◌+◌, ◌≡◌, refl, Bool, true, false, ◌&&◌, ◌||◌, not, Option, List, [], ◌∷◌, ◌++◌, Text, text_eq,
  if◌then◌else◌, nat_eq, arith,
}
use llm_openresty.Exporter.Resolver.{RouteInfo}
use llm_openresty.Exporter.Metrics.{
  Floats, DetailRecord, Family, requests, finish_c, ttft_h, lines_c, Update, inc, add, observed,
  set_last_ts, observe, is_stream, when, overall_tok_per_sec, decode_tok_per_sec, rate_updates,
  finish_updates, positive,
}

abbrev pub is_requests : Family → Bool
is_requests requests = true
is_requests _ = false

abbrev pub is_finish : Family → Bool
is_finish finish_c = true
is_finish _ = false

abbrev pub is_ttft : Family → Bool
is_ttft ttft_h = true
is_ttft _ = false

abbrev pub is_lines : Family → Bool
is_lines lines_c = true
is_lines _ = false

abbrev pub one : Bool → ℕ
one true = 1
one false = 0

module _ {F : Type 0} where
  abbrev hit : (Family → Bool) → Update F → ℕ
  hit p (inc f l) = one (p f)
  hit p (add f l x) = one (p f)
  hit p (observed f l x) = one (p f)
  hit p (set_last_ts t) = 0

  -- How often a list of updates touches the families of a test.
  unfoldable pub touches : (Family → Bool) → List (Update F) → ℕ
  touches p [] = 0
  touches p (u ∷ l) = hit p u + touches p l

  touches-append :
      (p : Family → Bool) (l m : List (Update F)) → touches p (l ++ m) ≡ touches p l + touches p m
  unfolding touches
  touches-append p [] m = omega arith
  touches-append p (u ∷ l) m = omega (arith, touches-append p l m)

  touches-when :
      (p : Family → Bool) (b : Bool) (u : Update F)
      → touches p (when b u) ≡ (if b then hit p u else 0)
  unfolding touches
  touches-when p true u = omega arith
  touches-when p false u = refl

abbrev if_nat : Bool → ℕ → ℕ
if_nat b n = if b then n else 0

if_zero : (b : Bool) → if_nat b 0 ≡ 0
if_zero true = refl
if_zero false = refl

if_one : (b : Bool) → if_nat b 1 ≡ one b
if_one true = refl
if_one false = refl

module _ {F : Type 0} (fl : Floats F) where
  touches-finish_updates :
      (p : Family → Bool) (labels : List Text) (d : DetailRecord F)
      → touches p (finish_updates fl labels d)
        ≡ (if not (text_eq d.finish_reason []) || nat_eq d.status 200 then one (p finish_c) else 0)
  unfolding touches
  touches-finish_updates p labels d = ground arith

  touches-rate_updates :
      (p : Family → Bool) (labels : List Text) (d : DetailRecord F)
      → p overall_tok_per_sec ≡ false
      → p decode_tok_per_sec ≡ false
      → touches p (rate_updates fl labels d) ≡ 0
  unfolding touches
  touches-rate_updates p labels d h k = ground arith

ruleset sums =
    (touches-append, touches-when, touches-finish_updates, touches-rate_updates, if_zero, if_one)

module _ {F : Type 0} (fl : Floats F) (lookup : Text → Option RouteInfo) (seconds : F)
    (d : DetailRecord F) where
  -- Every row is counted once as a request and once as a line. The finish reason is counted once if
  -- the row has one or its status is 200, and not at all otherwise; the time to the first token is
  -- observed once if it is positive and the request asked for a stream, and not at all otherwise.
  pub observe-touches :
      ((touches is_requests (observe fl lookup seconds d) ≡ 1)
        × (touches is_lines (observe fl lookup seconds d) ≡ 1))
      × ((touches is_finish (observe fl lookup seconds d)
            ≡ one (not (text_eq d.finish_reason []) || nat_eq d.status 200))
          × (touches is_ttft (observe fl lookup seconds d)
              ≡ one (positive fl d.frt && is_stream d.stream)))
  unfolding observe touches
  observe-touches = (
    (simp sums (omega arith), simp sums (omega arith)),
    (simp sums (omega arith), simp sums (omega arith)),
  )
