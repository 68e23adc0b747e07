-- ===== src/Exporter/Metrics.antt =====
-- observe and its helpers of bodylog-exporter-go/metrics.go. The updates that a row makes are a
-- list, in the order of the code; Prometheus itself and floating-point arithmetic are parameters.
mod Bucket
pub mod Updates
mod Examples
unfoldable pub use Bucket.*
use llm_openresty.Base.{
  ℕ, Bool, true, false, ◌&&◌, ◌||◌, not, Option, none, some, List, [], ◌∷◌, ◌++◌, Text, codes,
  text_eq, if◌then◌else◌, slt64, nat_eq,
}
use llm_openresty.Exporter.Names.{backend_ip}
use llm_openresty.Exporter.Resolver.{RouteInfo}

-- float64, as far as observe computes with it.
pub record Floats (F : Type 0) : Type 0 where
  pub of_int : ℕ → F
  pub div : F → F → F
  pub sub : F → F → F
  pub below : F → F → Bool
  pub f_zero : F
  -- 0.5 and 0.3
  pub half : F
  pub three_tenths : F

-- detailRecord: int64 fields are bit patterns.
pub record DetailRecord (F : Type 0) : Type 0 where
  pub ts : Text
  pub ts_end : Text
  pub request_id : Text
  pub stream : Option Bool
  pub status : ℕ
  pub backend : Text
  pub model : Text
  pub finish_reason : Text
  pub frt : F
  pub lct : F
  pub rt : F
  pub req_bytes : ℕ
  pub resp_bytes : ℕ
  pub prompt_tokens : ℕ
  pub completion_tokens : ℕ
  pub cached_tokens : ℕ
  pub total_tokens : ℕ
  pub reasoning_tokens : ℕ

-- The metrics of a row; `lines_c` is m.lines.
pub data Family : Type 0 where
  requests : Family
  prompt_tok : Family
  completion_tok : Family
  cached_tok : Family
  reasoning_tok : Family
  total_tok : Family
  req_bytes_c : Family
  resp_bytes_c : Family
  finish_c : Family
  rt_h : Family
  ttft_h : Family
  out_tok_per_sec : Family
  overall_tok_per_sec : Family
  decode_tok_per_sec : Family
  lines_c : Family

-- Inc, Add and Observe on the series of the labels, and the gauge lastTs.
pub data Update (F : Type 0) : Type 0 where
  inc : Family → List Text → Update F
  add : Family → List Text → F → Update F
  observed : Family → List Text → F → Update F
  set_last_ts : F → Update F

-- 200 <= s && s < 300, and the like; `lo` is not negative.
abbrev pub in_class : ℕ → ℕ → ℕ → Bool
in_class lo hi s = not (slt64 s lo) && slt64 s hi

unfoldable pub status_class : ℕ → Text
status_class s =
    if in_class 200 300 s
    then codes "2xx"
    else if in_class 400 500 s
    then codes "4xx"
    else if in_class 500 600 s
    then codes "5xx"
    else codes "other"

unfoldable pub stream_label : Option Bool → Text
stream_label none = codes "unknown"
stream_label (some true) = codes "true"
stream_label (some false) = codes "false"

abbrev pub or_text : Text → Text → Text
or_text s def = if text_eq s [] then def else s

-- The labels route and service of a row; without a resolver the lookup finds nothing.
abbrev pub route_service : Option RouteInfo → Text × Text
route_service none = (codes "unknown", codes "unknown")
route_service (some ri) = (or_text ri.route (codes "unknown"), or_text ri.service (codes "unknown"))

abbrev pub is_stream : Option Bool → Bool
is_stream none = false
is_stream (some b) = b

abbrev pub when {ℓ} : {A : Type ℓ} → Bool → A → List A
when true u = u ∷ []
when false u = []

module _ {F : Type 0} (fl : Floats F) where
  -- if d.X > 0 { Add(float64(d.X)) }
  abbrev pub add_tokens : Family → List Text → ℕ → List (Update F)
  add_tokens family labels n = when (slt64 0 n) (add family labels (fl.of_int n))

  abbrev pub positive : F → Bool
  positive x = fl.below fl.f_zero x

  -- x >= y; none of the values is NaN, since they come from JSON.
  abbrev pub at_least : F → F → Bool
  at_least x y = not (fl.below x y)

  abbrev pub finish_updates : List Text → DetailRecord F → List (Update F)
  finish_updates labels d =
      if not (text_eq d.finish_reason [])
      then inc finish_c (labels ++ d.finish_reason ∷ []) ∷ []
      else when (nat_eq d.status 200) (inc finish_c (labels ++ codes "none" ∷ []))

  abbrev pub rate : DetailRecord F → F → F
  rate d seconds = fl.div (fl.of_int d.completion_tokens) seconds

  abbrev pub rate_updates : List Text → DetailRecord F → List (Update F)
  rate_updates labels d =
      let decode = fl.sub d.lct d.frt in
      if text_eq (status_class d.status) (codes "2xx") && slt64 0 d.completion_tokens
      then when (positive d.rt) (observed overall_tok_per_sec labels (rate d d.rt))
        ++ when (fl.below fl.three_tenths decode)
            (observed decode_tok_per_sec labels (rate d decode))
      else []

  -- parseTsSeconds, which tries every layout on a candidate before the next candidate.
  unfoldable pub try_layouts : (Text → Text → Option F) → List Text → Text → Option F
  try_layouts parse [] s = none
  try_layouts parse (l ∷ ls) s = elim (parse l s) [
    | some t ↦ some t
    | none ↦ try_layouts parse ls s
  ]

  unfoldable pub parse_ts_seconds : (Text → Text → Option F) → List Text → List Text → F
  parse_ts_seconds parse layouts [] = fl.f_zero
  parse_ts_seconds parse layouts (s ∷ candidates) =
      let rest = parse_ts_seconds parse layouts candidates in
      if text_eq s [] then rest else elim (try_layouts parse layouts s) [ some t ↦ t | none ↦ rest ]

  -- observe; `lookup` is the resolver's Lookup, and `seconds` parseTsSeconds(d.TsEnd, d.Ts).
  unfoldable pub observe : (Text → Option RouteInfo) → F → DetailRecord F → List (Update F)
  observe lookup seconds d =
      let (route, service) = route_service (lookup (backend_ip d.backend)) in
      let labels =
        service
        ∷ route
        ∷ or_text d.backend (codes "(none)")
        ∷ or_text d.model (codes "unknown")
        ∷ [] in
      let bucketed = labels ++ prompt_bucket d.prompt_tokens ∷ [] in
      inc requests (labels ++ status_class d.status ∷ stream_label d.stream ∷ [])
      ∷ (add_tokens prompt_tok labels d.prompt_tokens
          ++ (add_tokens completion_tok labels d.completion_tokens
              ++ (add_tokens cached_tok labels d.cached_tokens
                  ++ (add_tokens reasoning_tok labels d.reasoning_tokens
                      ++ (add_tokens total_tok labels d.total_tokens
                          ++ (add_tokens req_bytes_c labels d.req_bytes
                              ++ (add_tokens resp_bytes_c labels d.resp_bytes
                                  ++ (finish_updates labels d
                                      ++ (when (positive d.rt) (
                                            observed rt_h (labels ++ stream_label d.stream ∷ [])
                                              d.rt)
                                          ++ (when (positive d.frt && is_stream d.stream)
                                                (observed ttft_h bucketed d.frt)
                                              ++ (when
                                                    (not (slt64 d.completion_tokens 16)
                                                      && at_least d.rt fl.half)
                                                    (observed out_tok_per_sec bucketed
                                                      (rate d d.rt))
                                                  ++ (rate_updates labels d
                                                      ++ (inc lines_c []
                                                          ∷ when (positive seconds)
                                                            (set_last_ts seconds))))))))))))))
