-- ===== src/Exporter/Poller.antt =====
-- pollOnce of bodylog-exporter-go/openresty_poll.go. The decoded answers of openresty are a
-- parameter, `none` where getJSON returns an error; JSON objects are lists of their members.
pub mod Rejected
pub mod Up
mod Examples
use llm_openresty.Base.{
  ℕ, zero, suc, ◌+◌, ◌-◌, ◌≡◌, ◌↔◌, refl, Bool, true, false, ◌&&◌, not, Option, none, some, List,
  [], ◌∷◌, ◌++◌, map, Text, codes, text_eq, text_eq_iff, text_Eq, if◌then◌else◌, leb, Comparable,
  arith, ap, ap₂,
}
use llm_openresty.Base.Dict.{Dict, get, get_or, put}
use llm_openresty.Exporter.Resolver.{PollTarget}

pub record Peer (V : Type 0) : Type 0 where
  pub name : Text
  pub peer : Text
  pub banned : Bool
  pub active : V
  pub max : V

pub record RouteState (V : Type 0) : Type 0 where
  pub active_level : V
  pub limit : V
  pub healthy_peers_in_level : V
  pub by_priority : List (Text × List (Peer V))

-- A map from models to numbers or null.
abbrev pub ModelMap : Type 0 → Type 0
ModelMap V = List (Text × Option V)

pub record TpsStatus (V : Type 0) : Type 0 where
  pub tps_active : Bool
  pub ewma_tps : ModelMap V
  pub adaptive_cc : ModelMap V
  pub adaptive_cc_min : ModelMap V
  pub adaptive_cc_max : ModelMap V
  pub adaptive_cc_init : ModelMap V
  pub adaptive_cc_conc : ModelMap V
  pub adaptive_cc_rej : ModelMap V

pub record TtftStatus (V : Type 0) : Type 0 where
  pub ttft_active : Bool
  pub ewma_ms : ModelMap V

-- What the four requests of a target give; the rejected requests are whole numbers.
pub record Answers (V : Type 0) : Type 0 where
  pub route_state : Option (RouteState V)
  pub tps_status : Option (TpsStatus V)
  pub ttft_status : Option (TtftStatus V)
  pub reject_status : Option (Dict Text (List (Text × ℕ)))

-- A gauge that is set: its name, its labels and the value.
pub record Set (V : Type 0) : Type 0 where
  pub gauge : Text
  pub labels : List Text
  pub value : V

-- An Add on the counter openresty_rejected_total.
pub record Added : Type 0 where
  pub service : Text
  pub route : Text
  pub reason : Text
  pub by : ℕ

abbrev pub pair_eq : Text × Text → Text × Text → Bool
pair_eq (a, b) (c, d) = text_eq a c && text_eq b d

pub pair_eq_iff : (p q : Text × Text) → (pair_eq p q ≡ true) ↔ (p ≡ q)
pair_eq_iff (a, b) (c, d) = (
  λ h. ap₂ (λ x y. (x, y)) (ground (arith, text_eq_iff a c)) (ground (arith, text_eq_iff b d)),
  λ e. ground (
    arith,
    text_eq_iff a c,
    text_eq_iff b d,
    ap (λ (x : Text × Text). x.0) e,
    ap (λ (x : Text × Text). x.1) e,
  ),
)

-- tkey
instance abbrev pub pair_Eq : Comparable (Text × Text)
pair_Eq = record { same = pair_eq; same_iff = pair_eq_iff }

-- orPoller and its metrics: `sets` are the gauges since the last Reset, `target_ok` is pollOnce's
-- variable, and pollUp and pollLastOK are kept by (service, route).
pub record Poller (V : Type 0) : Type 0 where
  pub sets : List (Set V)
  pub prev : Dict Text ℕ
  pub added : List Added
  pub poll_errors : ℕ
  pub target_ok : Dict (Text × Text) Bool
  pub poll_up : Dict (Text × Text) Bool
  pub poll_last_ok : Dict (Text × Text) ℕ

abbrev pub base_of : Text → PollTarget → Text
base_of base_url t = if not (text_eq t.base []) then t.base else base_url

abbrev pub tkey : Text → PollTarget → Text × Text
tkey base_url t = (base_of base_url t, t.route)

-- targets[i].service = "unknown"
abbrev pub named : PollTarget → PollTarget
named t = if text_eq t.service [] then record t { service = codes "unknown" } else t

abbrev pub reject_reasons : List Text
reject_reasons = codes "concurrency" ∷ codes "ttft" ∷ codes "tps" ∷ []

abbrev pub reject_key : Text → Text → Text → Text
reject_key base route reason = base ++ b'|' ∷ (route ++ b'|' ∷ reason)

-- targetOK[..] = true for every target
unfoldable pub all_ok : Text → List PollTarget → Dict (Text × Text) Bool → Dict (Text × Text) Bool
all_ok base_url [] m = m
all_ok base_url (t ∷ l) m = all_ok base_url l (put m (tkey base_url t) true)

-- The increase of a counter whose last value was `last`.
abbrev pub increase : ℕ → ℕ → ℕ
increase last cur = if leb last cur then cur - last else cur

module _ {V : Type 0} (b2f : Bool → V) where
  abbrev pub set : Text → List Text → V → Poller V → Poller V
  set gauge labels v p = record p {
    sets = p.sets ++ record { gauge = gauge; labels = labels; value = v } ∷ [];
  }

  -- setModelMap
  unfoldable pub set_model_map : Text → List Text → ModelMap V → Poller V → Poller V
  set_model_map gauge labels [] p = p
  set_model_map gauge labels ((model, none) ∷ mm) p = set_model_map gauge labels mm p
  set_model_map gauge labels ((model, some v) ∷ mm) p =
      set_model_map gauge labels mm (set gauge (labels ++ model ∷ []) v p)

  unfoldable pub set_peers : List Text → Text → List (Peer V) → Poller V → Poller V
  set_peers labels prio [] p = p
  set_peers labels prio (pr ∷ l) p =
      let ls = labels ++ pr.peer ∷ pr.name ∷ prio ∷ [] in
      set_peers labels prio l (
        set (codes "openresty_peer_max_concurrency") ls pr.max (
          set (codes "openresty_peer_banned") ls (b2f pr.banned)
            (set (codes "openresty_peer_active_conns") ls pr.active p)))

  unfoldable pub set_priorities : List Text → List (Text × List (Peer V)) → Poller V → Poller V
  set_priorities labels [] p = p
  set_priorities labels ((prio, peers) ∷ l) p =
      set_priorities labels l (set_peers labels prio peers p)

  -- fail: pollErr and targetOK[..] = false
  abbrev pub fail : Text × Text → Poller V → Poller V
  fail k p = record p { poll_errors = p.poll_errors + 1; target_ok = put p.target_ok k false }

  abbrev pub on_route_state : Text × Text → List Text → Option (RouteState V) → Poller V → Poller V
  on_route_state k labels none p = fail k p
  on_route_state k labels (some rs) p = set_priorities labels rs.by_priority (
      set (codes "openresty_route_healthy_peers") labels rs.healthy_peers_in_level (
        set (codes "openresty_route_active_limit") labels rs.limit
          (set (codes "openresty_route_active_level") labels rs.active_level p)))

  abbrev pub on_tps_status : Text × Text → List Text → Option (TpsStatus V) → Poller V → Poller V
  on_tps_status k labels none p = fail k p
  on_tps_status k labels (some ts) p =
      set_model_map (codes "openresty_adaptive_cc_rej") labels ts.adaptive_cc_rej (
        set_model_map (codes "openresty_adaptive_cc_conc") labels ts.adaptive_cc_conc (
          set_model_map (codes "openresty_adaptive_cc_init") labels ts.adaptive_cc_init (
            set_model_map (codes "openresty_adaptive_cc_max") labels ts.adaptive_cc_max (
              set_model_map (codes "openresty_adaptive_cc_min") labels ts.adaptive_cc_min (
                set_model_map (codes "openresty_adaptive_cc") labels ts.adaptive_cc (
                  set_model_map (codes "openresty_tps_ewma") labels ts.ewma_tps
                    (set (codes "openresty_tps_limiter_active") labels (b2f ts.tps_active) p)))))))

  abbrev pub on_ttft_status : Text × Text → List Text → Option (TtftStatus V) → Poller V → Poller V
  on_ttft_status k labels none p = fail k p
  on_ttft_status k labels (some tt_) p =
      set_model_map (codes "openresty_ttft_ewma_ms") labels tt_.ewma_ms
        (set (codes "openresty_ttft_limiter_active") labels (b2f tt_.ttft_active) p)

  abbrev pub add : Text → Text → Text → ℕ → Poller V → Poller V
  add service route reason n p = record p {
    added = p.added ++ record { service = service; route = route; reason = reason; by = n } ∷ [];
  }

  unfoldable pub add_zeros : Text → Text → List Text → Poller V → Poller V
  add_zeros service route [] p = p
  add_zeros service route (r ∷ l) p = add_zeros service route l (add service route r 0 p)

  -- The body of the loop over the reasons of a route.
  abbrev pub count_reason : Text → Text → Text → Text → ℕ → Poller V → Poller V
  count_reason base service route reason cur p =
      let k = reject_key base route reason in
      let p1 = add service route reason (increase (get_or p.prev k 0) cur) p in
      record p1 { prev = put p1.prev k cur }

  unfoldable pub count_reasons : Text → Text → Text → List (Text × ℕ) → Poller V → Poller V
  count_reasons base service route [] p = p
  count_reasons base service route ((reason, cur) ∷ l) p =
      count_reasons base service route l (count_reason base service route reason cur p)

  abbrev pub on_reject_status :
      Text × Text → Text → Option (Dict Text (List (Text × ℕ))) → Poller V → Poller V
  on_reject_status k service none p = fail k p
  on_reject_status (base, route) service (some rj) p =
      count_reasons base service route (get_or rj route [])
        (add_zeros service route reject_reasons p)

  -- The body of the loop over the targets.
  unfoldable pub poll_target : Text → (Text → Text → Answers V) → PollTarget → Poller V → Poller V
  unfolding set_model_map set_peers set_priorities add_zeros count_reasons
  poll_target base_url ask t p =
      let k = tkey base_url t in
      let labels = t.service ∷ t.route ∷ [] in
      let a = ask k.0 t.route in
      on_reject_status k t.service a.reject_status (
        on_ttft_status k labels a.ttft_status
          (on_tps_status k labels a.tps_status (on_route_state k labels a.route_state p)))

  unfoldable pub poll_targets :
      Text → (Text → Text → Answers V) → List PollTarget → Poller V → Poller V
  poll_targets base_url ask [] p = p
  poll_targets base_url ask (t ∷ l) p = poll_targets base_url ask l (poll_target base_url ask t p)

  -- The loop that publishes pollUp and pollLastOK.
  abbrev pub mark_up : Text → ℕ → PollTarget → Poller V → Poller V
  mark_up base_url now t p =
      if get_or p.target_ok (tkey base_url t) false
      then record p {
        poll_up = put p.poll_up (t.service, t.route) true;
        poll_last_ok = put p.poll_last_ok (t.service, t.route) now;
      }
      else record p { poll_up = put p.poll_up (t.service, t.route) false }

  unfoldable pub mark_all : Text → ℕ → List PollTarget → Poller V → Poller V
  mark_all base_url now [] p = p
  mark_all base_url now (t ∷ l) p = mark_all base_url now l (mark_up base_url now t p)

  -- pollOnce
  unfoldable pub poll_once :
      Text → (Text → Text → Answers V) → List PollTarget → ℕ → Poller V → Poller V
  unfolding poll_target poll_targets all_ok mark_all
  poll_once base_url ask targets now p =
      let ts = map named targets in
      let p1 = record p { sets = []; poll_up = []; target_ok = all_ok base_url ts [] } in
      mark_all base_url now ts (poll_targets base_url ask ts p1)
