-- ===== src/Exporter/Poller/Up.antt =====
-- Which targets a poll of bodylog-exporter-go/openresty_poll.go marks as failed.
use llm_openresty.Base.{
  ℕ, ◌≡◌, refl, ap, ◌∙◌, Bool, true, false, ◌&&◌, ◌||◌, not, Option, none, some, List, [], ◌∷◌,
  ◌++◌, Text, text_Eq, codes, if◌then◌else◌, any, arith,
}
use llm_openresty.Base.Dict.{Dict, get_or, put, get_or-put, get_or-nil}
use llm_openresty.Exporter.Resolver.{PollTarget}
use llm_openresty.Exporter.Poller.{
  Poller, Peer, ModelMap, Answers, RouteState, TpsStatus, TtftStatus, pair_eq, pair_Eq, tkey, set,
  set_model_map, set_peers, set_priorities, fail, on_route_state, on_tps_status, on_ttft_status,
  on_reject_status, add_zeros, count_reason, count_reasons, add, reject_reasons, poll_target,
  poll_targets, all_ok,
}

abbrev pub is_none {ℓ} : {A : Type ℓ} → Option A → Bool
is_none none = true
is_none (some a) = false

-- One of the four requests of a target has failed.
abbrev pub bad : {V : Type 0} → Answers V → Bool
bad a =
    is_none a.route_state
    || is_none a.tps_status
    || is_none a.ttft_status
    || is_none a.reject_status

module _ {V : Type 0} (b2f : Bool → V) where
  set_model_map-ok :
      (g : Text) (ls : List Text) (mm : ModelMap V) (p : Poller V)
      → (set_model_map b2f g ls mm p).target_ok ≡ p.target_ok
  unfolding set_model_map
  set_model_map-ok g ls [] p = refl
  set_model_map-ok g ls ((model, none) ∷ mm) p = set_model_map-ok g ls mm p
  set_model_map-ok g ls ((model, some v) ∷ mm) p =
      set_model_map-ok g ls mm (set b2f g (ls ++ model ∷ []) v p)

  set_peers-ok :
      (ls : List Text) (prio : Text) (l : List (Peer V)) (p : Poller V)
      → (set_peers b2f ls prio l p).target_ok ≡ p.target_ok
  unfolding set_peers
  set_peers-ok ls prio [] p = refl
  set_peers-ok ls prio (pr ∷ l) p =
      let lbl = ls ++ pr.peer ∷ pr.name ∷ prio ∷ [] in
      set_peers-ok ls prio l (
        set b2f (codes "openresty_peer_max_concurrency") lbl pr.max (
          set b2f (codes "openresty_peer_banned") lbl (b2f pr.banned)
            (set b2f (codes "openresty_peer_active_conns") lbl pr.active p)))

  set_priorities-ok :
      (ls : List Text) (l : List (Text × List (Peer V))) (p : Poller V)
      → (set_priorities b2f ls l p).target_ok ≡ p.target_ok
  unfolding set_priorities
  set_priorities-ok ls [] p = refl
  set_priorities-ok ls ((prio, peers) ∷ l) p =
      set_priorities-ok ls l (set_peers b2f ls prio peers p) ∙ set_peers-ok ls prio peers p

  add_zeros-ok :
      (s r : Text) (l : List Text) (p : Poller V) → (add_zeros b2f s r l p).target_ok ≡ p.target_ok
  unfolding add_zeros
  add_zeros-ok s r [] p = refl
  add_zeros-ok s r (q ∷ l) p = add_zeros-ok s r l (add b2f s r q 0 p)

  count_reasons-ok :
      (b s r : Text) (l : List (Text × ℕ)) (p : Poller V)
      → (count_reasons b2f b s r l p).target_ok ≡ p.target_ok
  unfolding count_reasons
  count_reasons-ok b s r [] p = refl
  count_reasons-ok b s r ((q, v) ∷ l) p = count_reasons-ok b s r l (count_reason b2f b s r q v p)

  module _ (k : Text × Text) (j : Text × Text) where
    abbrev pub ok_of : Poller V → Bool
    ok_of p = get_or p.target_ok j false

    -- What is left of the mark of `j` behind an answer.
    abbrev after : Bool → Poller V → Bool
    after failed p = ok_of p && not (pair_eq k j && failed)

    keeps : (b c : Bool) → b ≡ (b && not (c && false))
    keeps true true = refl
    keeps true false = refl
    keeps false c = refl

    clears : (b c : Bool) → (if c then false else b) ≡ (b && not (c && true))
    clears true true = refl
    clears true false = refl
    clears false true = refl
    clears false false = refl

    fail-ok : (p : Poller V) → ok_of (fail b2f k p) ≡ after true p
    fail-ok p = get_or-put p.target_ok k j false false ∙ clears (ok_of p) (pair_eq k j)

    kept : (u p : Poller V) → u.target_ok ≡ p.target_ok → ok_of u ≡ after false p
    kept u p e = ap (λ m. get_or m j false) e ∙ keeps (ok_of p) (pair_eq k j)

    route_state-ok :
        (ls : List Text) (o : Option (RouteState V)) (p : Poller V)
        → ok_of (on_route_state b2f k ls o p) ≡ after (is_none o) p
    route_state-ok ls none p = fail-ok p
    route_state-ok ls (some rs) p =
        let p1 = set b2f (codes "openresty_route_healthy_peers") ls rs.healthy_peers_in_level (
          set b2f (codes "openresty_route_active_limit") ls rs.limit
            (set b2f (codes "openresty_route_active_level") ls rs.active_level p)) in
        kept (set_priorities b2f ls rs.by_priority p1) p (set_priorities-ok ls rs.by_priority p1)

    tps_status-ok :
        (ls : List Text) (o : Option (TpsStatus V)) (p : Poller V)
        → ok_of (on_tps_status b2f k ls o p) ≡ after (is_none o) p
    tps_status-ok ls none p = fail-ok p
    tps_status-ok ls (some ts) p =
        let p0 = set b2f (codes "openresty_tps_limiter_active") ls (b2f ts.tps_active) p in
        let p1 = set_model_map b2f (codes "openresty_tps_ewma") ls ts.ewma_tps p0 in
        let p2 = set_model_map b2f (codes "openresty_adaptive_cc") ls ts.adaptive_cc p1 in
        let p3 = set_model_map b2f (codes "openresty_adaptive_cc_min") ls ts.adaptive_cc_min p2 in
        let p4 = set_model_map b2f (codes "openresty_adaptive_cc_max") ls ts.adaptive_cc_max p3 in
        let p5 = set_model_map b2f (codes "openresty_adaptive_cc_init") ls ts.adaptive_cc_init p4 in
        let p6 = set_model_map b2f (codes "openresty_adaptive_cc_conc") ls ts.adaptive_cc_conc p5 in
        kept (set_model_map b2f (codes "openresty_adaptive_cc_rej") ls ts.adaptive_cc_rej p6) p (
          set_model_map-ok (codes "openresty_adaptive_cc_rej") ls ts.adaptive_cc_rej p6
          ∙ set_model_map-ok (codes "openresty_adaptive_cc_conc") ls ts.adaptive_cc_conc p5
          ∙ set_model_map-ok (codes "openresty_adaptive_cc_init") ls ts.adaptive_cc_init p4
          ∙ set_model_map-ok (codes "openresty_adaptive_cc_max") ls ts.adaptive_cc_max p3
          ∙ set_model_map-ok (codes "openresty_adaptive_cc_min") ls ts.adaptive_cc_min p2
          ∙ set_model_map-ok (codes "openresty_adaptive_cc") ls ts.adaptive_cc p1
          ∙ set_model_map-ok (codes "openresty_tps_ewma") ls ts.ewma_tps p0)

    ttft_status-ok :
        (ls : List Text) (o : Option (TtftStatus V)) (p : Poller V)
        → ok_of (on_ttft_status b2f k ls o p) ≡ after (is_none o) p
    ttft_status-ok ls none p = fail-ok p
    ttft_status-ok ls (some ts) p =
        let p1 = set b2f (codes "openresty_ttft_limiter_active") ls (b2f ts.ttft_active) p in
        kept (set_model_map b2f (codes "openresty_ttft_ewma_ms") ls ts.ewma_ms p1) p
          (set_model_map-ok (codes "openresty_ttft_ewma_ms") ls ts.ewma_ms p1)

    reject_status-ok :
        (s : Text) (o : Option (Dict Text (List (Text × ℕ)))) (p : Poller V)
        → ok_of (on_reject_status b2f k s o p) ≡ after (is_none o) p
    reject_status-ok s none p = fail-ok p
    reject_status-ok s (some rj) p =
        let z = add_zeros b2f s k.1 reject_reasons p in
        kept (count_reasons b2f k.0 s k.1 (get_or rj k.1 []) z) p
          (count_reasons-ok k.0 s k.1 (get_or rj k.1 []) z ∙ add_zeros-ok s k.1 reject_reasons p)

  four :
      (m e a b c d : Bool)
      → ((((m && not (e && a)) && not (e && b)) && not (e && c)) && not (e && d))
        ≡ (m && not (e && (a || b || c || d)))
  four m e a b c d = ground arith

  poll_target-ok :
      (base_url : Text) (ask : Text → Text → Answers V) (j : Text × Text) (t : PollTarget)
      (p : Poller V)
      → get_or (poll_target b2f base_url ask t p).target_ok j false ≡ (
          get_or p.target_ok j false
          && not (pair_eq (tkey base_url t) j && bad (ask (tkey base_url t).0 t.route)))
  unfolding poll_target
  poll_target-ok base_url ask j t p =
      let k = tkey base_url t in
      let a = ask k.0 t.route in
      let ls = t.service ∷ t.route ∷ [] in
      let p1 = on_route_state b2f k ls a.route_state p in
      let p2 = on_tps_status b2f k ls a.tps_status p1 in
      let p3 = on_ttft_status b2f k ls a.ttft_status p2 in
      let e = pair_eq k j in
      reject_status-ok k j t.service a.reject_status p3
      ∙ ap (λ m. m && not (e && is_none a.reject_status)) (ttft_status-ok k j ls a.ttft_status p2)
      ∙ ap (λ m. (m && not (e && is_none a.ttft_status)) && not (e && is_none a.reject_status))
          (tps_status-ok k j ls a.tps_status p1)
      ∙ ap
          (λ m.
            ((m && not (e && is_none a.tps_status)) && not (e && is_none a.ttft_status))
            && not (e && is_none a.reject_status))
          (route_state-ok k j ls a.route_state p)
      ∙ four (get_or p.target_ok j false) e (is_none a.route_state) (is_none a.tps_status)
          (is_none a.ttft_status) (is_none a.reject_status)

  and_or :
      (m x y : Bool) → ((m && not x) && not y) ≡ (m && not (elim x [ true ↦ true | false ↦ y ]))
  and_or m x y = ground arith

  poll_targets-marks :
      (base_url : Text) (ask : Text → Text → Answers V) (j : Text × Text) (ts : List PollTarget)
      (p : Poller V)
      → get_or (poll_targets b2f base_url ask ts p).target_ok j false ≡ (
          get_or p.target_ok j false
          && not
              (any (λ t. pair_eq (tkey base_url t) j && bad (ask (tkey base_url t).0 t.route)) ts))
  unfolding poll_targets
  poll_targets-marks base_url ask j [] p = ground arith
  poll_targets-marks base_url ask j (t ∷ ts) p =
      let x = pair_eq (tkey base_url t) j && bad (ask (tkey base_url t).0 t.route) in
      poll_targets-marks base_url ask j ts (poll_target b2f base_url ask t p)
      ∙ ap
          (λ m.
            m
            && not (
                any (λ t. pair_eq (tkey base_url t) j && bad (ask (tkey base_url t).0 t.route)) ts))
          (poll_target-ok base_url ask j t p)
      ∙ and_or (get_or p.target_ok j false) x
          (any (λ t. pair_eq (tkey base_url t) j && bad (ask (tkey base_url t).0 t.route)) ts)

all_ok-marks :
    (base_url : Text) (j : Text × Text) (ts : List PollTarget) (m : Dict (Text × Text) Bool)
    → get_or (all_ok base_url ts m) j false
      ≡ (any (λ t. pair_eq (tkey base_url t) j) ts || get_or m j false)
unfolding all_ok
all_ok-marks base_url j [] m = refl
all_ok-marks base_url j (t ∷ ts) m =
    all_ok-marks base_url j ts (put m (tkey base_url t) true)
    ∙ ap (λ b. any (λ t. pair_eq (tkey base_url t) j) ts || b)
        (get_or-put m (tkey base_url t) j true false)
    ∙ swap (any (λ t. pair_eq (tkey base_url t) j) ts) (pair_eq (tkey base_url t) j)
        (get_or m j false)
  where
    swap :
        (a x b : Bool)
        → (a || (if x then true else b)) ≡ ((elim x [ true ↦ true | false ↦ a ]) || b)
    swap a x b = ground arith

-- Behind the requests of a poll, the mark of a base and a route is set exactly if some target has
-- them and for no such target one of the four requests has failed. A failure marks no other base
-- and route.
pub poll_targets-ok :
    {V : Type 0} (b2f : Bool → V) (base_url : Text) (ask : Text → Text → Answers V)
    (j : Text × Text) (ts : List PollTarget) (p : Poller V)
    → get_or
        (poll_targets b2f base_url ask ts
          (record p { target_ok = all_ok base_url ts [] })).target_ok
        j
        false
      ≡ (any (λ t. pair_eq (tkey base_url t) j) ts
          && not
              (any (λ t. pair_eq (tkey base_url t) j && bad (ask (tkey base_url t).0 t.route)) ts))
poll_targets-ok b2f base_url ask j ts p =
    poll_targets-marks b2f base_url ask j ts (record p { target_ok = all_ok base_url ts [] })
    ∙ ap
        (λ b.
          b
          && not
              (any (λ t. pair_eq (tkey base_url t) j && bad (ask (tkey base_url t).0 t.route)) ts))
        (all_ok-marks base_url j ts []
          ∙ ap (λ b. any (λ t. pair_eq (tkey base_url t) j) ts || b) (get_or-nil j false)
          ∙ or_false (any (λ t. pair_eq (tkey base_url t) j) ts))
  where
    or_false : (b : Bool) → (b || false) ≡ b
    or_false true = refl
    or_false false = refl
