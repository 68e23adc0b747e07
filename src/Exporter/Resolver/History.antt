-- ===== src/Exporter/Resolver/History.antt =====
-- What a run of refreshes of bodylog-exporter-go/route_endpoints.go leaves published.
use llm_openresty.Base.{
  ℕ, suc, ◌≡◌, refl, ap, ◌∙◌, Bool, true, false, Option, none, some, List, [], ◌∷◌, Text, arith,
}
use llm_openresty.Base.Dict.{Dict}
use llm_openresty.Exporter.Resolver.Build.{Building, RouteInfo, SvcRep, PollTarget}
use llm_openresty.Exporter.Resolver.Refresh.{Resolver, refresh, fill}

-- One refresh after another; `none` is a refresh whose build fails.
unfoldable pub refreshes : List (Option Building) → Resolver → Resolver
refreshes [] r = r
refreshes (o ∷ l) r = refreshes l (refresh o r)

-- The mapping that is read by the others, with the errors and the gauge up.
abbrev Published : Type 0
Published = (Dict Text RouteInfo × List PollTarget) × (ℕ × Bool)

abbrev pub published : Resolver → Published
published r = ((r.by_ip, r.targets), (r.errs, r.up))

-- What a run of outcomes should leave: the last mapping built, every failure counted, and up set by
-- the last outcome.
unfoldable pub expected : List (Option Building) → Published → Published
expected [] p = p
expected (none ∷ l) (m, (errs, up)) = expected l (m, (suc errs, false))
expected (some b ∷ l) (m, (errs, up)) = expected l ((b.by_ip, b.targets), (errs, true))

refresh_bad :
    (r : Resolver) → published (refresh none r) ≡ ((r.by_ip, r.targets), (suc r.errs, false))
unfolding refresh
refresh_bad r = ap (λ n. ((r.by_ip, r.targets), (n, false))) (omega arith)

fill-published : (l : List SvcRep) (r : Resolver) → published (fill l r) ≡ published r
unfolding fill
fill-published [] r = refl
fill-published (rp ∷ l) r = fill-published l (record r {
  replicas =
      record { service = rp.service; route = rp.route; role = rp.role; value = rp.n } ∷ r.replicas;
  replicas_ready =
      record { service = rp.service; route = rp.route; role = rp.role; value = rp.ready }
      ∷ r.replicas_ready;
  replicas_desired = elim rp.desired [
    | none ↦ r.replicas_desired
    | some d ↦
        record { service = rp.service; route = rp.route; role = rp.role; value = d }
        ∷ r.replicas_desired
  ];
})

abbrev loaded : Building → Resolver → Resolver
loaded b r = record r {
  by_ip = b.by_ip;
  routes = b.routes;
  svc = b.svc;
  targets = b.targets;
  replicas = [];
  replicas_ready = [];
  replicas_desired = [];
}

refresh_good :
    (b : Building) (r : Resolver)
    → published (refresh (some b) r) ≡ ((b.by_ip, b.targets), (r.errs, true))
unfolding refresh
refresh_good b r = ap (λ (p : Published). (p.0, (p.1.0, true))) (fill-published b.reps (loaded b r))

-- After any run of refreshes the mapping and the targets are those of the last build that
-- succeeded, or the ones from before the run if none did; every failed refresh is counted, and the
-- gauge up tells whether the last refresh succeeded.
pub refreshes-published :
    (l : List (Option Building)) (r : Resolver)
    → published (refreshes l r) ≡ expected l (published r)
unfolding refreshes expected
refreshes-published [] r = refl
refreshes-published (none ∷ l) r =
    refreshes-published l (refresh none r) ∙ ap (expected l) (refresh_bad r)
refreshes-published (some b ∷ l) r =
    refreshes-published l (refresh (some b) r) ∙ ap (expected l) (refresh_good b r)
