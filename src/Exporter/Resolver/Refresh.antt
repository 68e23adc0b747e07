-- ===== src/Exporter/Resolver/Refresh.antt =====
-- refresh and the lookups of bodylog-exporter-go/route_endpoints.go.
use llm_openresty.Base.{
  ℕ, ◌+◌, Bool, true, false, Option, none, some, List, [], ◌∷◌, Text, text_eq, text_Eq,
  if◌then◌else◌, length,
}
use llm_openresty.Base.Dict.{Dict, get, get_or}
use llm_openresty.Exporter.Resolver.Build.{RouteInfo, SvcRep, PollTarget, Building}

-- The labels {service, route, role} of a replica series, with its value.
pub record Series : Type 0 where
  pub service : Text
  pub route : Text
  pub role : Text
  pub value : ℕ

-- podRouteResolver: the published mapping, and its gauges.
pub record Resolver : Type 0 where
  pub by_ip : Dict Text RouteInfo
  pub routes : List Text
  pub svc : Dict Text Text
  pub targets : List PollTarget
  pub up : Bool
  pub errs : ℕ
  pub pods : ℕ
  pub routes_g : ℕ
  pub replicas : List Series
  pub replicas_ready : List Series
  pub replicas_desired : List Series

abbrev pub series : SvcRep → ℕ → Series
series rp v = record { service = rp.service; route = rp.route; role = rp.role; value = v }

-- The gauges are reset and filled in the order of the list.
unfoldable pub fill : List SvcRep → Resolver → Resolver
fill [] r = r
fill (rp ∷ l) r = fill l (record r {
  replicas = series rp rp.n ∷ r.replicas;
  replicas_ready = series rp rp.ready ∷ r.replicas_ready;
  replicas_desired = elim rp.desired [
    | none ↦ r.replicas_desired
    | some d ↦ series rp d ∷ r.replicas_desired
  ];
})

-- refresh: `none` is an error of build.
unfoldable pub refresh : Option Building → Resolver → Resolver
unfolding fill
refresh none r = record r { errs = r.errs + 1; up = false }
refresh (some res) r =
    let r1 = record r {
      by_ip = res.by_ip;
      routes = res.routes;
      svc = res.svc;
      targets = res.targets;
      replicas = [];
      replicas_ready = [];
      replicas_desired = [];
    } in
    record (fill res.reps r1) { up = true; pods = length res.by_ip; routes_g = length res.routes }

-- Lookup: the route and the service of a backend's address.
unfoldable pub lookup_ip : Resolver → Text → Option RouteInfo
lookup_ip r ip = if text_eq ip [] then none else get r.by_ip ip

-- serviceFor
unfoldable pub service_for : Resolver → Text → Text
service_for r route = get_or r.svc route []
