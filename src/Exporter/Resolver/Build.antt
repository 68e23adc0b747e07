-- ===== src/Exporter/Resolver/Build.antt =====
-- build of bodylog-exporter-go/route_endpoints.go.
use llm_openresty.Base.{
  ℕ, Bool, true, false, ◌&&◌, ◌||◌, Option, none, some, List, [], ◌∷◌, ◌++◌, Text, codes, text_eq,
  text_Eq, if◌then◌else◌, length, trim_space, map,
}
use llm_openresty.Base.Dict.{Dict, put}
use llm_openresty.Exporter.Names.{
  route_name, normalize_service_label, split_ns_name, openresty_base, sort_texts,
}
use llm_openresty.Exporter.Owners.{Server, Cache, desired_for_pod}
use llm_openresty.Exporter.PdRoles.{
  Answer, ByRole, Releases, roles_of, rep_of, desired_ok, pd_role_router, pd_role_names, pd_key,
}
use llm_openresty.Exporter.Resolver.Routes.{
  ModelRoute, Endpoint, PodIps, has_key, pod_ips_for_service,
}

pub record RouteInfo : Type 0 where
  pub route : Text
  pub service : Text

-- svcRep; `desired` is `none` where desiredOK is false.
pub record SvcRep : Type 0 where
  pub service : Text
  pub route : Text
  pub role : Text
  pub n : ℕ
  pub ready : ℕ
  pub desired : Option ℕ

pub record PollTarget : Type 0 where
  pub base : Text
  pub route : Text
  pub service : Text

-- The settings that build reads.
pub record Config : Type 0 where
  pub nginx_service : Text
  pub per_service : Bool
  pub poll_port : Text

-- What the API server answers in one refresh.
pub record Cluster : Type 0 where
  pub endpoints : Text → Text → Answer (List Endpoint)
  pub owners : Server
  pub releases : Releases

-- resolveResult, with the variables seen, seenTarget and ownerCache of build.
pub record Building : Type 0 where
  pub by_ip : Dict Text RouteInfo
  pub reps : List SvcRep
  pub routes : List Text
  pub svc : Dict Text Text
  pub targets : List PollTarget
  pub seen : List Text
  pub seen_target : List Text
  pub owner_cache : Cache

abbrev pub start : Building
start = record {
  by_ip = [];
  reps = [];
  routes = [];
  svc = [];
  targets = [];
  seen = [];
  seen_target = [];
  owner_cache = [];
}

-- mt == "" || mt == "llm"
abbrev pub pollable : ModelRoute → Bool
pollable it =
    text_eq (trim_space it.model_type) [] || text_eq (trim_space it.model_type) (codes "llm")

abbrev pub target_key : Text → Text → Text
target_key base route = base ++ b'|' ∷ route

-- The poll list: if !seen[route] { .. }
abbrev pub note_route : Text → Building → Building
note_route route b =
    if has_key b.seen route
    then b
    else record b { seen = route ∷ b.seen; routes = b.routes ++ route ∷ [] }

-- The targets: if !seenTarget[key] { .. }
abbrev pub note_target : Text → Text → Text → Building → Building
note_target base route label b =
    if has_key b.seen_target (target_key base route) then b else record b {
      seen_target = target_key base route ∷ b.seen_target;
      targets = b.targets ++ record { base = base; route = route; service = label } ∷ [];
    }

unfoldable pub add_target : Text → Text → Text → Building → Building
add_target base route label b = note_target base route label (note_route route b)

unfoldable pub map_ips : List Text → RouteInfo → Dict Text RouteInfo → Dict Text RouteInfo
map_ips [] ri m = m
map_ips (ip ∷ ips) ri m = map_ips ips ri (put m ip ri)

-- The series of the roles of a disaggregated release.
abbrev pub role_rep : Text → Text → ByRole → Text → SvcRep
role_rep label route by_role role =
    let pr = rep_of by_role role in
    record {
      service = label;
      route = route;
      role = role;
      n = pr.n;
      ready = pr.ready;
      desired = if desired_ok pr then some pr.desired else none;
    }

abbrev pub is_empty {ℓ} : {A : Type ℓ} → List A → Bool
is_empty [] = true
is_empty (x ∷ l) = false

-- The body of build behind a successful podIPsForService.
unfoldable pub add_service : Cluster → Text → Text → Text → Text → PodIps → Building → Building
unfolding map_ips
add_service cl route label ns name pods b =
    let found =
      if text_eq pods.sample_pod []
      then (none, b.owner_cache)
      else desired_for_pod cl.owners ns pods.sample_pod b.owner_cache in
    let by_role = roles_of cl.releases (pd_key ns name) in
    record b {
      by_ip = map_ips pods.ips (record { route = route; service = label }) b.by_ip;
      owner_cache = found.1;
      reps =
          b.reps
          ++ (map (role_rep label route by_role) (pd_role_names by_role)
              ++ record {
                service = label;
                route = route;
                role = if is_empty by_role then [] else pd_role_router;
                n = length pods.ips;
                ready = pods.ready;
                desired = found.0;
              }
                ∷ []);
    }

abbrev pub with_pods : Cluster → Text → Text → Text → Text → Option PodIps → Building → Building
with_pods cl route label ns name none b = b
with_pods cl route label ns name (some pods) b = add_service cl route label ns name pods b

-- The part of the loop's body that needs a backend service.
unfoldable pub with_service : Cluster → Text → Text → Building → Building
unfolding add_service
with_service cl route svc b =
    let (ns, name) = split_ns_name svc in
    if text_eq svc [] || text_eq name []
    then b
    else with_pods cl route (normalize_service_label svc) ns name
        (pod_ips_for_service (cl.endpoints ns name)) b

-- Whether the poller asks for the item's route.
abbrev pub polled : Config → ModelRoute → Bool
polled cfg it =
    pollable it
    && (text_eq cfg.nginx_service [] || text_eq (trim_space it.service) cfg.nginx_service)

abbrev pub base_of : Config → ModelRoute → Text
base_of cfg it = openresty_base cfg.per_service cfg.poll_port it.service it.namespace

abbrev pub note_service : Text → Text → Building → Building
note_service route svc b = record b { svc = put b.svc route (normalize_service_label svc) }

abbrev pub route_of : ModelRoute → Text
route_of it = route_name it.name it.route it.output_config_map it.peers

-- if .. { the poll list and the targets }
abbrev pub poll_item : Config → ModelRoute → Text → Text → Building → Building
poll_item cfg it route svc b =
    if polled cfg it then add_target (base_of cfg it) route (normalize_service_label svc) b else b

-- One round of the loop of build.
unfoldable pub build_item : Config → Cluster → ModelRoute → Building → Building
unfolding add_target with_service
build_item cfg cl it b =
    let route = route_of it in
    let svc = trim_space it.discovery in
    if text_eq route []
    then b
    else with_service cl route svc (poll_item cfg it route svc (note_service route svc b))

unfoldable pub build_items : Config → Cluster → List ModelRoute → Building → Building
build_items cfg cl [] b = b
build_items cfg cl (it ∷ l) b = build_items cfg cl l (build_item cfg cl it b)

-- build, behind listModelRoutes and pdRoles.
unfoldable pub build : Config → Cluster → List ModelRoute → Building
unfolding build_items
build cfg cl items =
    let b = build_items cfg cl items start in record b { routes = sort_texts b.routes }
