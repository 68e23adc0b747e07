-- ===== src/Exporter/Resolver/Examples.antt =====
-- A listing of two groups, a build of one route, and two refreshes.
use llm_openresty.Exporter.PdRoles.{LwsItem, PdState, body, pd_name_label, pd_role_label}
use llm_openresty.Base.{
  ◌≡◌, true, false, ◌||◌, not, none, some, List, [], ◌∷◌, Text, codes, All, any, map, text_eq,
  if◌then◌else◌,
}
use llm_openresty.Exporter.PdRoles.{Answer, body, status}
use llm_openresty.Exporter.Resolver.Routes.{ModelRoute, has_key, list_model_routes}
use llm_openresty.Exporter.Resolver.Build.{Config, Cluster, build}
use llm_openresty.Exporter.Resolver.Refresh.{Resolver}
use llm_openresty.Exporter.Resolver.Merge.{
  first_of_key, all_items, hard, serves, list_model_routes_lem,
}
use llm_openresty.Exporter.Resolver.Targets.{Distinct, key_of, build-targets}
use llm_openresty.Exporter.Resolver.History.{refreshes, published, expected, refreshes-published}

abbrev qwen : ModelRoute
qwen = record {
  name = codes "qwen";
  namespace = codes "llm";
  model_type = [];
  route = codes "qwen3";
  service = codes "openresty";
  output_config_map = [];
  peers = 1;
  discovery = codes "llm/qwen-leader";
}

abbrev listing : Text → Answer (List ModelRoute)
listing group = if text_eq group (codes "old") then status 404 else body (qwen ∷ qwen ∷ [])

abbrev groups : List Text
groups = codes "old" ∷ codes "new" ∷ []

list_model_routes_lem_example : list_model_routes listing groups ≡ (
    if any (λ g. hard (listing g)) groups || not (any (λ g. serves (listing g)) groups)
    then none
    else some (first_of_key (all_items listing groups)))
list_model_routes_lem_example = list_model_routes_lem listing groups

abbrev config : Config
config = record { nginx_service = []; per_service = true; poll_port = codes "8080" }

abbrev cluster : Cluster
cluster = record {
  endpoints = λ ns name.
      body (record { addresses = codes "10.0.0.7" ∷ []; ready = none; target = none } ∷ []);
  owners = λ url. none;
  releases = [];
}

build-targets_example :
    Distinct (map key_of (build config cluster (qwen ∷ qwen ∷ [])).targets)
    × All
        (λ t. has_key (build config cluster (qwen ∷ qwen ∷ [])).routes t.route ≡ true)
        (build config cluster (qwen ∷ qwen ∷ [])).targets
build-targets_example = build-targets config cluster (qwen ∷ qwen ∷ [])

abbrev empty : Resolver
empty = record {
  by_ip = [];
  routes = [];
  svc = [];
  targets = [];
  up = false;
  errs = 0;
  pods = 0;
  routes_g = 0;
  replicas = [];
  replicas_ready = [];
  replicas_desired = [];
}

refreshes-published_example :
    published (refreshes (some (build config cluster (qwen ∷ [])) ∷ none ∷ []) empty)
    ≡ expected (some (build config cluster (qwen ∷ [])) ∷ none ∷ []) (published empty)
refreshes-published_example =
    refreshes-published (some (build config cluster (qwen ∷ [])) ∷ none ∷ []) empty

abbrev prefill : LwsItem
prefill = record {
  namespace = codes "llm";
  name = codes "qwen-prefill-0";
  labels = (pd_name_label, codes "qwen") ∷ (pd_role_label, codes "prefill") ∷ [];
  spec_replicas = some 2;
  status_replicas = some 2;
  status_ready = some 1;
}

abbrev no_pd_state : PdState
no_pd_state = record { skip_until = none; unknown_roles = [] }
