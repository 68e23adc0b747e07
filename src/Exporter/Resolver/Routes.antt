-- ===== src/Exporter/Resolver/Routes.antt =====
-- listModelRoutes and podIPsForService of bodylog-exporter-go/route_endpoints.go.
use llm_openresty.Base.{
  ℕ, zero, suc, ◌+◌, Bool, true, false, ◌&&◌, Option, none, some, List, [], ◌∷◌, ◌++◌, Text, codes,
  text_eq, if◌then◌else◌, any, nat_eq, length,
}
use llm_openresty.Exporter.PdRoles.{Answer, body, status, failed, undecodable}

-- An item of modelRouteFull.
pub record ModelRoute : Type 0 where
  pub name : Text
  pub namespace : Text
  pub model_type : Text
  pub route : Text
  pub service : Text
  pub output_config_map : Text
  pub peers : ℕ
  pub discovery : Text

-- k := it.Metadata.Namespace + "/" + it.Metadata.Name
abbrev pub object_key : ModelRoute → Text
object_key it = it.namespace ++ b'/' ∷ it.name

abbrev pub has_key : List Text → Text → Bool
has_key seen k = any (λ s. text_eq s k) seen

-- The loop over the items of one group: the keys seen, and the items kept, in order.
unfoldable pub merge_items :
    List ModelRoute → List Text × List ModelRoute → List Text × List ModelRoute
merge_items [] acc = acc
merge_items (it ∷ l) (seen, out) = merge_items l (
    if text_eq it.name []
    then (seen, out ++ it ∷ [])
    else if has_key seen (object_key it)
    then (seen, out)
    else (object_key it ∷ seen, out ++ it ∷ []))

-- listModelRoutes: `none` is an error. `served` counts the groups that answered.
unfoldable pub list_groups :
    (Text → Answer (List ModelRoute))
    → List Text
    → ℕ
    → List Text × List ModelRoute
    → Option (List ModelRoute)
list_groups answer [] zero acc = none
list_groups answer [] (suc served) acc = some acc.1
list_groups answer (g ∷ gs) served acc = elim (answer g) [
  | body items ↦ list_groups answer gs (suc served) (merge_items items acc)
  | status code ↦ elim (nat_eq code 404) [ true ↦ list_groups answer gs served acc | false ↦ none ]
  | failed ↦ none
  | undecodable ↦ none
]

unfoldable pub list_model_routes :
    (Text → Answer (List ModelRoute)) → List Text → Option (List ModelRoute)
unfolding list_groups
list_model_routes answer groups = list_groups answer groups 0 ([], [])

-- endpointSliceList: an endpoint, with its `targetRef` of a kind and a name.
pub record Endpoint : Type 0 where
  pub addresses : List Text
  pub ready : Option Bool
  pub target : Option (Text × Text)

-- The results of podIPsForService; an empty samplePod is none.
pub record PodIps : Type 0 where
  pub ips : List Text
  pub ready : ℕ
  pub sample_pod : Text

-- ep.Conditions.Ready == nil || *ep.Conditions.Ready
abbrev pub is_ready : Endpoint → Bool
is_ready ep = elim ep.ready [ none ↦ true | some b ↦ b ]

abbrev pub sample : Text → Option (Text × Text) → Text
sample pod none = pod
sample pod (some (kind, name)) = if text_eq pod [] && text_eq kind (codes "Pod") then name else pod

-- The loop over the endpoints of all slices.
unfoldable pub collect_ips : List Endpoint → PodIps → PodIps
collect_ips [] acc = acc
collect_ips (ep ∷ l) acc = collect_ips l (record {
  ips = acc.ips ++ ep.addresses;
  ready = if is_ready ep then acc.ready + length ep.addresses else acc.ready;
  sample_pod = sample acc.sample_pod ep.target;
})

unfoldable pub pod_ips_for_service : Answer (List Endpoint) → Option PodIps
unfolding collect_ips
pod_ips_for_service (body endpoints) =
    some (collect_ips endpoints (record { ips = []; ready = 0; sample_pod = [] }))
pod_ips_for_service (status code) = none
pod_ips_for_service failed = none
pod_ips_for_service undecodable = none
