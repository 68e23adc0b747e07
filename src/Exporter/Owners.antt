-- ===== src/Exporter/Owners.antt =====
-- desiredForPod and getOwnerObj of bodylog-exporter-go/route_endpoints.go: from a pod up its
-- controllers to the workload that holds spec.replicas.
pub mod Cached
mod Examples
use llm_openresty.Base.{
  ℕ, zero, suc, ◌+◌, Bool, true, false, ◌&&◌, ◌||◌, Option, none, some, List, [], ◌∷◌, ◌++◌, Text,
  codes, text_eq, text_Eq, if◌then◌else◌, leb, any, nat_eq, map, ◌-◌,
}
use llm_openresty.Base.Dict.{Dict, get, put}

-- A reference of metadata.ownerReferences; an absent `controller` is `none`.
pub record OwnerRef : Type 0 where
  pub api_version : Text
  pub kind : Text
  pub name : Text
  pub controller : Option Bool

-- ownerObj
pub record OwnerObj : Type 0 where
  pub owners : List OwnerRef
  pub replicas : Option ℕ

-- ownerWalkMaxDepth
abbrev pub owner_walk_max_depth : ℕ
owner_walk_max_depth = 5

-- strings.ToLower on a kind, which is ASCII.
abbrev pub to_lower : ℕ → ℕ
to_lower c = if leb b'A' c && leb c b'Z' then c + 32 else c

-- The path of an object under the API server's base URL.
unfoldable pub object_url : Text → Text → Text → Text → Text
object_url ns api_version kind name =
    let plural = map to_lower kind ++ codes "s" in
    (if any (λ c. nat_eq c b'/') api_version then codes "/apis/" else codes "/api/")
    ++ api_version
    ++ codes "/namespaces/"
    ++ ns
    ++ codes "/"
    ++ plural
    ++ codes "/"
    ++ name

-- key := apiVersion + "/" + kind + "/" + ns + "/" + name
unfoldable pub cache_key : Text → Text → Text → Text → Text
cache_key ns api_version kind name =
    api_version ++ codes "/" ++ kind ++ codes "/" ++ ns ++ codes "/" ++ name

-- ownerCache
abbrev pub Cache : Type 0
Cache = Dict Text OwnerObj

-- The API server during one refresh: what a GET of an object's path gives, decoded; `none` is an
-- error of the request or of the decoder.
abbrev pub Server : Type 0
Server = Text → Option OwnerObj

abbrev pub fetched : Cache → Text → Option OwnerObj → Option OwnerObj × Cache
fetched cache key none = (none, cache)
fetched cache key (some o) = (some o, put cache key o)

abbrev pub cached_or : Cache → Text → Option OwnerObj → Option OwnerObj → Option OwnerObj × Cache
cached_or cache key (some o) answer = (some o, cache)
cached_or cache key none answer = fetched cache key answer

-- getOwnerObj
unfoldable pub get_owner_obj : Server → Text → Text → Text → Text → Cache → Option OwnerObj × Cache
get_owner_obj server ns api_version kind name cache =
    let key = cache_key ns api_version kind name in
    cached_or cache key (get cache key) (server (object_url ns api_version kind name))

abbrev pub is_true : Option Bool → Bool
is_true none = false
is_true (some b) = b

-- The first reference whose controller is true.
unfoldable pub controller_of : List OwnerRef → Option OwnerRef
controller_of [] = none
controller_of (o ∷ l) = let rest = controller_of l in if is_true o.controller then some o else rest

-- The loop's body: up to the top, where the object has no controller, or on by `next`.
abbrev pub walk_up :
    (Text → Text → Text → Cache → Option ℕ × Cache)
    → Option ℕ
    → Option OwnerRef
    → Cache
    → Option ℕ × Cache
walk_up next replicas none cache = (replicas, cache)
walk_up next replicas (some o) cache = next o.api_version o.kind o.name cache

abbrev pub walk_on :
    (Text → Text → Text → Cache → Option ℕ × Cache) → Option OwnerObj × Cache → Option ℕ × Cache
walk_on next (none, cache) = (none, cache)
walk_on next (some obj, cache) = walk_up next obj.replicas (controller_of obj.owners) cache

-- The loop of desiredForPod, with the rounds that are left.
unfoldable pub walk : Server → Text → ℕ → Text → Text → Text → Cache → Option ℕ × Cache
walk server ns zero api_version kind name cache = (none, cache)
walk server ns (suc rounds) api_version kind name cache =
    walk_on (walk server ns rounds) (get_owner_obj server ns api_version kind name cache)

-- desiredForPod: the desired replica count, if it is found, and the cache.
unfoldable pub desired_for_pod : Server → Text → Text → Cache → Option ℕ × Cache
desired_for_pod server ns pod cache =
    walk server ns owner_walk_max_depth (codes "v1") (codes "Pod") pod cache
