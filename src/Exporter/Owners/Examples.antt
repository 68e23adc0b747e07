-- ===== src/Exporter/Owners/Examples.antt =====
-- A pod under a workload.
use llm_openresty.Base.{
  ◌≡◌, refl, ap, subst, Bool, true, false, none, some, [], ◌∷◌, Text, codes, text_eq, if◌then◌else◌,
  All,
}
use llm_openresty.Base.Dict.{get, or_default}
use llm_openresty.Exporter.Owners.{
  OwnerObj, Server, object_url, owner_walk_max_depth, desired_for_pod,
}
use llm_openresty.Exporter.Owners.Cached.{SlashlessRef, IsFresh, chain, desired_for_pod-chain}

abbrev pod_obj : OwnerObj
pod_obj = record {
  owners =
      record {
        api_version = codes "apps/v1";
        kind = codes "StatefulSet";
        name = codes "qwen";
        controller = some true;
      }
      ∷ [];
  replicas = none;
}

abbrev set_obj : OwnerObj
set_obj = record { owners = []; replicas = some 3 }

abbrev server : Server
server url =
    if text_eq url (object_url (codes "llm") (codes "v1") (codes "Pod") (codes "qwen-0"))
    then some pod_obj
    else some set_obj

server-slashless :
    (url : Text) (o : OwnerObj) → server url ≡ some o → All (SlashlessRef server) o.owners
server-slashless url o h =
    go (text_eq url (object_url (codes "llm") (codes "v1") (codes "Pod") (codes "qwen-0"))) h
  where
    go :
        (b : Bool)
        → (if b then some pod_obj else some set_obj) ≡ some o
        → All (SlashlessRef server) o.owners
    go true e =
        subst (λ (x : OwnerObj). All (SlashlessRef server) x.owners)
          (ap (λ q. or_default q set_obj) e)
          (
            (
              (
                refl,
                (refl, (refl, (refl, (refl, (refl, (refl, (refl, (refl, (refl, (refl, tt)))))))))),
              ),
              (refl, (refl, (refl, (refl, tt)))),
            ),
            tt,
          )
    go false e =
        subst (λ (x : OwnerObj). All (SlashlessRef server) x.owners)
          (ap (λ q. or_default q pod_obj) e) tt

empty-IsFresh : IsFresh server []
unfolding get
empty-IsFresh = record { at_key = λ ns av kind name o a b c e. cc }

desired_for_pod-chain_example :
    ((desired_for_pod server (codes "llm") (codes "qwen-0") []).0
      ≡ chain server (codes "llm") owner_walk_max_depth (codes "v1") (codes "Pod") (codes "qwen-0"))
    × IsFresh server (desired_for_pod server (codes "llm") (codes "qwen-0") []).1
desired_for_pod-chain_example =
    desired_for_pod-chain server server-slashless (codes "llm") (codes "qwen-0") []
      (refl, (refl, (refl, tt))) (refl, (refl, (refl, (refl, (refl, (refl, tt)))))) empty-IsFresh
