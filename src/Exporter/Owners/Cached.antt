-- ===== src/Exporter/Owners/Cached.antt =====
-- The cache of one refresh changes no answer: a walk gives what it would without the cache.
use llm_openresty.Base.{
  ℕ, zero, suc, ◌≡◌, refl, ap, sym, subst, Lacks, All, append_assoc, ◌∙◌, inl, inr, Option, none,
  some, List, [], ◌∷◌, ◌++◌, Text, codes, text_eq, text_eq_iff, text_Eq, arith, if◌then◌else◌,
  Bool-cases,
}
use llm_openresty.Exporter.Names.{cut_last}
use llm_openresty.Exporter.Names.Backend.{cut_last-append}
use llm_openresty.Base.Dict.{get, put, get-put}
use llm_openresty.Exporter.Owners.{
  OwnerObj, is_true, OwnerRef, Server, Cache, cache_key, object_url, get_owner_obj, cached_or,
  walk_on, walk_up, controller_of, walk, desired_for_pod, owner_walk_max_depth,
}

abbrev pub Slashless : Text → Type 0
Slashless = Lacks b'/'

append_cancel : (p q r : Text) → p ++ q ≡ p ++ r → q ≡ r
append_cancel [] q r e = e
append_cancel (x ∷ p) q r e = append_cancel p q r cc

split_last :
    (p q p' q' : Text)
    → Slashless q
    → Slashless q'
    → (p ++ b'/' ∷ []) ++ q ≡ (p' ++ b'/' ∷ []) ++ q'
    → (p ≡ p') × (q ≡ q')
split_last p q p' q' h h' e =
    let e' : p ++ b'/' ∷ q ≡ p' ++ b'/' ∷ q' =
      sym (append_assoc p (b'/' ∷ []) q) ∙ e ∙ append_assoc p' (b'/' ∷ []) q' in
    let same : p ≡ p' =
      cc (cut_last-append b'/' p q h, cut_last-append b'/' p' q' h', ap (cut_last b'/') e') in
    let tails : b'/' ∷ q ≡ b'/' ∷ q' =
      append_cancel p' (b'/' ∷ q) (b'/' ∷ q')
        (subst (λ r. r ++ b'/' ∷ q ≡ p' ++ b'/' ∷ q') same e') in
    (same, cc)

-- The key determines what the path is made of, since kinds, namespaces and names hold no slash.
cache_key_injective :
    (ns av kind name ns' av' kind' name' : Text)
    → Slashless kind
    → Slashless ns
    → Slashless name
    → Slashless kind'
    → Slashless ns'
    → Slashless name'
    → cache_key ns av kind name ≡ cache_key ns' av' kind' name'
    → object_url ns av kind name ≡ object_url ns' av' kind' name'
unfolding cache_key
cache_key_injective ns av kind name ns' av' kind' name' hk hs hn hk' hs' hn' e =
    let (front, same_name) = split_last _ name _ name' hn hn' e in
    let (front', same_ns) = split_last _ ns _ ns' hs hs' front in
    let (same_av, same_kind) = split_last av kind av' kind' hk hk' front' in cc

module _ (server : Server) where
  abbrev chain_up : (Text → Text → Text → Option ℕ) → Option ℕ → Option OwnerRef → Option ℕ
  chain_up next replicas none = replicas
  chain_up next replicas (some o) = next o.api_version o.kind o.name

  abbrev chain_on : (Text → Text → Text → Option ℕ) → Option OwnerObj → Option ℕ
  chain_on next none = none
  chain_on next (some obj) = chain_up next obj.replicas (controller_of obj.owners)

  -- The replica count of the object at the top of the chain of controllers, if the chain is shorter
  -- than `rounds` and every object on it is there.
  pub chain : Text → ℕ → Text → Text → Text → Option ℕ
  chain ns zero api_version kind name = none
  chain ns (suc rounds) api_version kind name =
      chain_on (chain ns rounds) (server (object_url ns api_version kind name))

  -- Every cached object is the server's.
  pub record IsFresh (cache : Cache) : Type 0 where
    pub at_key :
        (ns av kind name : Text) (o : OwnerObj)
        → Slashless kind
        → Slashless ns
        → Slashless name
        → get cache (cache_key ns av kind name) ≡ some o
        → server (object_url ns av kind name) ≡ some o

  -- The references that the server hands out hold no slash in kind and name.
  abbrev pub SlashlessRef : OwnerRef → Type 0
  SlashlessRef o = Slashless o.kind × Slashless o.name

  module _
      (slashless : (url : Text) (o : OwnerObj)
        → server url ≡ some o
        → All SlashlessRef o.owners) where
    controller_slashless :
        (l : List OwnerRef) (o : OwnerRef)
        → All SlashlessRef l
        → controller_of l ≡ some o
        → SlashlessRef o
    unfolding controller_of
    controller_slashless [] o h e = cc
    controller_slashless (r ∷ l) o h e = elim (Bool-cases (is_true r.controller)) [
      | inl here ↦ subst SlashlessRef {x = r} {y = o} (ground (arith, here)) h.0
      | inr later ↦ controller_slashless l o h.1 (ground (arith, later))
    ]

    IsFresh-put :
        (ns av kind name : Text) (cache : Cache) (o : OwnerObj)
        → Slashless kind
        → Slashless ns
        → Slashless name
        → server (object_url ns av kind name) ≡ some o
        → IsFresh cache
        → IsFresh (put cache (cache_key ns av kind name) o)
    IsFresh-put ns av kind name cache o hk hs hn answer fresh = record {
      at_key = λ ns' av' kind' name' o' hk' hs' hn' e.
          go ns' av' kind' name' o' hk' hs' hn'
            (sym (get-put cache (cache_key ns av kind name) (cache_key ns' av' kind' name') o) ∙ e);
    }
      where
        go :
            (ns' av' kind' name' : Text) (o' : OwnerObj)
            → Slashless kind'
            → Slashless ns'
            → Slashless name'
            → (if text_eq (cache_key ns av kind name) (cache_key ns' av' kind' name')
                then some o
                else get cache (cache_key ns' av' kind' name'))
              ≡ some o'
            → server (object_url ns' av' kind' name') ≡ some o'
        go ns' av' kind' name' o' hk' hs' hn' e =
            elim (Bool-cases
              (text_eq (cache_key ns av kind name) (cache_key ns' av' kind' name'))) [
                | inl same ↦
                    let url =
                      cache_key_injective ns av kind name ns' av' kind' name' hk hs hn hk' hs' hn'
                        ((text_eq_iff _ _).0 same) in
                    ap server (sym url) ∙ answer ∙ ground (arith, same)
                | inr other ↦
                    fresh.at_key ns' av' kind' name' o' hk' hs' hn' (ground (arith, other))
              ]

    get_owner_obj_lem :
        (ns av kind name : Text) (cache : Cache)
        → Slashless kind
        → Slashless ns
        → Slashless name
        → IsFresh cache
        → ((get_owner_obj server ns av kind name cache).0 ≡ server (object_url ns av kind name))
          × IsFresh (get_owner_obj server ns av kind name cache).1
    unfolding get_owner_obj
    get_owner_obj_lem ns av kind name cache hk hs hn fresh =
        go (get cache (cache_key ns av kind name)) refl (server (object_url ns av kind name)) refl
      where
        go :
            (c : Option OwnerObj)
            → get cache (cache_key ns av kind name) ≡ c
            → (a : Option OwnerObj) → server (object_url ns av kind name) ≡ a
            → ((cached_or cache (cache_key ns av kind name) c a).0 ≡ a)
              × IsFresh (cached_or cache (cache_key ns av kind name) c a).1
        go (some o) e a e' = (sym (fresh.at_key ns av kind name o hk hs hn e) ∙ e', fresh)
        go none e none e' = (refl, fresh)
        go none e (some o) e' = (refl, IsFresh-put ns av kind name cache o hk hs hn e' fresh)

    walk_lem :
        (rounds : ℕ) (ns av kind name : Text) (cache : Cache)
        → Slashless kind
        → Slashless ns
        → Slashless name
        → IsFresh cache
        → ((walk server ns rounds av kind name cache).0 ≡ chain ns rounds av kind name)
          × IsFresh (walk server ns rounds av kind name cache).1
    unfolding walk chain
    walk_lem zero ns av kind name cache hk hs hn fresh = (refl, fresh)
    walk_lem (suc rounds) ns av kind name cache hk hs hn fresh =
        let (same, fresh') = get_owner_obj_lem ns av kind name cache hk hs hn fresh in
        go (get_owner_obj server ns av kind name cache).0
          (get_owner_obj server ns av kind name cache).1 same fresh'
          (λ av kind name cache hk hn. walk_lem rounds ns av kind name cache hk hs hn)
      where
        Agrees : Option ℕ × Cache → Option ℕ → Type 0
        Agrees r c = (r.0 ≡ c) × IsFresh r.1

        up :
            (obj : OwnerObj) (o : Option OwnerRef) (c : Cache)
            → controller_of obj.owners ≡ o
            → All SlashlessRef obj.owners
            → IsFresh c
            → ((av kind name : Text) (c : Cache)
                → Slashless kind
                → Slashless name
                → IsFresh c
                → ((walk server ns rounds av kind name c).0 ≡ chain ns rounds av kind name)
                  × IsFresh (walk server ns rounds av kind name c).1)
            → ((walk_up (walk server ns rounds) obj.replicas o c).0
                ≡ chain_up (chain ns rounds) obj.replicas o)
              × IsFresh (walk_up (walk server ns rounds) obj.replicas o c).1
        up obj none c e all f rec = (refl, f)
        up obj (some o) c e all f rec =
            let (k, n) = controller_slashless obj.owners o all e in
            rec o.api_version o.kind o.name c k n f

        go :
            (found : Option OwnerObj) (c : Cache)
            → found ≡ server (object_url ns av kind name)
            → IsFresh c
            → ((av kind name : Text) (c : Cache)
                → Slashless kind
                → Slashless name
                → IsFresh c
                → ((walk server ns rounds av kind name c).0 ≡ chain ns rounds av kind name)
                  × IsFresh (walk server ns rounds av kind name c).1)
            → ((walk_on (walk server ns rounds) (found, c)).0
                ≡ chain_on (chain ns rounds) (server (object_url ns av kind name)))
              × IsFresh (walk_on (walk server ns rounds) (found, c)).1
        go none c e f rec = (ap (chain_on (chain ns rounds)) e, f)
        go (some obj) c e f rec =
            let (r, f') =
              up obj (controller_of obj.owners) c refl (slashless _ obj (sym e)) f rec in
            (r ∙ ap (chain_on (chain ns rounds)) e, f')

-- With a cache that holds only what the server answers, desiredForPod gives the replica count of the
-- workload at the top of the pod's chain of controllers, of at most five objects, and nothing if the
-- chain is longer or an object of it is missing; and the cache still holds only the server's objects.
-- Kinds, namespaces and names hold no slash.
pub desired_for_pod-chain :
    (server : Server)
    → ((url : Text) (o : OwnerObj) → server url ≡ some o → All (SlashlessRef server) o.owners)
    → (ns pod : Text) (cache : Cache) → Slashless ns
    → Slashless pod
    → IsFresh server cache
    → ((desired_for_pod server ns pod cache).0
        ≡ chain server ns owner_walk_max_depth (codes "v1") (codes "Pod") pod)
      × IsFresh server (desired_for_pod server ns pod cache).1
unfolding desired_for_pod
desired_for_pod-chain server slashless ns pod cache hs hp fresh =
    walk_lem server slashless owner_walk_max_depth ns (codes "v1") (codes "Pod") pod cache
      (refl, (refl, (refl, tt))) hs hp fresh
