-- ===== src/Exporter/Resolver/Targets.antt =====
-- The targets that build of bodylog-exporter-go/route_endpoints.go hands to the openresty poller,
-- and what a run of refreshes leaves published.
use llm_openresty.Base.{
  ◌≡◌, refl, sym, ap, ◌∙◌, subst, Bool, true, false, ◌||◌, Option, none, some, List, [], ◌∷◌, ◌++◌,
  Text, text_eq, text_eq_iff, if◌then◌else◌, arith, All, map, trim_space,
}
use llm_openresty.Exporter.Names.{sort_texts, insert_text, normalize_service_label, split_ns_name}
use llm_openresty.Exporter.Resolver.Routes.{ModelRoute, has_key, PodIps, pod_ips_for_service}
use llm_openresty.Exporter.Resolver.Build.{
  PollTarget, Building, Config, Cluster, start, target_key, add_target, note_route, note_service,
  polled, poll_item, base_of, route_of, add_service, with_service, with_pods, build_item,
  build_items, build,
}

abbrev pub key_of : PollTarget → Text
key_of t = target_key t.base t.route

-- No key comes twice.
abbrev pub Distinct : List Text → Type 0
Distinct [] = Unit
Distinct (k ∷ ks) = (has_key ks k ≡ false) × Distinct ks

has_key-snoc : (l : List Text) (k j : Text) → has_key (l ++ j ∷ []) k ≡ has_key l k || text_eq j k
has_key-snoc [] k j = ground arith
has_key-snoc (x ∷ l) k j = ground (arith, has_key-snoc l k j)

text_eq_sym : (a b : Text) → text_eq a b ≡ text_eq b a
text_eq_sym a b = ground (arith, text_eq_iff a b, text_eq_iff b a)

Distinct-snoc :
    (l : List Text) (k : Text) → Distinct l → has_key l k ≡ false → Distinct (l ++ k ∷ [])
Distinct-snoc [] k d h = (refl, tt)
Distinct-snoc (x ∷ l) k (h0, d) h =
    (ground (arith, has_key-snoc l x k, text_eq_sym x k), Distinct-snoc l k d (ground arith))

map-snoc {ℓ κ} :
    {A : Type ℓ} {B : Type κ} (f : A → B) (l : List A) (x : A)
    → map f (l ++ x ∷ []) ≡ map f l ++ f x ∷ []
map-snoc f [] x = refl
map-snoc f (y ∷ l) x = ap (λ m. f y ∷ m) (map-snoc f l x)

insert-has_key : (j k : Text) (l : List Text) → has_key (insert_text j l) k ≡ has_key (j ∷ l) k
insert-has_key j k [] = refl
insert-has_key j k (x ∷ l) = ground (arith, insert-has_key j k l)

sort-has_key : (l : List Text) (k : Text) → has_key (sort_texts l) k ≡ has_key l k
unfolding sort_texts
sort-has_key [] k = refl
sort-has_key (x ∷ l) k = insert-has_key x k (sort_texts l) ∙ ground (arith, sort-has_key l k)

-- The marks of build and what they stand for.
abbrev OnRoutes : List Text → List PollTarget → Type 0
OnRoutes routes targets = All (λ t. has_key routes t.route ≡ true) targets

abbrev SameKeys : List Text → List Text → Type 0
SameKeys l m = (k : Text) → has_key l k ≡ has_key m k

abbrev Marks : Building → Type 0
Marks b =
    (SameKeys b.seen b.routes × SameKeys b.seen_target (map key_of b.targets))
    × (Distinct (map key_of b.targets) × OnRoutes b.routes b.targets)

SameKeys-snoc : (l m : List Text) (k : Text) → SameKeys l m → SameKeys (k ∷ l) (m ++ k ∷ [])
SameKeys-snoc l m k h j = ground (arith, has_key-snoc m j k, h j)

OnRoutes-mono :
    (r r' : List Text) (l : List PollTarget)
    → ((k : Text) → has_key r k ≡ true → has_key r' k ≡ true)
    → OnRoutes r l
    → OnRoutes r' l
OnRoutes-mono r r' [] h o = tt
OnRoutes-mono r r' (t ∷ l) h (o, os) = (h t.route o, OnRoutes-mono r r' l h os)

OnRoutes-snoc :
    (r : List Text) (l : List PollTarget) (t : PollTarget)
    → OnRoutes r l
    → has_key r t.route ≡ true
    → OnRoutes r (l ++ t ∷ [])
OnRoutes-snoc r [] t o h = (h, tt)
OnRoutes-snoc r (u ∷ l) t (o, os) h = (o, OnRoutes-snoc r l t os h)

module _ (route : Text) (b : Building) where
  note_route-Marks :
      (h : Bool)
      → has_key b.seen route ≡ h
      → Marks b
      → Marks (if h then b else record b { seen = route ∷ b.seen; routes = b.routes ++ route ∷ [] })
  note_route-Marks true h m = m
  note_route-Marks false h ((rs, ts), (td, on)) = (
    (SameKeys-snoc b.seen b.routes route rs, ts),
    (
      td,
      OnRoutes-mono b.routes (b.routes ++ route ∷ []) b.targets
          (λ k e. ground (arith, has_key-snoc b.routes k route)) on,
    ),
  )

  note_route-has_key :
      (h : Bool)
      → has_key b.seen route ≡ h
      → Marks b
      → has_key
          (if h
            then b
            else record b { seen = route ∷ b.seen; routes = b.routes ++ route ∷ [] }).routes
          route
        ≡ true
  note_route-has_key true h m = sym (m.0.0 route) ∙ h
  note_route-has_key false h m =
      ground (arith, has_key-snoc b.routes route route, text_eq_iff route route)

note_target-Marks :
    (base route label : Text) (b : Building) (h : Bool)
    → has_key b.seen_target (target_key base route) ≡ h
    → has_key b.routes route ≡ true
    → Marks b
    → Marks (
        if h then b else record b {
          seen_target = target_key base route ∷ b.seen_target;
          targets = b.targets ++ record { base = base; route = route; service = label } ∷ [];
        })
note_target-Marks base route label b true h r m = m
note_target-Marks base route label b false h r ((rs, ts), (td, on)) = (
  (
    rs,
    subst (SameKeys (target_key base route ∷ b.seen_target)) (sym e)
        (SameKeys-snoc b.seen_target (map key_of b.targets) (target_key base route) ts),
  ),
  (
    subst Distinct (sym e) (
        Distinct-snoc (map key_of b.targets) (target_key base route) td
          (sym (ts (target_key base route)) ∙ h)),
    OnRoutes-snoc b.routes b.targets t on r,
  ),
)
  where
    t : PollTarget
    t = record { base = base; route = route; service = label }

    e : map key_of (b.targets ++ t ∷ []) ≡ map key_of b.targets ++ target_key base route ∷ []
    e = map-snoc key_of b.targets t

add_target-Marks :
    (base route label : Text) (b : Building) → Marks b → Marks (add_target base route label b)
unfolding add_target
add_target-Marks base route label b m =
    note_target-Marks base route label (note_route route b) _ refl
      (note_route-has_key route b _ refl m) (note_route-Marks route b _ refl m)

with_pods-Marks :
    (cl : Cluster) (route label ns name : Text) (pods : Option PodIps) (b : Building)
    → Marks b
    → Marks (with_pods cl route label ns name pods b)
unfolding add_service
with_pods-Marks cl route label ns name none b m = m
with_pods-Marks cl route label ns name (some pods) b m = m

if-Marks : (c : Bool) (a b : Building) → Marks a → Marks b → Marks (if c then a else b)
if-Marks true a b m n = m
if-Marks false a b m n = n

with_service-Marks :
    (cl : Cluster) (route svc : Text) (b : Building) → Marks b → Marks (with_service cl route svc b)
unfolding with_service
with_service-Marks cl route svc b m =
    let name = split_ns_name svc in
    let pods = pod_ips_for_service (cl.endpoints name.0 name.1) in
    let label = normalize_service_label svc in
    if-Marks (text_eq svc [] || text_eq name.1 []) b (with_pods cl route label name.0 name.1 pods b)
      m (with_pods-Marks cl route label name.0 name.1 pods b m)

build_item-Marks :
    (cfg : Config) (cl : Cluster) (it : ModelRoute) (b : Building)
    → Marks b
    → Marks (build_item cfg cl it b)
unfolding build_item
build_item-Marks cfg cl it b m =
    let route = route_of it in
    let svc = trim_space it.discovery in
    let b1 = note_service route svc b in
    let label = normalize_service_label svc in
    let b2 = add_target (base_of cfg it) route label b1 in
    if-Marks (text_eq route []) b (with_service cl route svc (poll_item cfg it route svc b1)) m (
      with_service-Marks cl route svc (poll_item cfg it route svc b1)
        (if-Marks (polled cfg it) b2 b1 (add_target-Marks (base_of cfg it) route label b1 m) m))

build_items-Marks :
    (cfg : Config) (cl : Cluster) (l : List ModelRoute) (b : Building)
    → Marks b
    → Marks (build_items cfg cl l b)
unfolding build_items
build_items-Marks cfg cl [] b m = m
build_items-Marks cfg cl (it ∷ l) b m =
    build_items-Marks cfg cl l (build_item cfg cl it b) (build_item-Marks cfg cl it b m)

-- Whatever the listing holds and the API server answers, no two targets of a build have the same
-- base and route, and the route of every target is on the sorted poll list.
pub build-targets :
    (cfg : Config) (cl : Cluster) (items : List ModelRoute)
    → Distinct (map key_of (build cfg cl items).targets)
      × All (λ t. has_key (build cfg cl items).routes t.route ≡ true) (build cfg cl items).targets
unfolding build
build-targets cfg cl items =
    let m = build_items-Marks cfg cl items start ((λ k. refl, λ k. refl), (tt, tt)) in
    let b = build_items cfg cl items start in
    (
      m.1.0,
      OnRoutes-mono b.routes (sort_texts b.routes) b.targets (λ k e. sort-has_key b.routes k ∙ e)
          m.1.1,
    )
