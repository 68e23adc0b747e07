-- ===== src/Exporter/Resolver/Roles.antt =====
-- The desired series of a disaggregated release's role, from the API server's answer in pdRoles of
-- bodylog-exporter-go/pd_roles.go to the gauge that refresh of route_endpoints.go sets.
use llm_openresty.Base.{ℕ, Bool, none, some, List, [], ◌∷◌, Text, if◌then◌else◌, add64}
use llm_openresty.Exporter.PdRoles.{LwsItem}
use llm_openresty.Exporter.PdRoles.Tally.{counts_for}
use llm_openresty.Exporter.Resolver.Refresh.{Resolver, Series}

-- The sum of the committed replica counts of the items counted for a release and a role.
abbrev pub committed : Text → Text → List LwsItem → ℕ → ℕ
committed key role [] sum = sum
committed key role (it ∷ l) sum = committed key role l (
    if counts_for key role it
    then elim it.spec_replicas [ none ↦ sum | some r ↦ add64 sum r ]
    else sum)

-- The gauge of a role's series, set to the committed count where it is known.
abbrev pub desired_gauge : Text → Text → Text → Bool → ℕ → List Series → List Series
desired_gauge label route role known d l =
    if known then record { service = label; route = route; role = role; value = d } ∷ l else l
