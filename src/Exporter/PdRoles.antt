-- ===== src/Exporter/PdRoles.antt =====
-- bodylog-exporter-go/pd_roles.go: engine counts per role of a prefill/decode-disaggregated release.
pub mod Tally
mod Examples
use llm_openresty.Base.{
  ℕ, ◌+◌, ◌*◌, ◌^◌, Bool, true, false, ◌&&◌, ◌||◌, Option, none, some, List, [], ◌∷◌, ◌++◌, Text,
  codes, text_eq, text_lt, text_Eq, trim_suffix, if◌then◌else◌, ltb, nat_eq, add64, any,
}
use llm_openresty.Base.Dict.{Dict, get_or, put}

abbrev pub pd_name_label : Text
pd_name_label = codes "disaggregatedset.x-k8s.io/name"

abbrev pub pd_role_label : Text
pd_role_label = codes "disaggregatedset.x-k8s.io/role"

abbrev pub pd_role_router : Text
pd_role_router = codes "router"

-- pdRetryAfter, in nanoseconds.
abbrev pub pd_retry_after : ℕ
pd_retry_after = 30 * 60 * 10 ^ 9

-- pdKnownRoles
unfoldable pub pd_known_role : Text → Bool
pd_known_role role = text_eq role (codes "prefill") || text_eq role (codes "decode")

-- pdRoleRep. The counts are int64 bit patterns.
pub record PdRoleRep : Type 0 where
  pub n : ℕ
  pub ready : ℕ
  pub desired : ℕ
  pub slices : ℕ
  pub with_spec : ℕ

abbrev pub no_rep : PdRoleRep
no_rep = record { n = 0; ready = 0; desired = 0; slices = 0; with_spec = 0 }

-- desiredOK
unfoldable pub desired_ok : PdRoleRep → Bool
desired_ok p = ltb 0 p.slices && nat_eq p.with_spec p.slices

-- lwsItem; an absent replica count is `none`.
pub record LwsItem : Type 0 where
  pub namespace : Text
  pub name : Text
  pub labels : Dict Text Text
  pub spec_replicas : Option ℕ
  pub status_replicas : Option ℕ
  pub status_ready : Option ℕ

-- deref32
abbrev pub deref32 : Option ℕ → ℕ
deref32 none = 0
deref32 (some n) = n

-- A missing key of a Go map of strings.
abbrev pub label_of : Dict Text Text → Text → Text
label_of labels key = get_or labels key []

-- The updates of rep at the end of the loop's body.
unfoldable pub count_item : LwsItem → PdRoleRep → PdRoleRep
count_item it rep = record {
  slices = add64 rep.slices 1;
  n = add64 rep.n (deref32 it.status_replicas);
  ready = add64 rep.ready (deref32 it.status_ready);
  desired = elim it.spec_replicas [ none ↦ rep.desired | some r ↦ add64 rep.desired r ];
  with_spec = elim it.spec_replicas [ none ↦ rep.with_spec | some r ↦ add64 rep.with_spec 1 ];
}

abbrev pub ByRole : Type 0
ByRole = Dict Text PdRoleRep

abbrev pub Releases : Type 0
Releases = Dict Text ByRole

abbrev pub roles_of : Releases → Text → ByRole
roles_of out key = get_or out key []

abbrev pub rep_of : ByRole → Text → PdRoleRep
rep_of m role = get_or m role no_rep

-- key := it.Metadata.Namespace + "/" + ds
abbrev pub release_key : LwsItem → Text
release_key it = it.namespace ++ b'/' ∷ label_of it.labels pd_name_label

abbrev pub role_of : LwsItem → Text
role_of it = label_of it.labels pd_role_label

-- The loop's body behind the tests on the labels.
unfoldable pub add_item : LwsItem → Releases → Releases
add_item it out =
    let by_role = roles_of out (release_key it) in
    put out (release_key it)
      (put by_role (role_of it) (count_item it (rep_of by_role (role_of it))))

-- ds == "" || role == ""
abbrev pub unlabelled : LwsItem → Bool
unlabelled it = text_eq (label_of it.labels pd_name_label) [] || text_eq (role_of it) []

-- One round of the loop of pdRoles, with the roles already named in the log.
unfoldable pub fold_item : LwsItem → Releases × List Text → Releases × List Text
fold_item it (out, unknown) =
    if unlabelled it
    then (out, unknown)
    else if pd_known_role (role_of it)
    then (add_item it out, unknown)
    else (out, if any (λ r. text_eq r (role_of it)) unknown then unknown else role_of it ∷ unknown)

unfoldable pub fold_items : List LwsItem → Releases × List Text → Releases × List Text
fold_items [] acc = acc
fold_items (it ∷ l) acc = fold_items l (fold_item it acc)

-- What r.get and json.Unmarshal make of the list call.
pub data Answer {ℓ} (A : Type ℓ) : Type ℓ where
  body : A → Answer A
  status : ℕ → Answer A
  failed : Answer A
  undecodable : Answer A

-- pdSkipUntil (`none` is the zero time) and pdUnknownRoles.
pub record PdState : Type 0 where
  pub skip_until : Option ℕ
  pub unknown_roles : List Text

abbrev pub before : ℕ → Option ℕ → Bool
before now none = false
before now (some t) = ltb now t

-- The answer's part of pdRoles.
unfoldable pub pd_answered : ℕ → PdState → Answer (List LwsItem) → Releases × PdState
pd_answered now st (body items) =
    let (out, unknown) = fold_items items ([], st.unknown_roles) in
    (out, record st { unknown_roles = unknown })
pd_answered now st (status code) =
    if nat_eq code 404 || nat_eq code 403
    then ([], record st { skip_until = some (now + pd_retry_after) })
    else ([], st)
pd_answered now st failed = ([], st)
pd_answered now st undecodable = ([], st)

-- pdRoles: the counts by release and role, and whether the API server was asked. A nil map is read
-- as the empty map by the only caller.
unfoldable pub pd_roles : Text → ℕ → PdState → Answer (List LwsItem) → Releases × PdState × Bool
unfolding pd_answered
pd_roles group now st answer =
    if text_eq group [] || before now st.skip_until
    then ([], st, false)
    else (let (out, st') = pd_answered now st answer in (out, st', true))

abbrev insert_name : Text → List Text → List Text
insert_name a [] = a ∷ []
insert_name a (b ∷ l) = let rest = insert_name a l in if text_lt b a then b ∷ rest else a ∷ b ∷ l

-- pdRoleNames: the roles, sorted.
unfoldable pub pd_role_names : ByRole → List Text
pd_role_names [] = []
pd_role_names ((role, rep) ∷ m) = insert_name role (pd_role_names m)

-- pdKey
unfoldable pub pd_key : Text → Text → Text
pd_key ns name = ns ++ b'/' ∷ trim_suffix name (codes "-leader")
