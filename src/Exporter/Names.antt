-- ===== src/Exporter/Names.antt =====
-- The text functions of bodylog-exporter-go/route_endpoints.go.
pub mod Backend
mod Examples
use llm_openresty.Base.{
  ℕ, Bool, true, false, ◌&&◌, ◌||◌, not, Option, none, some, List, [], ◌∷◌, ◌++◌, Text, codes,
  text_eq, cut_byte, trim_space, trim_suffix, nat_eq, if◌then◌else◌, text_lt, ◌≡◌, refl, arith,
  Lacks, cut_byte-append, cut_byte-Lacks, append_assoc,
}

-- routeName
unfoldable pub route_name : Text → Text → Text → ℕ → Text
route_name name route output_config_map peers =
    if not (text_eq (trim_space route) [])
    then trim_space route
    else if text_eq (trim_space output_config_map) [] && nat_eq peers 0
    then []
    else trim_space name

-- normalizeServiceLabel
unfoldable pub normalize_service_label : Text → Text
normalize_service_label svc = trim_suffix svc (codes "-leader")

-- splitNsName
unfoldable pub split_ns_name : Text → Text × Text
split_ns_name s = elim (cut_byte b'/' s) [ none ↦ (codes "default", s) | some p ↦ p ]

-- The tail of openrestyBase, behind the split of the name.
abbrev pub base_url : Text → Text → Text → Text
base_url port ns name =
    if text_eq name [] || text_eq ns []
    then []
    else codes "http://" ++ name ++ codes "." ++ ns ++ codes ".svc:" ++ port

-- openrestyBase; the port is kept as its decimal digits.
unfoldable pub openresty_base : Bool → Text → Text → Text → Text
openresty_base per_service port nginx_service mr_namespace =
    let s = trim_space nginx_service in
    if not per_service || text_eq s [] then [] else elim (cut_byte b'/' s) [
      | none ↦ base_url port mr_namespace s
      | some (ns, name) ↦ base_url port ns name
    ]

-- The part of a text before the last byte `b`, as strings.LastIndexByte cuts it.
unfoldable pub cut_last : ℕ → Text → Option Text
cut_last b [] = none
cut_last b (c ∷ s) = elim (cut_last b s) [
  | some p ↦ some (c ∷ p)
  | none ↦ if nat_eq c b then some [] else none
]

abbrev pub before_space : Text → Text
before_space s = elim (cut_byte b' ' s) [ none ↦ s | some (p, q) ↦ p ]

abbrev pub before_last_colon : Text → Text
before_last_colon s = elim (cut_last b':' s) [ none ↦ s | some p ↦ p ]

-- backendIP
unfoldable pub backend_ip : Text → Text
backend_ip backend = before_last_colon (before_space (trim_space backend))

abbrev pub insert_text : Text → List Text → List Text
insert_text a [] = a ∷ []
insert_text a (b ∷ l) = let rest = insert_text a l in if text_lt b a then b ∷ rest else a ∷ b ∷ l

-- sort.Strings
unfoldable pub sort_texts : List Text → List Text
sort_texts [] = []
sort_texts (a ∷ l) = insert_text a (sort_texts l)
