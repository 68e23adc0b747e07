-- ===== src/Listener/Entry/Backend.antt =====
-- The backend that normalizePeer of bodylog-listener-go/main.go gives a request.
use llm_openresty.Base.{
  ◌≡◌, ◌≢◌, refl, ap, ◌∙◌, false, Option, none, some, [], ◌∷◌, ◌++◌, Text, codes, text_eq,
  has_prefix, trim_prefix, trim_prefix-append, cut_byte, cut_byte-append, cut_byte-Lacks, Lacks,
  if◌then◌else◌,
}
use llm_openresty.Listener.Entry.{
  with_caches, without_caches, Fields, read_entry, Floats, Clock, get_string, lookup, request_of,
  before_slash, host_of, none_name, or_none_name, normalized,
}

-- A host with a path behind it, or without one.
abbrev pub with_path : Text → Option Text → Text
with_path host none = host
with_path host (some path) = host ++ b'/' ∷ path

cut-with_path :
    (host : Text) (path : Option Text)
    → Lacks b'/' host
    → before_slash (cut_byte b'/' (with_path host path)) (with_path host path) ≡ host
cut-with_path host none h = ap (λ o. before_slash o host) (cut_byte-Lacks b'/' host h)
cut-with_path host (some path) h =
    ap (λ o. before_slash o (with_path host (some path))) (cut_byte-append b'/' host path h)

untrimmed : (s prefix : Text) → has_prefix s prefix ≡ false → trim_prefix s prefix ≡ s
unfolding trim_prefix
untrimmed s prefix h = rw h refl

abbrev after_trim : Text → Text
after_trim s = before_slash (cut_byte b'/' s) s

given-host : (peer fwd host : Text) → host_of fwd ≡ host → host ≢ [] → normalized peer fwd ≡ host
unfolding normalized
given-host peer fwd host e h =
    ap (λ t. or_none_name (if text_eq t [] then peer else t)) e
    ∙ ap (λ b. or_none_name (if b then peer else host)) (not_empty host h)
    ∙ ap (λ b. if b then none_name else host) (not_empty host h)
  where
    not_empty : (t : Text) → t ≢ [] → text_eq t [] ≡ false
    not_empty [] g = absurd (g refl)
    not_empty (c ∷ t) g = unfold text_eq in refl

-- The schemes that a forwarded address may have.
pub data Scheme : Type 0 where
  no_scheme http https : Scheme

abbrev pub scheme_text : Scheme → Text
scheme_text no_scheme = []
scheme_text http = codes "http://"
scheme_text https = codes "https://"

normalized-host :
    (peer host : Text) (path : Option Text) (scheme : Scheme)
    → host ≢ []
    → Lacks b'/' host
    → has_prefix (with_path host path) (codes "https://") ≡ false
    → has_prefix (with_path host path) (codes "http://") ≡ false
    → normalized peer (scheme_text scheme ++ with_path host path) ≡ host
normalized-host peer host path scheme h lacks f g =
    given-host peer (scheme_text scheme ++ with_path host path) host
      (trimmed scheme ∙ cut-with_path host path lacks) h
  where
    s : Text
    s = with_path host path

    trimmed :
        (scheme : Scheme)
        → host_of (scheme_text scheme ++ with_path host path) ≡ after_trim (with_path host path)
    trimmed no_scheme =
        ap (λ t. after_trim (trim_prefix t (codes "http://"))) (untrimmed s (codes "https://") f)
        ∙ ap after_trim (untrimmed s (codes "http://") g)
    trimmed http =
        ap (λ t. after_trim (trim_prefix t (codes "http://")))
          (untrimmed (codes "http://" ++ s) (codes "https://") (unfold has_prefix in refl))
        ∙ ap after_trim (trim_prefix-append (codes "http://") s)
    trimmed https =
        ap (λ t. after_trim (trim_prefix t (codes "http://")))
          (trim_prefix-append (codes "https://") s)
        ∙ ap after_trim (untrimmed s (codes "http://") g)

-- processFrame's caches change nothing of what ingest counts for an entry; and the entry is counted under the
-- host of its forwarded address, whether or not a scheme stands before the host and a path behind it,
-- and whatever its own peer is; where the host is not empty and has no slash, and what stands behind
-- the scheme does not itself begin with a scheme.
pub request_of-host :
    {F : Type 0} (floats : Floats F) (clock : Clock) (m : Fields F) (host : Text)
    (path : Option Text) (scheme : Scheme)
    → get_string (lookup m (codes "forwarded_to")) ≡ scheme_text scheme ++ with_path host path
    → host ≢ []
    → Lacks b'/' host
    → has_prefix (with_path host path) (codes "https://") ≡ false
    → has_prefix (with_path host path) (codes "http://") ≡ false
    → (request_of floats clock (with_caches floats m)
        ≡ request_of floats clock (without_caches floats m))
      × ((request_of floats clock (with_caches floats m)).peer ≡ host)
unfolding request_of read_entry
request_of-host floats clock m host path scheme forwarded h lacks f g = (
  refl,
  ap (normalized (get_string (lookup m (codes "peer")))) forwarded
      ∙ normalized-host (get_string (lookup m (codes "peer"))) host path scheme h lacks f g,
)
