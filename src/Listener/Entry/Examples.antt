-- ===== src/Listener/Entry/Examples.antt =====
-- An entry that a router has forwarded.
use llm_openresty.Base.{ℕ, ◌≡◌, refl, true, false, none, some, codes, text_eq, has_prefix}
use llm_openresty.Listener.Entry.{
  with_caches, without_caches, Floats, Clock, Fields, no_field, field, string, get_string, lookup,
  request_of,
}
use llm_openresty.Listener.Entry.Backend.{http, request_of-host}

abbrev floats : Floats ℕ
floats = record { to_int64 = λ x. x; millis = λ x. x; positive = λ x. true }

abbrev clock : Clock
clock = record { parse = λ s. none; now = 100 }

abbrev fields : Fields ℕ
fields = field (codes "forwarded_to") (string (codes "http://a:8/v1")) no_field

forwarded : get_string (lookup fields (codes "forwarded_to")) ≡ codes "http://a:8/v1"
unfolding lookup text_eq
forwarded = refl

no_https : has_prefix (codes "a:8/v1") (codes "https://") ≡ false
unfolding has_prefix
no_https = refl

no_http : has_prefix (codes "a:8/v1") (codes "http://") ≡ false
unfolding has_prefix
no_http = refl

request_of-host_example :
    (request_of floats clock (with_caches floats fields)
      ≡ request_of floats clock (without_caches floats fields))
    × ((request_of floats clock (with_caches floats fields)).peer ≡ codes "a:8")
request_of-host_example =
    request_of-host floats clock fields (codes "a:8") (some (codes "v1")) http forwarded
      (λ e. absurd cc) (refl, (refl, (refl, tt))) no_https no_http
