-- ===== src/Exporter/Names/Backend.antt =====
-- What backendIP makes of the backends that openresty logs.
use llm_openresty.Base.{
  ℕ, true, false, none, some, [], ◌∷◌, ◌++◌, Text, codes, trim_space, drop_spaces,
  trim_right_spaces, is_space, nat_eq, ◌≡◌, refl, ap, ◌∙◌, sym, arith, Lacks, All-append,
  cut_byte-append, cut_byte-Lacks, append_assoc,
}
use llm_openresty.Exporter.Names.{cut_last, before_space, before_last_colon, backend_ip}

cut_last-Lacks : (b : ℕ) (q : Text) → Lacks b q → cut_last b q ≡ none
unfolding cut_last
cut_last-Lacks b [] h = refl
cut_last-Lacks b (c ∷ q) h = ground (arith, h.0, cut_last-Lacks b q h.1)

pub cut_last-append : (b : ℕ) (p q : Text) → Lacks b q → cut_last b (p ++ b ∷ q) ≡ some p
unfolding cut_last
cut_last-append b [] q h = ground (arith, cut_last-Lacks b q h)
cut_last-append b (c ∷ p) q h = ground (arith, cut_last-append b p q h)

-- A text that ends in another byte than a space keeps it.
trim_right_keeps :
    (p : Text) (c : ℕ) → is_space c ≡ false → trim_right_spaces (p ++ c ∷ []) ≡ p ++ c ∷ []
trim_right_keeps [] c h = ground arith
trim_right_keeps (x ∷ []) c h = ground arith
trim_right_keeps (x ∷ y ∷ p) c h =
    ap
      (λ l. elim l as (λ l. Text) [
        | [] ↦ elim (is_space x) [ true ↦ [] | false ↦ x ∷ [] ]
        | d ∷ r ↦ x ∷ d ∷ r
      ])
      (trim_right_keeps (y ∷ p) c h)

drop_spaces_keeps : (x : ℕ) (p : Text) → is_space x ≡ false → drop_spaces (x ∷ p) ≡ x ∷ p
drop_spaces_keeps x p h = ground arith

trim_space_keeps :
    (x : ℕ) (p : Text) (c : ℕ)
    → is_space x ≡ false
    → is_space c ≡ false
    → trim_space (x ∷ (p ++ c ∷ [])) ≡ x ∷ (p ++ c ∷ [])
unfolding trim_space
trim_space_keeps x p c hx hc =
    ap trim_right_spaces (drop_spaces_keeps x (p ++ c ∷ []) hx) ∙ trim_right_keeps (x ∷ p) c hc

-- What openresty adds to a backend after a retry.
abbrev pub retry_suffix : Text → Text
retry_suffix n = codes " (retry#" ++ n ++ codes ")"

before_space-append : (p q : Text) → Lacks b' ' p → before_space (p ++ b' ' ∷ q) ≡ p
before_space-append p q h = rw (cut_byte-append b' ' p q h, before_space)

before_space-Lacks : (p : Text) → Lacks b' ' p → before_space p ≡ p
before_space-Lacks p h = rw (cut_byte-Lacks b' ' p h, before_space)

before_last_colon-append : (p q : Text) → Lacks b':' q → before_last_colon (p ++ b':' ∷ q) ≡ p
before_last_colon-append p q h = rw (cut_last-append b':' p q h, before_last_colon)

-- From a backend `address:port`, with or without a retry suffix, backendIP takes the address: it may
-- hold colons but no space, the port no colon and no space; neither the first byte of the address
-- nor the last one of the port is white space.
pub backend_ip_lem :
    (x : ℕ) (addr port n : Text) (c : ℕ)
    → is_space x ≡ false
    → is_space c ≡ false
    → Lacks b' ' (x ∷ addr)
    → Lacks b' ' (port ++ c ∷ [])
    → Lacks b':' (port ++ c ∷ [])
    → (backend_ip ((x ∷ addr) ++ b':' ∷ (port ++ c ∷ [])) ≡ x ∷ addr)
      × (backend_ip (((x ∷ addr) ++ b':' ∷ (port ++ c ∷ [])) ++ retry_suffix n) ≡ x ∷ addr)
unfolding backend_ip
backend_ip_lem x addr port n c hx hc no_space no_space' no_colon =
    let whole = addr ++ b':' ∷ (port ++ c ∷ []) in
    let no_spaces : Lacks b' ' (x ∷ whole) =
      All-append (λ c. nat_eq c b' ' ≡ false) (x ∷ addr) (b':' ∷ (port ++ c ∷ [])) no_space
        (refl, no_space') in
    let plain : trim_space (x ∷ whole) ≡ x ∷ whole =
      ap (λ l. trim_space (x ∷ l)) (sym (append_assoc addr (b':' ∷ port) (c ∷ [])))
      ∙ trim_space_keeps x (addr ++ b':' ∷ port) c hx hc
      ∙ ap (λ l. x ∷ l) (append_assoc addr (b':' ∷ port) (c ∷ [])) in
    let retried : trim_space ((x ∷ whole) ++ retry_suffix n) ≡ (x ∷ whole) ++ retry_suffix n =
      ap (λ l. trim_space (x ∷ l)) (sym (append_assoc whole (codes " (retry#" ++ n) (b')' ∷ [])))
      ∙ trim_space_keeps x (whole ++ (codes " (retry#" ++ n)) b')' hx refl
      ∙ ap (λ l. x ∷ l) (append_assoc whole (codes " (retry#" ++ n) (b')' ∷ [])) in
    (
      ap (λ s. before_last_colon (before_space s)) plain
          ∙ ap before_last_colon (before_space-Lacks (x ∷ whole) no_spaces)
          ∙ before_last_colon-append (x ∷ addr) (port ++ c ∷ []) no_colon,
      ap (λ s. before_last_colon (before_space s)) retried
          ∙ ap before_last_colon
              (before_space-append (x ∷ whole) (codes "(retry#" ++ n ++ codes ")") no_spaces)
          ∙ before_last_colon-append (x ∷ addr) (port ++ c ∷ []) no_colon,
    )
