-- ===== src/Listener/Api/Access.antt =====
-- Whom authOK of bodylog-listener-go/httpapi.go lets in.
use llm_openresty.Base.{
  has_prefix-append, trim_prefix-append, ap₂, ◌≡◌, ◌≢◌, refl, sym, ap, ◌∙◌, ◌↔◌, ◌⊎◌, inl, inr,
  Bool, true, false, not, ◌&&◌, [], ◌∷◌, ◌++◌, Text, text_eq, text_eq_iff, text_eq_refl, has_prefix,
  trim_prefix, drop, if◌then◌else◌, arith, split_and, nat_eq, nat_eq_iff, length,
}
use llm_openresty.Listener.Api.{auth_ok, bearer}

has_prefix-drop : (s p : Text) → has_prefix s p ≡ true → p ++ drop (length p) s ≡ s
unfolding has_prefix
has_prefix-drop s [] h = refl
has_prefix-drop [] (c ∷ p) h = absurd cc
has_prefix-drop (d ∷ s) (c ∷ p) h =
    let (e, f) = split_and (nat_eq d c) (has_prefix s p) h in
    ap₂ (λ x l. x ∷ l) (sym ((nat_eq_iff d c).0 e)) (has_prefix-drop s p f)

trim_prefix-drop : (s p : Text) → has_prefix s p ≡ true → trim_prefix s p ≡ drop (length p) s
unfolding trim_prefix
trim_prefix-drop s p h = rw h refl

-- The header carries a token behind its prefix.
abbrev carries : Text → Text → Text → Bool
carries s p t = has_prefix s p && text_eq (trim_prefix s p) t

carries_iff : (s p t : Text) → (carries s p t ≡ true) ↔ (s ≡ p ++ t)
carries_iff s p t = (there, back)
  where
    there : carries s p t ≡ true → s ≡ p ++ t
    there h =
        let (e, f) = split_and (has_prefix s p) (text_eq (trim_prefix s p) t) h in
        sym (has_prefix-drop s p e)
        ∙ ap (λ l. p ++ l) (sym (trim_prefix-drop s p e) ∙ (text_eq_iff (trim_prefix s p) t).0 f)

    back : s ≡ p ++ t → carries s p t ≡ true
    back e =
        ap (λ l. carries l p t) e
        ∙ ap₂ (λ a b. a && b) (has_prefix-append p t)
            (ap (λ l. text_eq l t) (trim_prefix-append p t) ∙ text_eq_refl t)

-- With a token configured, a request is let in just if its header is "Bearer " and the token, or its
-- parameter is the token.
pub auth_ok_iff :
    (http_token authorization token : Text)
    → http_token ≢ []
    → (auth_ok http_token authorization token ≡ true)
      ↔ ((authorization ≡ bearer ++ http_token) ⊎ (token ≡ http_token))
unfolding auth_ok
auth_ok_iff http_token authorization token h =
    go (text_eq http_token []) refl (carries authorization bearer http_token) refl
  where
    go :
        (a : Bool)
        → text_eq http_token [] ≡ a
        → (b : Bool) → carries authorization bearer http_token ≡ b
        → ((if a
              then true
              else if b
              then true
              else not (text_eq token []) && text_eq token http_token)
            ≡ true)
          ↔ ((authorization ≡ bearer ++ http_token) ⊎ (token ≡ http_token))
    go true e b f = absurd (h ((text_eq_iff http_token []).0 e))
    go false e true f = (λ x. inl ((carries_iff authorization bearer http_token).0 f), λ x. refl)
    go false e false f = (
      λ x. inr (
          (text_eq_iff token http_token).0
            (split_and (not (text_eq token [])) (text_eq token http_token) x).1),
      λ x. elim x [
        | inl y ↦ absurd (ground (arith, (carries_iff authorization bearer http_token).1 y))
        | inr y ↦
            ap₂ (λ c d. not c && d) (ap (λ t. text_eq t []) y ∙ e)
              (ap (λ t. text_eq t http_token) y ∙ text_eq_refl http_token)
      ],
    )
