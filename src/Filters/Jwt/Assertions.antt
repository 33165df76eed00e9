-- ===== src/Filters/Jwt/Assertions.antt =====
-- What the JWT filter asserts of a request by the mapped headers.
use hypergate_engine.Prelude.{
  [], ◌∷◌, Option, none, some, ◌≡◌, ◌≢◌, inl, inr, refl, sym, subst, ◌∙◌, Bool-cases, if_ind, ◌==◌,
  eq_false_ne, list_eq, nat_eq,
}
use hypergate_engine.Prelude.Text.{Str, lit}
use hypergate_engine.Engine.Headers.Laws.{IsMirrored}
use hypergate_engine.Engine.Context.{RequestContext}
use hypergate_engine.Engine.Access.{get_header}
use hypergate_engine.Filters.Jwt.Config.{Config}
use hypergate_engine.Filters.Jwt.Validate.{Claims, State, Services, Introspection, validate_jwt}
use hypergate_engine.Filters.Jwt.Execute.{
  strip_token, challenge, inject_claims, remove_mapped, accept, after_introspection,
  after_validation, check_token, execute,
}
use hypergate_engine.Filters.Jwt.Laws.{
  IsMapped, IsClaimed, remove_mapped-mapped, remove_mapped-IsMirrored, inject_claims-read,
  inject_claims-IsMirrored,
}
use hypergate_engine.Filters.Jwt.Stripping.{strip_token-read}
use hypergate_engine.Filters.Jwt.Admission.{
  IsVerified, token_of, challenge-read, after_validation-asked,
}

module _ {K W : Type 0} (lib : Services K W) (cfg : Config) (j : Str) where
  -- A header value that is empty or a verified claim.
  pub data IsAsserted (token : Str) (s : State K W) (v : Str) : Type 0 where
    nothing : v ≡ [] → IsAsserted token s v
    claimed :
        (claims : Claims)
        → IsVerified lib cfg token s claims
        → IsClaimed claims j v cfg.claim_mappings
        → IsAsserted token s v

  module _ (hp : j ≢ lit ":path") (hc : j ≢ lit "cookie") (token : Str) (s : State K W)
      (c : RequestContext) (h : IsMirrored c.upstream) (empty : get_header c j ≡ []) where
    Good : RequestContext → Type 0
    Good d = IsAsserted token s (get_header d j)

    Good-challenge : (message error : Str) → Good (challenge message error c)
    unfolding Good
    Good-challenge message error = IsAsserted.nothing (challenge-read message error c j ∙ empty)

    Good-strip : Good (strip_token cfg c)
    unfolding Good
    Good-strip = elim (strip_token-read cfg j c h hp hc) [
      | inl same ↦ IsAsserted.nothing (same ∙ empty)
      | inr gone ↦ IsAsserted.nothing gone
    ]

    Good-accept : (claims : Claims) → IsVerified lib cfg token s claims → Good (accept cfg claims c)
    unfolding Good accept
    Good-accept claims v =
        let injected = inject_claims cfg.claim_mappings claims c in
        elim (strip_token-read cfg j injected
          (inject_claims-IsMirrored claims cfg.claim_mappings c h) hp hc) [
            | inr gone ↦ IsAsserted.nothing gone
            | inl same ↦ elim (inject_claims-read claims j cfg.claim_mappings c h) [
              | inl before ↦ IsAsserted.nothing (same ∙ before ∙ empty)
              | inr claim ↦
                  IsAsserted.claimed claims v
                    (subst (λ x. IsClaimed claims j x cfg.claim_mappings) (sym same) claim)
            ]
          ]

    Good-introspection :
        (r : Introspection)
        → ((claims : Claims) → r ≡ Introspection.active claims → IsVerified lib cfg token s claims)
        → Good (after_introspection cfg r c)
    unfolding Good after_introspection
    Good-introspection (Introspection.active claims) v = Good-accept claims (v claims refl)
    Good-introspection Introspection.unavailable v =
        if_ind Good cfg.fail_open Good-strip
          (Good-challenge (lit "token validation failed") (lit "invalid_token"))
    Good-introspection Introspection.rejected v =
        Good-challenge (lit "token validation failed") (lit "invalid_token")

    Good-validation :
        (o : Option Claims)
        → (validate_jwt lib cfg token s).0 ≡ o
        → Good (after_validation lib cfg o token c (validate_jwt lib cfg token s).1).0
    unfolding Good
    Good-validation (some claims) e =
        unfold after_validation in Good-accept claims (IsVerified.validated e)
    Good-validation none e = elim (Bool-cases (cfg.introspection_endpoint == [])) [
      | inl missing ↦
          unfold after_validation in
          rw missing (Good-challenge (lit "invalid token") (lit "invalid_token"))
      | inr n ↦
          let named = eq_false_ne cfg.introspection_endpoint [] n in
          rw (after_validation-asked lib cfg token c (validate_jwt lib cfg token s).1 named)
            (Good-introspection _ (λ claims a. IsVerified.introspected named e a))
    ]

-- Whatever a client sends, a header that the settings map a claim to is empty afterwards, or holds a
-- claim mapped to it that local validation or introspection gave for the request's token. The
-- header is neither the path nor the cookies.
pub execute-IsAsserted :
    {K W : Type 0} (lib : Services K W) (unescape : Str → Option Str) (cfg : Config) (j : Str)
    (c : RequestContext) (s : State K W)
    → IsMirrored c.upstream
    → IsMapped j cfg.claim_mappings
    → j ≢ lit ":path"
    → j ≢ lit "cookie"
    → IsAsserted lib cfg j
        (token_of unescape cfg c)
        s
        (get_header (execute lib unescape cfg c s).0 j)
unfolding execute check_token Good
execute-IsAsserted lib unescape cfg j c s h m hp hc = asserted (token_of unescape cfg c)
  where
    r : RequestContext
    r = remove_mapped cfg.claim_mappings c

    mirrored : IsMirrored r.upstream
    mirrored = remove_mapped-IsMirrored cfg.claim_mappings c h

    empty : get_header r j ≡ []
    empty = remove_mapped-mapped j cfg.claim_mappings c m

    asserted :
        (token : Str)
        → IsAsserted lib cfg j token s (get_header (check_token lib cfg token r s).0 j)
    asserted [] =
        Good-challenge lib cfg j hp hc [] s r mirrored empty (lit "missing authentication token") []
    asserted (b ∷ token) = Good-validation lib cfg j hp hc (b ∷ token) s r mirrored empty _ refl
