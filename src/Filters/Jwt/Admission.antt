-- ===== src/Filters/Jwt/Admission.antt =====
-- Which requests the JWT filter lets pass, and what it asserts of them.
use mathlib.Core.List.{cons-ne-nil}
use hypergate_engine.Prelude.{
  ℕ, Bool, true, false, [], ◌∷◌, Option, none, some, ◌==◌, nat_eq, list_eq, ◌≡◌, ◌≢◌, ◌⊎◌, ◌↔◌, inl,
  inr, refl, ap, sym, ◌∙◌, arith, Bool-cases, if_ind, eq_iff, eq_false, eq_false_ne,
}
use hypergate_engine.Prelude.Text.{Str, lit}
use hypergate_engine.Prelude.Maps.{Map, lookup}
use hypergate_engine.Engine.Context.{RequestContext, Verdict}
use hypergate_engine.Engine.Access.{
  get_header, set_header_upstream, remove_header_upstream, set_path,
}
use hypergate_engine.Filters.Jwt.Claims.{Claim, claim_string}
use hypergate_engine.Filters.Jwt.Config.{Config}
use hypergate_engine.Filters.Jwt.Validate.{
  Claims, State, Services, Introspection, validate_jwt, introspect,
}
use hypergate_engine.Filters.Jwt.Execute.{
  Source, source_of, extract_token, strip_token, strip_from, cookies_left, challenge, inject,
  inject_claim, inject_claims, remove_mapped, accept, after_introspection, after_validation,
  check_token, execute,
}
use hypergate_engine.Filters.Jwt.Query.{remove_query_param}

inject_claims-verdict :
    (m : Map Str Str) (claims : Claims) (c : RequestContext)
    → (inject_claims m claims c).verdict ≡ c.verdict
unfolding inject_claims set_header_upstream
inject_claims-verdict [] claims c = refl
inject_claims-verdict ((claim, hd) ∷ m) claims c =
    inject_claims-verdict m claims _ ∙ injected (lookup claim claims)
  where
    value : (v : Str) → (inject hd v c).verdict ≡ c.verdict
    value [] = refl
    value (b ∷ s) = refl

    injected : (o : Option Claim) → (inject_claim hd o c).verdict ≡ c.verdict
    injected none = refl
    injected (some v) = value (claim_string v)

remove_mapped-verdict :
    (m : Map Str Str) (c : RequestContext) → (remove_mapped m c).verdict ≡ c.verdict
unfolding remove_mapped remove_header_upstream
remove_mapped-verdict [] c = refl
remove_mapped-verdict ((claim, hd) ∷ m) c = remove_mapped-verdict m _

SameVerdict : RequestContext → RequestContext → Type 0
SameVerdict c d = d.verdict ≡ c.verdict

cookies_left-verdict :
    (cfg : Config) (r : Str × Bool) (c : RequestContext) → SameVerdict c (cookies_left cfg r c)
unfolding SameVerdict set_header_upstream remove_header_upstream
cookies_left-verdict cfg (cookies, removed) c =
    if_ind (SameVerdict c) removed (if_ind (SameVerdict c) (cookies == []) refl refl) refl

strip_from-verdict :
    (cfg : Config) (src : Source) (c : RequestContext) → SameVerdict c (strip_from cfg src c)
unfolding SameVerdict set_path set_header_upstream remove_header_upstream
strip_from-verdict cfg Source.in_query c =
    if_ind (SameVerdict c) (remove_query_param c.path cfg.query_param == c.path) refl refl
strip_from-verdict cfg Source.in_cookie c = cookies_left-verdict cfg _ c
strip_from-verdict cfg Source.in_header c = refl

strip_token-verdict : (cfg : Config) (c : RequestContext) → (strip_token cfg c).verdict ≡ c.verdict
unfolding strip_token SameVerdict
strip_token-verdict cfg c =
    if_ind (SameVerdict c) cfg.strip_token (strip_from-verdict cfg (source_of cfg) c) refl

challenge-blocked :
    (message error : Str) (c : RequestContext) → (challenge message error c).verdict.blocked ≡ true
unfolding challenge
challenge-blocked message error c = refl

pub challenge-read :
    (message error : Str) (c : RequestContext) (j : Str)
    → get_header (challenge message error c) j ≡ get_header c j
unfolding challenge get_header
challenge-read message error c j = refl

module _ {K W : Type 0} (lib : Services K W) (cfg : Config) (token : Str) (s : State K W) where
  -- Claims that local validation or introspection gave for the token.
  pub data IsVerified (claims : Claims) : Type 0 where
    validated : (validate_jwt lib cfg token s).0 ≡ some claims → IsVerified claims
    introspected :
        cfg.introspection_endpoint ≢ []
        → (validate_jwt lib cfg token s).0 ≡ none
        → (introspect lib cfg token (validate_jwt lib cfg token s).1).0
          ≡ Introspection.active claims
        → IsVerified claims

  -- A token that lets a request pass.
  pub data IsAdmitted : Type 0 where
    verified : (claims : Claims) → token ≢ [] → IsVerified claims → IsAdmitted
    tolerated :
        token ≢ []
        → (validate_jwt lib cfg token s).0 ≡ none
        → cfg.introspection_endpoint ≢ []
        → cfg.fail_open ≡ true
        → (introspect lib cfg token (validate_jwt lib cfg token s).1).0 ≡ Introspection.unavailable
        → IsAdmitted

-- The token that Execute reads, after it removed the mapped headers.
abbrev pub token_of : (Str → Option Str) → Config → RequestContext → Str
token_of unescape cfg c = extract_token unescape cfg (remove_mapped cfg.claim_mappings c)

module _ {K W : Type 0} (lib : Services K W) (cfg : Config) where
  accept-unblocked :
      (claims : Claims) (c : RequestContext)
      → c.verdict.blocked ≡ false
      → (accept cfg claims c).verdict.blocked ≡ false
  unfolding accept
  accept-unblocked claims c h =
      ap (λ (v : Verdict). v.blocked)
        (strip_token-verdict cfg _ ∙ inject_claims-verdict cfg.claim_mappings claims c)
      ∙ h

  strip-unblocked :
      (c : RequestContext) → c.verdict.blocked ≡ false → (strip_token cfg c).verdict.blocked ≡ false
  strip-unblocked c h = ap (λ (v : Verdict). v.blocked) (strip_token-verdict cfg c) ∙ h

  admitted_by_introspection :
      (r : Introspection) (c : RequestContext)
      → (after_introspection cfg r c).verdict.blocked ≡ false
      → ((claims : Claims) × (r ≡ Introspection.active claims))
        ⊎ ((cfg.fail_open ≡ true) × (r ≡ Introspection.unavailable))
  unfolding after_introspection
  admitted_by_introspection (Introspection.active claims) c h = inl (claims, refl)
  admitted_by_introspection Introspection.unavailable c h = elim (Bool-cases cfg.fail_open) [
    | inl e ↦ inr (e, refl)
    | inr e ↦ ground arith
  ]
  admitted_by_introspection Introspection.rejected c h = cc

  after_introspection-unblocked :
      (r : Introspection) (c : RequestContext)
      → c.verdict.blocked ≡ false
      → ((claims : Claims) × (r ≡ Introspection.active claims))
        ⊎ ((cfg.fail_open ≡ true) × (r ≡ Introspection.unavailable))
      → (after_introspection cfg r c).verdict.blocked ≡ false
  unfolding after_introspection
  after_introspection-unblocked r c h (inl (claims, e)) = rw e (accept-unblocked claims c h)
  after_introspection-unblocked r c h (inr (on, e)) = rw (e, on) (strip-unblocked c h)

  -- What introspection makes of a request, where it is asked.
  abbrev asked : Str → RequestContext → State K W → RequestContext
  asked token c t = after_introspection cfg (introspect lib cfg token t).0 c

  pub after_validation-asked :
      (token : Str) (c : RequestContext) (t : State K W)
      → cfg.introspection_endpoint ≢ []
      → (after_validation lib cfg none token c t).0 ≡ asked token c t
  unfolding after_validation
  after_validation-asked token c t i = rw (eq_false cfg.introspection_endpoint [] i) refl

  after_validation-unasked :
      (token : Str) (c : RequestContext) (t : State K W)
      → cfg.introspection_endpoint ≡ []
      → (after_validation lib cfg none token c t).0.verdict.blocked ≡ true
  unfolding after_validation
  after_validation-unasked token c t i =
      rw ((eq_iff cfg.introspection_endpoint []).1 i)
        (challenge-blocked (lit "invalid token") (lit "invalid_token") c)

  admitted :
      (b : ℕ) (token : Str) (c : RequestContext) (s : State K W) (o : Option Claims)
      → (validate_jwt lib cfg (b ∷ token) s).0 ≡ o
      → (after_validation lib cfg o
          (b ∷ token)
          c
          (validate_jwt lib cfg (b ∷ token) s).1).0.verdict.blocked
        ≡ false
      → IsAdmitted lib cfg (b ∷ token) s
  unfolding after_validation
  admitted b token c s (some claims) e h =
      IsAdmitted.verified claims (cons-ne-nil b token) (IsVerified.validated e)
  admitted b token c s none e h = elim (Bool-cases (cfg.introspection_endpoint == [])) [
    | inl missing ↦ absurd (
        cc (
          h,
          after_validation-unasked (b ∷ token) c (validate_jwt lib cfg (b ∷ token) s).1
              ((eq_iff cfg.introspection_endpoint []).0 missing),
        ))
    | inr n ↦
        let named = eq_false_ne cfg.introspection_endpoint [] n in
        elim (admitted_by_introspection _ c (
          ap (λ (d : RequestContext). d.verdict.blocked)
            (sym (after_validation-asked (b ∷ token) c _ named))
          ∙ h)) [
            | inl (claims, a) ↦
                IsAdmitted.verified claims (cons-ne-nil b token) (IsVerified.introspected named e a)
            | inr (o, u) ↦ IsAdmitted.tolerated (cons-ne-nil b token) e named o u
          ]
  ]

  check_token-IsAdmitted :
      (token : Str) (c : RequestContext) (s : State K W)
      → c.verdict.blocked ≡ false
      → ((check_token lib cfg token c s).0.verdict.blocked ≡ false) ↔ IsAdmitted lib cfg token s
  unfolding check_token
  check_token-IsAdmitted [] c s h = (λ e. cc, refused)
    where
      refused : IsAdmitted lib cfg [] s → true ≡ false
      refused (IsAdmitted.verified claims n v) = absurd (n refl)
      refused (IsAdmitted.tolerated n v i o u) = absurd (n refl)
  check_token-IsAdmitted (b ∷ token) c s h = (admitted b token c s _ refl, passes)
    where
      passes :
          IsAdmitted lib cfg (b ∷ token) s
          → (check_token lib cfg (b ∷ token) c s).0.verdict.blocked ≡ false
      passes (IsAdmitted.verified claims n (IsVerified.validated e)) =
          rw e (accept-unblocked claims c h)
      passes (IsAdmitted.verified claims n (IsVerified.introspected i e a)) =
          rw (e, after_validation-asked (b ∷ token) c _ i)
            (after_introspection-unblocked _ c h (inl (claims, a)))
      passes (IsAdmitted.tolerated n v i o u) =
          rw (v, after_validation-asked (b ∷ token) c _ i)
            (after_introspection-unblocked _ c h (inr (o, u)))

module _ {K W : Type 0} (lib : Services K W) (unescape : Str → Option Str) (cfg : Config) where
  -- A request that is not blocked passes the filter exactly where it carries a token that local
  -- validation or introspection accepts, or where the settings fail open and the introspection
  -- endpoint gives no verdict on a token that local validation refused.
  pub execute-IsAdmitted :
      (c : RequestContext) (s : State K W)
      → c.verdict.blocked ≡ false
      → ((execute lib unescape cfg c s).0.verdict.blocked ≡ false)
        ↔ IsAdmitted lib cfg (token_of unescape cfg c) s
  unfolding execute
  execute-IsAdmitted c s h =
      check_token-IsAdmitted lib cfg _ (remove_mapped cfg.claim_mappings c) s
        (ap (λ (v : Verdict). v.blocked) (remove_mapped-verdict cfg.claim_mappings c) ∙ h)
