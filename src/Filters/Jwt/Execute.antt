-- ===== src/Filters/Jwt/Execute.antt =====
-- Execute of the JWT filter, and what it takes from and gives to the request
-- (internal/filters/jwt_auth/jwt_auth.go).
use hypergate_engine.Prelude.{
  ℕ, zero, suc, Bool, List, [], ◌∷◌, ◌++◌, Option, none, some, if◌then◌else◌, ◌==◌, nat_eq, list_eq,
  ltb, length, take, ◌&&◌,
}
use hypergate_engine.Prelude.Text.{Str, lit, to_lower, equal_fold, trim_space}
use hypergate_engine.Prelude.Maps.{Map, lookup}
use hypergate_engine.Engine.Context.{RequestContext, Phase, block}
use hypergate_engine.Engine.Access.{
  get_header, set_header_upstream, remove_header_upstream, set_header_downstream, set_path,
}
use hypergate_engine.Filters.Jwt.Claims.{Claim, claim_string}
use hypergate_engine.Filters.Jwt.Config.{Config}
use hypergate_engine.Filters.Jwt.Cookies.{extract_cookie, remove_cookie}
use hypergate_engine.Filters.Jwt.Query.{extract_query_param, remove_query_param}
use hypergate_engine.Filters.Jwt.Validate.{
  Claims, State, Services, Introspection, validate_jwt, introspect,
}

abbrev pub supported_phases : List Phase
supported_phases = Phase.request_headers ∷ []

pub data Source : Type 0 where
  in_query in_cookie in_header : Source

-- The switch on the lower-cased source, whose default case is the header.
unfoldable pub source_of : Config → Source
unfolding to_lower
source_of cfg =
    let s = to_lower cfg.source in
    if s == lit "query"
    then Source.in_query
    else if s == lit "cookie"
    then Source.in_cookie
    else Source.in_header

abbrev drop_bytes : ℕ → Str → Str
drop_bytes zero s = s
drop_bytes (suc n) [] = []
drop_bytes (suc n) (c ∷ s) = drop_bytes n s

unfoldable pub without_scheme : Str → Str
unfolding trim_space equal_fold
without_scheme value =
    let raw = trim_space value in
    if ltb 7 (length raw) && equal_fold (take 7 raw) (lit "bearer ")
    then trim_space (drop_bytes 7 raw)
    else raw

module _ (unescape : Str → Option Str) (cfg : Config) where
  abbrev pub token_from : Source → RequestContext → Str
  token_from Source.in_query c = extract_query_param unescape c.path cfg.query_param
  token_from Source.in_cookie c = extract_cookie (get_header c (lit "cookie")) cfg.cookie_name
  token_from Source.in_header c = without_scheme (get_header c cfg.header_name)

  unfoldable pub extract_token : RequestContext → Str
  unfolding source_of
  extract_token c = token_from (source_of cfg) c

module _ (cfg : Config) where
  abbrev pub cookies_left : Str × Bool → RequestContext → RequestContext
  cookies_left (cookies, removed) c =
      if removed
      then (if cookies == []
          then remove_header_upstream (lit "cookie") c
          else set_header_upstream (lit "cookie") cookies c)
      else c

  abbrev pub strip_from : Source → RequestContext → RequestContext
  strip_from Source.in_query c =
      let stripped = remove_query_param c.path cfg.query_param in
      if stripped == c.path then c else set_path stripped c
  strip_from Source.in_cookie c =
      cookies_left (remove_cookie (get_header c (lit "cookie")) cfg.cookie_name) c
  strip_from Source.in_header c = remove_header_upstream cfg.header_name c

  unfoldable pub strip_token : RequestContext → RequestContext
  unfolding source_of
  strip_token c = if cfg.strip_token then strip_from (source_of cfg) c else c

abbrev bearer_challenge : Str → Str
bearer_challenge [] = lit "Bearer"
bearer_challenge (c ∷ error) = lit "Bearer error=\"" ++ (c ∷ error) ++ lit "\""

unfoldable pub challenge : Str → Str → RequestContext → RequestContext
unfolding block set_header_downstream
challenge message bearer_error c =
    set_header_downstream (lit "www-authenticate") (bearer_challenge bearer_error) (
      set_header_downstream (lit "content-type") (lit "application/json")
        (block 401 (lit "{\"error\":\"unauthorized\",\"message\":\"" ++ message ++ lit "\"}") c))

-- The first loop: the mapped headers are removed.
unfoldable pub remove_mapped : Map Str Str → RequestContext → RequestContext
unfolding remove_header_upstream
remove_mapped [] c = c
remove_mapped ((claim, header) ∷ m) c = remove_mapped m (remove_header_upstream header c)

abbrev pub inject : Str → Str → RequestContext → RequestContext
inject header [] c = c
inject header (b ∷ s) c = set_header_upstream header (b ∷ s) c

abbrev pub inject_claim : Str → Option Claim → RequestContext → RequestContext
inject_claim header none c = c
inject_claim header (some v) c = inject header (claim_string v) c

-- The last loop: the mapped headers are set from the claims.
unfoldable pub inject_claims : Map Str Str → Claims → RequestContext → RequestContext
unfolding lookup claim_string
inject_claims [] claims c = c
inject_claims ((claim, header) ∷ m) claims c =
    inject_claims m claims (inject_claim header (lookup claim claims) c)

module _ (cfg : Config) where
  unfoldable pub accept : Claims → RequestContext → RequestContext
  unfolding inject_claims strip_token
  accept claims c = strip_token cfg (inject_claims cfg.claim_mappings claims c)

  -- What follows introspection.
  unfoldable pub after_introspection : Introspection → RequestContext → RequestContext
  unfolding accept challenge strip_token
  after_introspection (Introspection.active claims) c = accept claims c
  after_introspection Introspection.unavailable c =
      if cfg.fail_open
      then strip_token cfg c
      else challenge (lit "token validation failed") (lit "invalid_token") c
  after_introspection Introspection.rejected c =
      challenge (lit "token validation failed") (lit "invalid_token") c

module _ {K W : Type 0} (lib : Services K W) (cfg : Config) where
  -- What follows local validation.
  unfoldable pub after_validation :
      Option Claims → Str → RequestContext → State K W → RequestContext × State K W
  unfolding after_introspection introspect accept challenge
  after_validation (some claims) token c s = (accept cfg claims c, s)
  after_validation none token c s =
      let (result, t) = introspect lib cfg token s in
      if cfg.introspection_endpoint == []
      then (challenge (lit "invalid token") (lit "invalid_token") c, s)
      else (after_introspection cfg result c, t)

  unfoldable pub check_token : Str → RequestContext → State K W → RequestContext × State K W
  unfolding after_validation validate_jwt challenge
  check_token [] c s = (challenge (lit "missing authentication token") [] c, s)
  check_token (b ∷ token) c s =
      let (claims, t) = validate_jwt lib cfg (b ∷ token) s in
      after_validation claims (b ∷ token) c t

module _ {K W : Type 0} (lib : Services K W) (unescape : Str → Option Str) (cfg : Config) where
  -- The result is always nil.
  unfoldable pub execute : RequestContext → State K W → RequestContext × State K W
  unfolding check_token remove_mapped extract_token
  execute c s =
      let r = remove_mapped cfg.claim_mappings c in
      check_token lib cfg (extract_token unescape cfg r) r s
