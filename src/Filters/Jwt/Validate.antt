-- ===== src/Filters/Jwt/Validate.antt =====
-- How a token is checked: the keys, validateJWT and introspect
-- (internal/filters/jwt_auth/jwt_auth.go). `K` is a key set of the jwx library, `W` the state outside
-- of the filter: the clock, the identity provider and the introspection endpoint.
use hypergate_engine.Prelude.{
  ℕ, ◌*◌, ◌-◌, Bool, true, false, not, [], Option, none, some, if◌then◌else◌, ◌==◌, nat_eq, list_eq,
  ltb, leb, is_some, ◌&&◌, ◌||◌,
}
use hypergate_engine.Prelude.Text.{Str, lit}
use hypergate_engine.Prelude.Maps.{Map, lookup}
use hypergate_engine.Filters.Jwt.Claims.{Claim, audience_contains}
use hypergate_engine.Filters.Jwt.Config.{Config}

abbrev pub Claims : Type 0
Claims = Map Str Claim

pub record State (K W : Type 0) : Type 0 where
  pub key_set : Option K
  pub last_fetch : ℕ
  pub world : W

-- What a token is verified with: a shared secret with its algorithm, or a key set.
pub data Material (K : Type 0) : Type 0 where
  secret : Str → Str → Material K
  key_set : K → Material K

-- The introspection endpoint's answer: its status, and the decoded body.
pub data Reply : Type 0 where
  unreachable : Reply
  answered : ℕ → Option Claims → Reply

-- The jwx library, the HTTP client, the clock and the lock. `parse` is given the issuer and the
-- audience (empty: not checked) and the token: `none` where parsing or a check fails, `some none`
-- where the accepted token has no map. `waits` is what other requests do while this one waits for the
-- lock of refreshes.
pub record Services (K W : Type 0) : Type 0 where
  pub parse : Material K → Str → Str → Str → W → Option (Option Claims)
  pub fetch : Str → W → Option K × W
  pub now : W → ℕ
  pub waits : State K W → State K W
  pub valid_url : Str → Bool
  pub post : Str → Str → Str → W → Reply × W

abbrev min_refresh_gap : ℕ
min_refresh_gap = 30 * 1000000000

pub data Introspection : Type 0 where
  unavailable rejected : Introspection
  active : Claims → Introspection

abbrev flatten : Option (Option Claims) → Option Claims
flatten none = none
flatten (some m) = m

abbrev newer {ℓ} : {A : Type ℓ} → Option A → Option A → Option A
newer none old = old
newer (some a) old = some a

abbrev is_active : Option Claim → Bool
is_active (some (Claim.bool b)) = b
is_active _ = false

-- An issuer that is text, and not the expected one.
abbrev wrong_issuer : Option Claim → Str → Bool
wrong_issuer (some (Claim.text iss)) want = not (iss == want)
wrong_issuer _ want = false

abbrev wrong_audience : Option Claim → Str → Bool
wrong_audience none want = false
wrong_audience (some aud) want = not (audience_contains aud want)

unfoldable pub check_claims : Config → Claims → Introspection
unfolding lookup audience_contains
check_claims cfg claims =
    if not (is_active (lookup (lit "active") claims))
    then Introspection.rejected
    else if not (cfg.issuer == []) && wrong_issuer (lookup (lit "iss") claims) cfg.issuer
    then Introspection.rejected
    else if not (cfg.audience == []) && wrong_audience (lookup (lit "aud") claims) cfg.audience
    then Introspection.rejected
    else Introspection.active claims

abbrev checked : Config → Option Claims → Introspection
checked cfg none = Introspection.rejected
checked cfg (some claims) = check_claims cfg claims

unfoldable pub verdict_of : Config → Reply → Introspection
unfolding check_claims
verdict_of cfg Reply.unreachable = Introspection.unavailable
verdict_of cfg (Reply.answered status body) =
    if leb 500 status
    then Introspection.unavailable
    else if not (status == 200)
    then Introspection.rejected
    else checked cfg body

module _ {K W : Type 0} (lib : Services K W) (cfg : Config) where
  unfoldable pub fetch_and_store : State K W → Bool × State K W
  fetch_and_store s =
      let (set, w) = lib.fetch cfg.jwks_endpoint s.world in
      (is_some set, record { key_set = newer set s.key_set; last_fetch = lib.now w; world = w })

  -- The time since the last fetch is below the gap.
  abbrev recent : State K W → Bool
  recent s = ltb (lib.now s.world - s.last_fetch) min_refresh_gap

  unfoldable pub refresh_after_miss : State K W → Bool × State K W
  unfolding fetch_and_store
  refresh_after_miss s =
      if cfg.jwks_endpoint == [] || recent s
      then (false, s)
      else let t = lib.waits s in if recent t then (true, t) else fetch_and_store t

  abbrev parsed : Material K → Str → State K W → Option (Option Claims)
  parsed key token s = lib.parse key cfg.issuer cfg.audience token s.world

  -- With the keys after a refresh.
  abbrev retried : Option K → Str → State K W → Option (Option Claims)
  retried none token s = none
  retried (some k) token s = parsed (Material.key_set k) token s

  abbrev after_miss : Option (Option Claims) → Str → State K W → Option (Option Claims) × State K W
  after_miss (some m) token s = (some m, s)
  after_miss none token s =
      let (loaded, t) = refresh_after_miss s in
      (if loaded then retried t.key_set token t else none, t)

  abbrev with_key_set : Option K → Str → State K W → Option (Option Claims) × State K W
  with_key_set none token s = (none, s)
  with_key_set (some k) token s = after_miss (parsed (Material.key_set k) token s) token s

  unfoldable pub validate_jwt : Str → State K W → Option Claims × State K W
  unfolding refresh_after_miss
  validate_jwt token s =
      let (tok, t) =
        if cfg.local_secret == []
        then with_key_set s.key_set token s
        else (parsed (Material.secret cfg.algorithm cfg.local_secret) token s, s) in
      (flatten tok, t)

  unfoldable pub introspect : Str → State K W → Introspection × State K W
  unfolding verdict_of
  introspect token s =
      let (reply, w) =
        lib.post cfg.introspection_endpoint cfg.introspection_auth_header token s.world in
      if lib.valid_url cfg.introspection_endpoint
      then (verdict_of cfg reply, record s { world = w })
      else (Introspection.rejected, s)
