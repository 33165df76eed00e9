-- ===== src/Filters/Jwt/Config.antt =====
-- The settings of the JWT filter and NewFilter (internal/filters/jwt_auth/jwt_auth.go).
use hypergate_engine.Prelude.{
  ℕ, zero, suc, ◌*◌, Bool, [], ◌∷◌, Option, some, ℤ, pos, negsuc, ◌==◌, nat_eq, list_eq, ◌>>=◌,
  ◌&&◌, require, not,
}
use hypergate_engine.Prelude.Text.{Str, lit, to_lower, trim_space}
use hypergate_engine.Prelude.Maps.{Map, insert}

-- Durations are in nanoseconds.
pub record Config : Type 0 where
  pub source : Str
  pub header_name : Str
  pub query_param : Str
  pub cookie_name : Str
  pub jwks_endpoint : Str
  pub jwks_refresh_interval : ℤ
  pub local_secret : Str
  pub local_secret_file : Str
  pub algorithm : Str
  pub issuer : Str
  pub audience : Str
  pub claim_mappings : Map Str Str
  pub introspection_endpoint : Str
  pub introspection_auth_header : Str
  pub introspection_auth_header_file : Str
  pub introspection_timeout : ℤ
  pub fail_open : Bool
  pub strip_token : Bool

abbrev second : ℕ
second = 1000000000

abbrev or_default : Str → Str → Str
or_default [] d = d
or_default (c ∷ s) d = c ∷ s

abbrev lower_or : Str → Str → Str
lower_or [] d = d
lower_or (c ∷ s) d = to_lower (c ∷ s)

abbrev positive_or : ℤ → ℕ → ℤ
positive_or (negsuc n) d = pos d
positive_or (pos zero) d = pos d
positive_or (pos (suc n)) d = pos (suc n)

lower_values : Map Str Str → Map Str Str
unfolding insert
lower_values [] = []
lower_values ((claim, header) ∷ m) = (claim, to_lower header) ∷ lower_values m

unfoldable pub apply_defaults : Config → Config
unfolding lower_values
apply_defaults c = record c {
  source = or_default c.source (lit "header");
  header_name = lower_or c.header_name (lit "authorization");
  jwks_refresh_interval = positive_or c.jwks_refresh_interval (5 * 60 * second);
  introspection_timeout = positive_or c.introspection_timeout (2 * second);
  claim_mappings = lower_values c.claim_mappings;
}

-- A secret option, or what its file holds. `read_file` is os.ReadFile.
abbrev secret : (Str → Option Str) → Str → Str → Option Str
secret read_file [] value = some value
secret read_file (c ∷ path) value = do content ← read_file (c ∷ path); some (trim_space content)

unfoldable pub load_secret_files : (Str → Option Str) → Config → Option Config
unfolding trim_space
load_secret_files read_file c = do
  local_secret ← secret read_file c.local_secret_file c.local_secret
  auth_header ← secret read_file c.introspection_auth_header_file c.introspection_auth_header
  some (record c { local_secret = local_secret; introspection_auth_header = auth_header })

abbrev default_algorithm : Str → Str
default_algorithm [] = lit "RS256"
default_algorithm (c ∷ secret) = lit "HS256"

-- The settings of the filter that NewFilter makes, before it fetches the keys.
unfoldable pub prepare : (Str → Option Str) → Config → Option Config
unfolding apply_defaults load_secret_files
prepare read_file cfg = do
  c ← load_secret_files read_file (apply_defaults cfg)
  _ ←
      require
        (not (c.jwks_endpoint == [] && c.local_secret == [] && c.introspection_endpoint == []))
  some (record c { algorithm = or_default c.algorithm (default_algorithm c.local_secret) })
