-- ===== src/Config/Parser.antt =====
-- The checks and defaults of a decoded configuration (ParseBytes of internal/config/parser.go, after
-- yaml.Unmarshal).
pub mod Laws
use hypergate_engine.Prelude.{
  ℕ, Bool, true, false, ◌&&◌, ◌||◌, not, List, [], ◌∷◌, Option, none, some, ℤ, pos, negsuc,
  if◌then◌else◌, ◌==◌, nat_eq, list_eq, ◌>>=◌, ◌>>◌, require, length, all, is_some,
}
use hypergate_engine.Prelude.Text.{Str, lit, to_lower}
use hypergate_engine.Prelude.Maps.{Map, lookup, insert}
use hypergate_engine.Selector.Parse.{Netip}
use hypergate_engine.Config.Limits.{FilterConfig, ChainSettings, validate, is_positive, is_negative}
use hypergate_engine.Config.Routing.{
  Regexp, HeaderMatchConfig, MatchConfig, RouteConfig, RouterConfig, compile_match,
}
use hypergate_engine.Config.Server.{TlsConfig, ServerConfig, apply_defaults}
use hypergate_engine.Config.Redis.{RedisServiceConfig, text_or}

pub record LoggingConfig : Type 0 where
  pub level : Str
  pub format : Str
  pub output_path : Str
  pub development : Bool

pub record IdentityConfig : Type 0 where
  pub enabled : Bool
  pub address : Str
  pub ca_file : Str
  pub server_name : Str
  pub token_file : Str
  pub insecure : Bool

pub record Config : Type 0 where
  pub version : Str
  pub server : ServerConfig
  pub logging : LoggingConfig
  pub chains : Map Str (List FilterConfig)
  pub router : RouterConfig
  pub redis : Map Str RedisServiceConfig
  pub chain_settings : Map Str ChainSettings
  pub identity : IdentityConfig

-- The standard library's regexp.Compile, time.ParseDuration, net/netip and the environment.
pub record Platform : Type 0 where
  pub compile_regexp : Str → Option Regexp
  pub parse_duration : Str → Option ℤ
  pub netip : Netip
  pub getenv : Str → Str

abbrev pub unknown_source_deny : Str
unknown_source_deny = lit "deny"

abbrev pub unknown_source_default : Str
unknown_source_default = lit "default"

module _ (os : Platform) where
  -- An empty pattern compiles to no test.
  abbrev pub optional_regexp : Str → Option Regexp → Option (Option Regexp)
  optional_regexp pattern old =
      if pattern == []
      then some old
      else elim (os.compile_regexp pattern) [ none ↦ none | some re ↦ some (some re) ]

  -- Of two names that are equal in lower case, the later in the order of the map stays.
  unfoldable pub lower_headers :
      Map Str HeaderMatchConfig → Map Str HeaderMatchConfig → Map Str HeaderMatchConfig
  lower_headers [] lowered = lowered
  lower_headers ((k, v) ∷ headers) lowered = lower_headers headers (insert (to_lower k) v lowered)

  unfoldable pub compile_headers : Map Str HeaderMatchConfig → Option (Map Str HeaderMatchConfig)
  compile_headers [] = some []
  compile_headers ((k, v) ∷ headers) = optional_regexp v.regex_pattern v.compiled_regex >>= λ re.
      compile_headers headers >>= λ rest. some ((k, record v { compiled_regex = re }) ∷ rest)

  unfoldable pub prepare_match : Bool → MatchConfig → Option MatchConfig
  unfolding compile_match lower_headers compile_headers
  prepare_match identity_enabled m = do
    compiled ← compile_match os.netip identity_enabled m
    re ← optional_regexp m.path_regex_pattern m.compiled_path_regex
    headers ← compile_headers (lower_headers m.headers [])
    some (record compiled { compiled_path_regex = re; headers = headers })

  unfoldable pub prepare_matches : Bool → List MatchConfig → Option (List MatchConfig)
  unfolding prepare_match
  prepare_matches enabled [] = some []
  prepare_matches enabled (m ∷ ms) =
      prepare_match enabled m >>= λ m'. prepare_matches enabled ms >>= λ ms'. some (m' ∷ ms')

  unfoldable pub prepare_routes : Bool → List RouteConfig → Option (List RouteConfig)
  unfolding prepare_matches
  prepare_routes enabled [] = some []
  prepare_routes enabled (r ∷ rs) = prepare_matches enabled r.matches >>= λ ms.
      prepare_routes enabled rs >>= λ rs'. some (record r { matches = ms } ∷ rs')

  unfoldable pub apply_tls_env_overrides : TlsConfig → TlsConfig
  apply_tls_env_overrides tls =
      let cert = os.getenv (lit "TLS_CERT_FILE") in
      let key = os.getenv (lit "TLS_KEY_FILE") in
      let ca = os.getenv (lit "TLS_CA_FILE") in
      if cert == [] || key == [] then tls else record tls {
        enabled = true;
        cert_file = cert;
        key_file = key;
        ca_file = if ca == [] then tls.ca_file else ca;
        mutual_tls =
            if os.getenv (lit "TLS_MUTUAL_TLS") == lit "true" then true else tls.mutual_tls;
      }

unfoldable pub check_unknown_source : Str → Option Str
check_unknown_source v =
    if v == []
    then some unknown_source_deny
    else if v == unknown_source_deny || v == unknown_source_default
    then some v
    else none

unfoldable pub check_identity : IdentityConfig → Option IdentityConfig
check_identity id =
    if not id.enabled
    then some id
    else if id.address == []
    then none
    else if id.ca_file == [] && not id.insecure
    then none
    else some (record id {
      token_file = text_or id.token_file (lit "/var/run/secrets/hypergate/identity/token");
    })

module _ (parse_duration : Str → Option ℤ) (chains : Map Str (List FilterConfig)) where
  unfoldable pub check_settings : Map Str ChainSettings → Option (Map Str ChainSettings)
  check_settings [] = some []
  check_settings ((name, cs) ∷ rest) =
      require (is_some (lookup name chains))
      >> (validate parse_duration cs >>= λ cs'.
          check_settings rest >>= λ rest'. some ((name, cs') ∷ rest'))

abbrev pub defined_or_empty : Map Str (List FilterConfig) → Str → Bool
defined_or_empty chains name = name == [] || is_some (lookup name chains)

-- Every route has a chain, and every chain that is named is defined.
unfoldable pub validate_chain_references : Config → Bool
validate_chain_references cfg =
    all (λ route. not (route.target_chain == []) && is_some (lookup route.target_chain cfg.chains))
      cfg.router.routes
    && defined_or_empty cfg.chains cfg.router.default_chain
    && defined_or_empty cfg.chains cfg.router.other
    && defined_or_empty cfg.chains cfg.router.default_chains.north_south
    && defined_or_empty cfg.chains cfg.router.default_chains.east_west

module _ (os : Platform) where
  unfoldable pub prepare_server : ServerConfig → Option ServerConfig
  unfolding apply_defaults
  prepare_server s = do
    shutdown ← apply_defaults os.parse_duration s.shutdown
    require (not (is_negative s.trusted_proxy_hops))
    some (record s {
      pool_prewarm_size = if is_positive s.pool_prewarm_size then s.pool_prewarm_size else pos 256;
      initial_header_capacity =
          if is_positive s.initial_header_capacity then s.initial_header_capacity else pos 64;
      health_address = text_or s.health_address (lit ":9003");
      shutdown = shutdown;
      tls = apply_tls_env_overrides os s.tls;
    })

  abbrev prepare_logging : LoggingConfig → LoggingConfig
  prepare_logging l = record l {
    level = text_or l.level (lit "INFO");
    format = text_or l.format (lit "console");
    output_path = text_or l.output_path (lit "stdout");
  }

  -- ParseBytes from the decoded configuration on; `none` is its error.
  unfoldable pub prepare : Config → Option Config
  prepare cfg = do
    require (cfg.version == lit "v1")
    server ← prepare_server cfg.server
    routes ← prepare_routes os cfg.identity.enabled cfg.router.routes
    unknown_source ← check_unknown_source cfg.router.unknown_source
    identity ← check_identity cfg.identity
    settings ← check_settings os.parse_duration cfg.chains cfg.chain_settings
    let ready : Config = record cfg {
      server = server;
      logging = prepare_logging cfg.logging;
      router = record cfg.router { routes = routes; unknown_source = unknown_source };
      identity = identity;
      chain_settings = settings;
    }
    require (validate_chain_references ready)
    some ready
