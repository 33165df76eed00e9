-- ===== src/Examples/Data.antt =====
-- The requests, filters and configurations of the examples. The world counts the runs of filters.
use hypergate_engine.Prelude.{
  ℕ, suc, true, false, [], ◌∷◌, Option, none, some, pos, if◌then◌else◌, ◌==◌, nat_eq, list_eq,
}
use hypergate_engine.Prelude.Text.{Str, lit}
use hypergate_engine.Net.{Addr}
use hypergate_engine.Selector.Traffic.{Traffic}
use hypergate_engine.Selector.Parse.{Netip}
use hypergate_engine.Config.Limits.{ChainSettings, no_settings}
use hypergate_engine.Config.Routing.{MatchConfig, RouterConfig}
use hypergate_engine.Config.Server.{ShutdownConfig}
use hypergate_engine.Config.Parser.{Config, Platform}
use hypergate_engine.Engine.Context.{RequestContext, new_context}
use hypergate_engine.Engine.Filter.{Filter}
use hypergate_engine.Engine.Registry.{Snapshot}
use hypergate_engine.Grpc.Handlers.{Server, Stream}
use hypergate_engine.Grpc.Routing.{StreamState, opened}

-- A filter that only counts its runs.
abbrev pub counting : Filter ℕ
counting =
    Filter.plain (record {
      phases = none;
      execute = λ c n. record { context = c; world = suc n; error = none };
    })

abbrev pub failing : Filter ℕ
failing = Filter.plain (record {
  phases = none;
  execute = λ c n. record { context = c; world = suc n; error = some (lit "redis") };
})

abbrev refused : RequestContext → RequestContext
refused c = record c {
  verdict = record c.verdict { blocked = true; response_status = 403; response_body = lit "no" };
}

-- A filter that denies the request and edits its path.
abbrev pub denying : Filter ℕ
denying = Filter.plain (record {
  phases = none;
  execute = λ c n. record {
    context = refused (record c { path = lit "/denied" });
    world = suc n;
    error = none;
  };
})

-- An unblocked and a blocked request.
abbrev pub request : RequestContext
request = record new_context { path = lit "/a"; traffic = Traffic.north_south }

abbrev pub blocked_request : RequestContext
blocked_request = refused request

-- Two addresses that the examples' net/netip knows.
abbrev pub addr_1 : Addr
addr_1 = Addr.v4 0x0a000001

abbrev pub parse_addr : Str → Option Addr
parse_addr s = if s == lit "10.0.0.1" then some addr_1 else none

abbrev pub netip : Netip
netip = record {
  parse_addr = parse_addr;
  parse_prefix = λ s. none;
  parse_addr_port = λ s. none;
  addr_string = λ a. lit "10.0.0.1";
  prefix_string = λ p. lit "10.0.0.0/8";
}

abbrev pub platform : Platform
platform = record {
  compile_regexp = λ s. none;
  parse_duration = λ s. if s == lit "1s" then some (pos 1000000000) else none;
  netip = netip;
  getenv = λ s. [];
}

-- Requests from 10.0.0.1.
abbrev pub from_1 : MatchConfig
from_1 = record {
  traffic = lit "north-south";
  sources = lit "ip:10.0.0.1" ∷ [];
  destinations = [];
  compiled_traffic = Traffic.any;
  compiled_sources = none;
  compiled_destinations = none;
  path_prefix = [];
  path_regex_pattern = [];
  compiled_path_regex = none;
  headers = [];
}

-- Requests under /a.
abbrev pub under_a : MatchConfig
under_a = record from_1 {
  sources = [];
  path_prefix = lit "/a";
  compiled_traffic = Traffic.north_south;
}

abbrev pub router : RouterConfig
router = record {
  routes = record { name = lit "a"; matches = under_a ∷ []; target_chain = lit "main" } ∷ [];
  default_chains = record { north_south = []; east_west = [] };
  default_chain = lit "main";
  other = [];
  unknown_source = [];
}

abbrev pub shutdown : ShutdownConfig
shutdown = record {
  quiet_period = [];
  min_delay = lit "1s";
  max_delay = [];
  drain_timeout = [];
  quiet_period_duration = pos 0;
  min_delay_duration = pos 0;
  max_delay_duration = pos 0;
  drain_timeout_duration = pos 0;
}

-- At most one request at a time.
abbrev pub one_at_a_time : ChainSettings
one_at_a_time = record no_settings {
  max_concurrency = pos 1;
  on_timeout = lit "deny";
  on_overload = lit "deny";
}

abbrev pub config : Config
config = record {
  version = lit "v1";
  server = record {
    address = [];
    max_concurrent_streams = 0;
    pool_prewarm_size = pos 0;
    initial_header_capacity = pos 0;
    tls = record {
      enabled = false;
      cert_file = [];
      key_file = [];
      ca_file = [];
      mutual_tls = false;
    };
    health_address = [];
    pprof_address = [];
    trusted_proxy_hops = pos 0;
    shutdown = shutdown;
  };
  logging = record { level = []; format = []; output_path = []; development = false };
  chains = (lit "main", []) ∷ [];
  router = router;
  redis = [];
  chain_settings = (lit "main", one_at_a_time) ∷ [];
  identity = record {
    enabled = false;
    address = [];
    ca_file = [];
    server_name = [];
    token_file = [];
    insecure = false;
  };
}

abbrev pub snapshot : Snapshot ℕ
snapshot = record {
  config = some config;
  chains = (lit "main", counting ∷ []) ∷ [];
  filter_names = [];
}

abbrev pub server : Server ℕ
server = record { netip = netip; identity = none; expired = λ c n. false }

-- A stream before its first message.
abbrev pub stream : Stream ℕ
stream = record { state = opened snapshot; ctx = request; limiter = []; world = 0 }

-- A stream that has been routed.
abbrev pub routed : StreamState ℕ
routed = record { snap = snapshot; resolved = true; chain = counting ∷ []; name = lit "main" }
