-- ===== src/Examples/Policies.antt =====
-- A configuration whose second filter does not compile, and one that is published.
use hypergate_engine.Prelude.{
  ℕ, true, false, [], ◌∷◌, none, some, if◌then◌else◌, ◌==◌, list_eq, nat_eq, list_beq, ◌≢◌, refl,
  pos, eq_iff, arith,
}
use hypergate_engine.Prelude.Text.{Str, lit}
use hypergate_engine.Prelude.Maps.{lookup, insert}
use hypergate_engine.Config.Limits.{FilterConfig}
use hypergate_engine.Config.Parser.{Config}
use hypergate_engine.Engine.Registry.{swap, new_snapshot}
use hypergate_engine.Policy.Clients.{Dialer, connect}
use hypergate_engine.Policy.Filters.{Factory, build_chains, build_chain, place, filter_key}
use hypergate_engine.Policy.Manager.{
  Manager, apply, unused_filters, unused_redis, start_checks, stop_checks,
}
use hypergate_engine.Policy.Manager.Failure.{IsRolledBack, apply-failed}
use hypergate_engine.Prelude.Maps.{delete}
use hypergate_engine.Selector.Sets.{member}
use hypergate_engine.Config.Redis.{RedisServiceConfig}
use hypergate_engine.Policy.Clients.{Entry, obtain_client}
use hypergate_engine.Policy.Clients.Owned.{IsOwned}
use hypergate_engine.Policy.Manager.Retiring.{apply-retired_unused, apply-IsOwned}
use hypergate_engine.Examples.Data.{counting, config, snapshot}

abbrev dialer : Dialer
dialer = record { deep_equal = λ c e. true; new_redis = λ t name c. true }

-- Knows the type "count" only.
abbrev factory : Factory ℕ
factory = record {
  marshal = λ options. some [];
  new_filter = λ type options clients. if type == lit "count" then some counting else none;
}

abbrev manager : Manager ℕ
manager = record {
  registry = record { current = snapshot };
  active = none;
  reload_dial_timeout = pos 30000000000;
  redis = [];
  filters = [];
  ready = false;
  checked = [];
  resources = record { next_client = 0; next_filter = 0; closed_clients = []; closed_filters = [] };
}

abbrev filter_of : Str → FilterConfig
filter_of type = record { name = []; audit = false; type = type; options = [] }

abbrev broken_config : Config
broken_config = record config {
  chains = (lit "main", filter_of (lit "count") ∷ filter_of (lit "unknown") ∷ []) ∷ [];
}

apply-failed_example : IsRolledBack manager (apply dialer factory manager broken_config).0
unfolding apply connect build_chains build_chain place filter_key lookup list_beq insert
apply-failed_example = apply-failed dialer factory manager broken_config refl

abbrev published : Manager ℕ
published = record manager {
  registry = record { current = new_snapshot (some config) ((lit "main", []) ∷ []) };
  active = some config;
  ready = true;
}

abbrev service : RedisServiceConfig
service = record {
  type = lit "SINGLE";
  socket_type = lit "tcp";
  url = lit "redis:6379";
  pool_size = pos 10;
  auth = [];
  tls = false;
  tls_client_cert = [];
  tls_client_key = [];
  tls_cacert = [];
  tls_skip_hostname_verification = false;
  pipeline_window = [];
  pipeline_window_duration = pos 0;
  cluster_pipeline_parallelism = pos 1;
  sentinel_auth = [];
  active_conn_health_check = false;
  timeout = [];
  timeout_duration = pos 0;
  on_empty_behavior = lit "WAIT";
  wait_timeout = [];
  wait_timeout_duration = pos 0;
  startup_initial_interval = [];
  startup_initial_interval_duration = pos 0;
  startup_max_interval = [];
  startup_max_interval_duration = pos 0;
  startup_max_elapsed_time = [];
  startup_max_elapsed_time_duration = pos 0;
}

-- Every service counts as changed.
abbrev redialer : Dialer
redialer = record { deep_equal = λ c e. false; new_redis = λ t name c. true }

abbrev first_client : Entry
first_client = record { id = 0; cfg = service }

abbrev second_client : Entry
second_client = record { id = 1; cfg = service }

abbrev connected : Manager ℕ
connected = record manager {
  redis = (lit "cache", first_client) ∷ [];
  resources = record manager.resources { next_client = 1 };
}

abbrev redis_config : Config
redis_config = record config { redis = (lit "cache", service) ∷ [] }

connected-IsOwned : IsOwned connected.redis 1
unfolding lookup list_beq
connected-IsOwned = record {
  listed = (refl, tt);
  bounded = λ n e h. ground arith;
  distinct = λ n k e f g h q. ground (arith, eq_iff (lit "cache") n, eq_iff (lit "cache") k);
}

abbrev reconnected : Manager ℕ
reconnected = record connected {
  registry = record { current = new_snapshot (some redis_config) ((lit "main", []) ∷ []) };
  active = some redis_config;
  ready = true;
  redis = (lit "cache", second_client) ∷ [];
  resources = record connected.resources { next_client = 2 };
}

apply-retired_unused_example : second_client.id ≢ first_client.id
unfolding apply connect obtain_client build_chains build_chain lookup swap start_checks stop_checks
    unused_filters unused_redis insert delete member list_beq
apply-retired_unused_example =
    apply-retired_unused redialer factory connected connected-IsOwned redis_config
      {m' = reconnected} {previous = snapshot}
      {retired = record { retired_filters = []; retired_redis = 0 ∷ [] }} 0 (lit "cache")
      second_client refl refl refl

apply-IsOwned_example :
    IsOwned
      (apply redialer factory connected redis_config).0.redis
      (apply redialer factory connected redis_config).0.resources.next_client
apply-IsOwned_example = apply-IsOwned redialer factory connected connected-IsOwned redis_config
