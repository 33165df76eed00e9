-- ===== src/Config/Redis.antt =====
-- A Redis service and its defaults (internal/config/redis.go).
use hypergate_engine.Prelude.{
  Bool, ◌||◌, [], Option, some, ℤ, pos, if◌then◌else◌, ◌==◌, nat_eq, list_eq, ◌>>=◌, ◌>>◌, require,
}
use hypergate_engine.Prelude.Text.{Str, lit}
use hypergate_engine.Config.Limits.{is_zero}

pub record RedisServiceConfig : Type 0 where
  pub type : Str
  pub socket_type : Str
  pub url : Str
  pub pool_size : ℤ
  pub auth : Str
  pub tls : Bool
  pub tls_client_cert : Str
  pub tls_client_key : Str
  pub tls_cacert : Str
  pub tls_skip_hostname_verification : Bool
  pub pipeline_window : Str
  pub pipeline_window_duration : ℤ
  pub cluster_pipeline_parallelism : ℤ
  pub sentinel_auth : Str
  pub active_conn_health_check : Bool
  pub timeout : Str
  pub timeout_duration : ℤ
  pub on_empty_behavior : Str
  pub wait_timeout : Str
  pub wait_timeout_duration : ℤ
  pub startup_initial_interval : Str
  pub startup_initial_interval_duration : ℤ
  pub startup_max_interval : Str
  pub startup_max_interval_duration : ℤ
  pub startup_max_elapsed_time : Str
  pub startup_max_elapsed_time_duration : ℤ

abbrev pub text_or : Str → Str → Str
text_or v default = if v == [] then default else v

abbrev number_or : ℤ → ℤ → ℤ
number_or v default = if is_zero v then default else v

unfoldable pub fill_redis : RedisServiceConfig → RedisServiceConfig
fill_redis c = record c {
  type = text_or c.type (lit "SINGLE");
  socket_type = text_or c.socket_type (lit "tcp");
  url = text_or c.url (lit "localhost:6379");
  pool_size = number_or c.pool_size (pos 10);
  pipeline_window = text_or c.pipeline_window (lit "0s");
  cluster_pipeline_parallelism = number_or c.cluster_pipeline_parallelism (pos 1);
  timeout = text_or c.timeout (lit "10s");
  on_empty_behavior = text_or c.on_empty_behavior (lit "WAIT");
  wait_timeout = text_or c.wait_timeout (lit "1s");
  startup_initial_interval = text_or c.startup_initial_interval (lit "1s");
  startup_max_interval = text_or c.startup_max_interval (lit "30s");
  startup_max_elapsed_time = text_or c.startup_max_elapsed_time (lit "0s");
}

abbrev pub known_type : Str → Bool
known_type t = t == lit "SINGLE" || t == lit "CLUSTER" || t == lit "SENTINEL"

abbrev pub known_socket : Str → Bool
known_socket t = t == lit "tcp" || t == lit "unix"

-- applyRedisDefaults; `parse_duration` is time.ParseDuration.
unfoldable pub apply_redis_defaults :
    (Str → Option ℤ) → RedisServiceConfig → Option RedisServiceConfig
unfolding fill_redis
apply_redis_defaults parse_duration cfg = do
  let c = fill_redis cfg
  require (known_type c.type)
  require (known_socket c.socket_type)
  require (c.on_empty_behavior == lit "WAIT")
  pipeline_window ← parse_duration c.pipeline_window
  timeout ← parse_duration c.timeout
  wait_timeout ← parse_duration c.wait_timeout
  initial ← parse_duration c.startup_initial_interval
  max_interval ← parse_duration c.startup_max_interval
  max_elapsed ← parse_duration c.startup_max_elapsed_time
  some (record c {
    pipeline_window_duration = pipeline_window;
    timeout_duration = timeout;
    wait_timeout_duration = wait_timeout;
    startup_initial_interval_duration = initial;
    startup_max_interval_duration = max_interval;
    startup_max_elapsed_time_duration = max_elapsed;
  })
