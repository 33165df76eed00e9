-- ===== src/Config/Server.antt =====
-- The server section (internal/config/server.go).
use hypergate_engine.Prelude.{
  ℕ, ◌*◌, Bool, true, false, not, [], Option, some, ℤ, pos, negsuc, if◌then◌else◌, ◌==◌, nat_eq,
  list_eq, ◌>>=◌, ◌>>◌, require, ltb, ◌≡◌, ◌≤◌, arith,
}
use hypergate_engine.Prelude.Text.{Str}
use hypergate_engine.Config.Limits.{is_negative}

pub record TlsConfig : Type 0 where
  pub enabled : Bool
  pub cert_file : Str
  pub key_file : Str
  pub ca_file : Str
  pub mutual_tls : Bool

pub record ShutdownConfig : Type 0 where
  pub quiet_period : Str
  pub min_delay : Str
  pub max_delay : Str
  pub drain_timeout : Str
  pub quiet_period_duration : ℤ
  pub min_delay_duration : ℤ
  pub max_delay_duration : ℤ
  pub drain_timeout_duration : ℤ

pub record ServerConfig : Type 0 where
  pub address : Str
  pub max_concurrent_streams : ℕ
  pub pool_prewarm_size : ℤ
  pub initial_header_capacity : ℤ
  pub tls : TlsConfig
  pub health_address : Str
  pub pprof_address : Str
  pub trusted_proxy_hops : ℤ
  pub shutdown : ShutdownConfig

-- Durations are nanoseconds.
abbrev pub second : ℕ
second = 1000000000

abbrev default_quiet_period : ℤ
default_quiet_period = pos (2 * second)

abbrev default_min_delay : ℤ
default_min_delay = pos (3 * second)

abbrev default_max_delay : ℤ
default_max_delay = pos (15 * second)

abbrev default_drain_timeout : ℤ
default_drain_timeout = pos (20 * second)

abbrev exceeds : ℤ → ℤ → Bool
exceeds (pos n) (pos m) = ltb m n
exceeds (pos n) (negsuc m) = true
exceeds (negsuc n) (pos m) = false
exceeds (negsuc n) (negsuc m) = ltb n m

-- A round of the loop over the four fields: the default, or a parsed duration that is not negative.
unfoldable pub shutdown_duration : (Str → Option ℤ) → Str → ℤ → Option ℤ
shutdown_duration parse_duration raw default =
    if raw == []
    then some default
    else (do d ← parse_duration raw; require (not (is_negative d)); some d)

-- ShutdownConfig.applyDefaults.
unfoldable pub apply_defaults : (Str → Option ℤ) → ShutdownConfig → Option ShutdownConfig
unfolding shutdown_duration
apply_defaults parse_duration c = do
  quiet_period ← shutdown_duration parse_duration c.quiet_period default_quiet_period
  min_delay ← shutdown_duration parse_duration c.min_delay default_min_delay
  max_delay ← shutdown_duration parse_duration c.max_delay default_max_delay
  drain_timeout ← shutdown_duration parse_duration c.drain_timeout default_drain_timeout
  require (not (exceeds min_delay max_delay))
  some (record c {
    quiet_period_duration = quiet_period;
    min_delay_duration = min_delay;
    max_delay_duration = max_delay;
    drain_timeout_duration = drain_timeout;
  })

abbrev pub as_ℕ : ℤ → ℕ
as_ℕ (pos n) = n
as_ℕ (negsuc n) = 0

-- Shutdown timings that load are not negative, and the shortest delay does not exceed the longest.
pub apply_defaults-ordered :
    (parse_duration : Str → Option ℤ) (s : ShutdownConfig) {c : ShutdownConfig}
    → apply_defaults parse_duration s ≡ some c
    → (is_negative c.quiet_period_duration ≡ false)
      × (is_negative c.drain_timeout_duration ≡ false)
      × (is_negative c.min_delay_duration ≡ false)
      × (is_negative c.max_delay_duration ≡ false)
      × (as_ℕ c.min_delay_duration ≤ as_ℕ c.max_delay_duration)
unfolding apply_defaults
apply_defaults-ordered parse_duration s h = ground arith
