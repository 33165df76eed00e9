-- ===== src/Examples/Configs.antt =====
-- A configuration that loads.
use hypergate_engine.Prelude.{false, some, ◌≡◌, refl, pos, list_beq}
use hypergate_engine.Prelude.Text.{lit}
use hypergate_engine.Prelude.Maps.{lookup}
use hypergate_engine.Selector.Sets.{compile}
use hypergate_engine.Selector.Traffic.{parse_traffic}
use hypergate_engine.Config.Limits.{validate}
use hypergate_engine.Config.Server.{ShutdownConfig}
use hypergate_engine.Config.Parser.{
  Config, prepare, prepare_server, prepare_routes, check_unknown_source, check_identity,
  check_settings, validate_chain_references, apply_tls_env_overrides,
}
use hypergate_engine.Config.Parser.Laws.{IsDefined, prepare-route_with}
use hypergate_engine.Router.{route_with}
use hypergate_engine.Examples.Data.{platform, config, shutdown, request}

abbrev timings : ShutdownConfig
timings = record shutdown {
  quiet_period_duration = pos 2000000000;
  min_delay_duration = pos 1000000000;
  max_delay_duration = pos 15000000000;
  drain_timeout_duration = pos 20000000000;
}

abbrev loaded : Config
loaded = record config {
  server = record config.server {
    pool_prewarm_size = pos 256;
    initial_header_capacity = pos 64;
    health_address = lit ":9003";
    shutdown = timings;
  };
  logging = record {
    level = lit "INFO";
    format = lit "console";
    output_path = lit "stdout";
    development = false;
  };
  router = record config.router { unknown_source = lit "deny" };
}

prepare_config : prepare platform config ≡ some loaded
unfolding prepare list_beq prepare_server prepare_routes parse_traffic compile check_unknown_source
    check_identity check_settings lookup validate validate_chain_references apply_tls_env_overrides
prepare_config = refl

prepare-route_with_example : IsDefined loaded (route_with loaded.router request).1
prepare-route_with_example = prepare-route_with platform config request {c = loaded} prepare_config
