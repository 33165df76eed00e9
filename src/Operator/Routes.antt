-- ===== src/Operator/Routes.antt =====
-- From HyperRoutes to the engine's match entries (hyper-operator/internal/routes/routes.go, with the
-- specs of hyper-operator/api/v1alpha1). `none` is a joined error that is not empty.
pub mod Accepted
use hypergate_engine.Prelude.{
  ℤ, Bool, true, false, ◌||◌, ◌&&◌, List, [], ◌∷◌, Option, none, some, ◌>>=◌, ◌>>◌, require, not,
  is_some, if◌then◌else◌, ◌==◌, nat_eq, list_eq, length,
}
use hypergate_engine.Prelude.Text.{Str, lit, to_lower}
use hypergate_engine.Prelude.Maps.{Map, lookup, insert}
use hypergate_engine.Selector.Kinds.{source, destination}
use hypergate_engine.Selector.Traffic.{Traffic, traffic_string}
use hypergate_engine.Selector.Sets.{compile}
use hypergate_engine.Config.Routing.{HeaderMatchConfig, MatchConfig, DefaultChainsConfig}
use hypergate_engine.Config.Parser.{Platform, unknown_source_deny, unknown_source_default}

pub record MatchRule : Type 0 where
  pub traffic : Str
  pub sources : List Str
  pub destinations : List Str
  pub path_prefix : Str
  pub path_regex_pattern : Str
  pub headers : Map Str Str

pub record HyperRouteSpec : Type 0 where
  pub priority : ℤ
  pub target_policy : Str
  pub matches : List MatchRule

-- The fields that choose the fallbacks.
pub record HyperConfigSpec : Type 0 where
  pub default_chain : Str
  pub default_chains : Option DefaultChainsConfig
  pub unknown_source : Str

pub record Options : Type 0 where
  pub workloads : Bool

-- Any and empty are omitted.
unfoldable pub engine_traffic : Str → Option Str
unfolding traffic_string
engine_traffic t =
    if t == [] || t == lit "Any"
    then some []
    else if t == lit "NorthSouth"
    then some (traffic_string Traffic.north_south)
    else if t == lit "EastWest"
    then some (traffic_string Traffic.east_west)
    else none

abbrev exactly : Str → HeaderMatchConfig
exactly v = record { exact = v; regex_pattern = []; compiled_regex = none }

unfoldable pub lower_exact : Map Str Str → Map Str HeaderMatchConfig → Map Str HeaderMatchConfig
unfolding to_lower insert
lower_exact [] headers = headers
lower_exact ((k, v) ∷ m) headers = lower_exact m (insert (to_lower k) (exactly v) headers)

abbrev pub entry_of : Str → MatchRule → MatchConfig
entry_of traffic m = record {
  traffic = traffic;
  sources = m.sources;
  destinations = m.destinations;
  compiled_traffic = Traffic.any;
  compiled_sources = none;
  compiled_destinations = none;
  path_prefix = m.path_prefix;
  path_regex_pattern = m.path_regex_pattern;
  compiled_path_regex = none;
  headers = lower_exact m.headers [];
}

module _ (os : Platform) (opts : Options) where
  unfoldable pub check_rule : MatchRule → Bool
  unfolding compile
  check_rule m =
      is_some (compile os.netip m.sources source opts.workloads)
      && is_some (compile os.netip m.destinations destination opts.workloads)
      && (m.path_regex_pattern == [] || is_some (os.compile_regexp m.path_regex_pattern))

  unfoldable pub compile_rule : MatchRule → Option MatchConfig
  unfolding engine_traffic check_rule lower_exact
  compile_rule m =
      engine_traffic m.traffic >>= λ traffic. require (check_rule m) >> some (entry_of traffic m)

  unfoldable pub compile_rules : List MatchRule → Option (List MatchConfig)
  unfolding compile_rule
  compile_rules [] = some []
  compile_rules (m ∷ ms) = compile_rule m >>= λ m'. compile_rules ms >>= λ ms'. some (m' ∷ ms')

  unfoldable pub compile_spec : HyperRouteSpec → Option (List MatchConfig)
  unfolding compile_rules
  compile_spec spec =
      require (not (spec.target_policy == []) && not (length spec.matches == 0))
      >> compile_rules spec.matches

  unfoldable pub validate : HyperRouteSpec → Bool
  unfolding compile_spec
  validate spec = is_some (compile_spec spec)

abbrev chains_or_none : Option DefaultChainsConfig → DefaultChainsConfig
chains_or_none none = record { north_south = []; east_west = [] }
chains_or_none (some dc) = dc

unfoldable pub default_chains : HyperConfigSpec → DefaultChainsConfig
default_chains spec = chains_or_none spec.default_chains

unfoldable pub unknown_source : HyperConfigSpec → Str
unknown_source spec =
    if spec.unknown_source == lit "Default" then unknown_source_default else unknown_source_deny

abbrev add_field : Str → Str → Map Str Str → Map Str Str
add_field field name refs =
    if name == [] || is_some (lookup name refs) then refs else insert name field refs

unfoldable pub referenced_chains : HyperConfigSpec → Map Str Str
unfolding default_chains lookup insert
referenced_chains spec =
    let dc = default_chains spec in
    add_field (lit "defaultChains.eastWest") dc.east_west (
      add_field (lit "defaultChains.northSouth") dc.north_south
        (add_field (lit "defaultChain") spec.default_chain []))
