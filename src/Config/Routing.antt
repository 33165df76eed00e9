-- ===== src/Config/Routing.antt =====
-- Routing rules and their compilation (internal/config/routing.go). A compiled regular expression
-- is the test that its MatchString makes.
use hypergate_engine.Prelude.{Bool, List, Option, none, some}
use hypergate_engine.Prelude.Text.{Str}
use hypergate_engine.Prelude.Maps.{Map}
use hypergate_engine.Selector.Traffic.{Traffic, parse_traffic}
use hypergate_engine.Selector.Kinds.{source, destination}
use hypergate_engine.Selector.Parse.{Netip}
use hypergate_engine.Selector.Sets.{Set, compile}

abbrev pub Regexp : Type 0
Regexp = Str → Bool

pub record HeaderMatchConfig : Type 0 where
  pub exact : Str
  pub regex_pattern : Str
  pub compiled_regex : Option Regexp

pub record MatchConfig : Type 0 where
  pub traffic : Str
  pub sources : List Str
  pub destinations : List Str
  pub compiled_traffic : Traffic
  pub compiled_sources : Option Set
  pub compiled_destinations : Option Set
  pub path_prefix : Str
  pub path_regex_pattern : Str
  pub compiled_path_regex : Option Regexp
  pub headers : Map Str HeaderMatchConfig

pub record RouteConfig : Type 0 where
  pub name : Str
  pub matches : List MatchConfig
  pub target_chain : Str

pub record DefaultChainsConfig : Type 0 where
  pub north_south : Str
  pub east_west : Str

pub record RouterConfig : Type 0 where
  pub routes : List RouteConfig
  pub default_chains : DefaultChainsConfig
  pub default_chain : Str
  pub other : Str
  pub unknown_source : Str

-- MatchConfig.Compile; `none` is its error.
unfoldable pub compile_match : Netip → Bool → MatchConfig → Option MatchConfig
compile_match net allow_workloads m = elim (parse_traffic m.traffic) [
  | none ↦ none
  | some t ↦ elim (compile net m.sources source allow_workloads) [
    | none ↦ none
    | some src ↦ elim (compile net m.destinations destination allow_workloads) [
      | none ↦ none
      | some dst ↦
          some
            (record m { compiled_traffic = t; compiled_sources = src; compiled_destinations = dst })
    ]
  ]
]
