-- ===== src/Examples/Accepted.antt =====
-- A HyperRoute that the webhook accepts.
use hypergate_engine.Prelude.{false, [], ◌∷◌, List, some, ◌≡◌, refl, pos, list_beq}
use hypergate_engine.Prelude.Text.{lit, cut, trim_space}
use hypergate_engine.Net.{unmap}
use hypergate_engine.Selector.Kinds.{kind_by_name}
use hypergate_engine.Selector.Traffic.{traffic_string}
use hypergate_engine.Selector.Parse.{parse, selector_string}
use hypergate_engine.Selector.Sets.{add_selector, compile, compile_from}
use hypergate_engine.Config.Routing.{MatchConfig}
use hypergate_engine.Config.Parser.{prepare_matches}
use hypergate_engine.Operator.Routes.{
  MatchRule, HyperRouteSpec, Options, entry_of, engine_traffic, check_rule, compile_rule,
  compile_rules, compile_spec,
}
use hypergate_engine.Operator.Routes.Accepted.{prepare_matches-compile_spec}
use hypergate_engine.Examples.Data.{platform}

abbrev rule : MatchRule
rule = record {
  traffic = lit "NorthSouth";
  sources = lit "ip:10.0.0.1" ∷ [];
  destinations = [];
  path_prefix = lit "/a";
  path_regex_pattern = [];
  headers = (lit "X-Team", lit "blue") ∷ [];
}

abbrev spec : HyperRouteSpec
spec = record { priority = pos 1; target_policy = lit "main"; matches = rule ∷ [] }

abbrev no_workloads : Options
no_workloads = record { workloads = false }

abbrev entries : List MatchConfig
entries = entry_of (lit "north_south") rule ∷ []

compile_spec-entries : compile_spec platform no_workloads spec ≡ some entries
unfolding compile_spec compile_rules compile_rule engine_traffic check_rule traffic_string list_beq
    compile compile_from parse kind_by_name cut trim_space add_selector unmap selector_string
compile_spec-entries = refl

prepare_matches-compile_spec_example :
    (cs : List MatchConfig) × (prepare_matches platform false entries ≡ some cs)
prepare_matches-compile_spec_example =
    prepare_matches-compile_spec platform no_workloads spec entries compile_spec-entries
