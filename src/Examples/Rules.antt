-- ===== src/Examples/Rules.antt =====
-- Selector lists, match rules and routes.
use hypergate_engine.Prelude.{
  false, List, [], ◌∷◌, Option, none, some, ◌≡◌, refl, nat_eq, list_eq, list_beq,
}
use hypergate_engine.Prelude.Text.{Str, lit, cut, trim_space, equal_fold}
use hypergate_engine.Net.{unmap}
use hypergate_engine.Selector.Kinds.{source, kind_by_name}
use hypergate_engine.Selector.Parse.{parse, selector_string}
use hypergate_engine.Selector.Sets.{add_selector, Set, empty_set, compile, compile_from}
use hypergate_engine.Selector.Traffic.{Traffic, parse_traffic}
use hypergate_engine.Config.Routing.{MatchConfig, RouteConfig, HeaderMatchConfig, compile_match}
use hypergate_engine.Engine.Context.{RequestContext}
use hypergate_engine.Router.{matches}
use hypergate_engine.Router.Compiled.{matches-any_respelled}
use hypergate_engine.Examples.Data.{netip, addr_1, from_1, under_a, request}

abbrev list_1 : List Str
list_1 = lit "ip:10.0.0.1" ∷ []

abbrev compiled_1 : Option Set
compiled_1 = some (record empty_set { addrs = addr_1 ∷ []; raw = list_1 })

compile_1 : compile netip list_1 source false ≡ some compiled_1
unfolding compile compile_from list_beq parse kind_by_name cut trim_space add_selector unmap
    selector_string
compile_1 = refl

abbrev request_1 : RequestContext
request_1 = record request { client_addr = addr_1 }

abbrev compiled_match : MatchConfig
compiled_match = record from_1 {
  compiled_traffic = Traffic.north_south;
  compiled_sources = compiled_1;
}

-- The class " any".
abbrev respelled : MatchConfig
respelled = record under_a { traffic = lit " any"; compiled_traffic = Traffic.any }

matches-any_respelled_example : matches respelled request_1 ≡ false
unfolding compile_match compile parse_traffic list_beq equal_fold
matches-any_respelled_example =
    matches-any_respelled netip false respelled request_1 {m' = respelled} refl refl (λ e. cc) refl

abbrev present : HeaderMatchConfig
present = record { exact = lit "*"; regex_pattern = []; compiled_regex = none }

abbrev route_a : RouteConfig
route_a = record { name = lit "a"; matches = under_a ∷ []; target_chain = lit "main" }

abbrev other_request : RequestContext
other_request = record request { path = lit "/b" }
