-- ===== src/Router.antt =====
-- Choosing the chain of a request (internal/router/matcher.go).
pub mod Laws
pub mod Compiled
use hypergate_engine.Prelude.{
  ℕ, Bool, true, false, ◌&&◌, ◌||◌, not, List, [], ◌∷◌, Option, none, some, if◌then◌else◌, ◌==◌,
  nat_eq, list_eq, length, all, any, is_none, is_some,
}
use hypergate_engine.Prelude.Text.{Str, lit, has_prefix, equal_fold}
use hypergate_engine.Prelude.Maps.{Map, lookup}
use hypergate_engine.Selector.Traffic.{Traffic, traffic_eq}
use hypergate_engine.Selector.Sets.{Set, match_source, match_destination}
use hypergate_engine.Config.Routing.{
  Regexp, HeaderMatchConfig, MatchConfig, RouteConfig, RouterConfig,
}
use hypergate_engine.Engine.Context.{RequestContext}

abbrev non_empty : Str → Str → Str
non_empty name otherwise = if name == [] then otherwise else name

abbrev class_default : RouterConfig → Traffic → Str → Str
class_default rc Traffic.north_south otherwise = non_empty rc.default_chains.north_south otherwise
class_default rc Traffic.east_west otherwise = non_empty rc.default_chains.east_west otherwise
class_default rc Traffic.any otherwise = otherwise

-- The fallback for the traffic class, then default_chain, then other.
unfoldable pub default_chain : RouterConfig → Traffic → Str
default_chain rc traffic = class_default rc traffic (non_empty rc.default_chain rc.other)

unfoldable pub traffic_matches : MatchConfig → Traffic → Bool
unfolding equal_fold
traffic_matches match traffic =
    if not (match.compiled_traffic == Traffic.any)
    then match.compiled_traffic == traffic
    else match.traffic == [] || equal_fold match.traffic (lit "any")

abbrev regex_allows : Option Regexp → Str → Bool
regex_allows none s = true
regex_allows (some re) s = re s

-- One round of the loop over a match's headers.
abbrev header_allows : HeaderMatchConfig → Option Str → Bool
header_allows rule none = false
header_allows rule (some value) =
    rule.exact == lit "*"
    || not (not (rule.exact == []) && not (value == rule.exact))
      && regex_allows rule.compiled_regex value

unfoldable pub header_matches : Map Str Str → Str × HeaderMatchConfig → Bool
header_matches headers (key, rule) = header_allows rule (lookup key headers)

unfoldable pub external_ok : RequestContext → Bool
external_ok ctx = is_none ctx.source_workload && not (ctx.traffic == Traffic.east_west)

unfoldable pub matches : MatchConfig → RequestContext → Bool
unfolding traffic_matches header_matches external_ok has_prefix
matches m ctx =
    if not (traffic_matches m ctx.traffic)
    then false
    else if not (m.path_prefix == []) && not (has_prefix ctx.path m.path_prefix)
    then false
    else if not (regex_allows m.compiled_path_regex ctx.path)
    then false
    else if not (length m.sources == 0) && is_none m.compiled_sources
        || not (length m.destinations == 0) && is_none m.compiled_destinations
    then false
    else if not
        (match_source m.compiled_sources ctx.client_addr ctx.source_workload (external_ok ctx))
    then false
    else if not (
        match_destination m.compiled_destinations ctx.destination_addr ctx.host
          ctx.destination_services)
    then false
    else all (header_matches ctx.headers) m.headers

-- The first route with a match, in the order of the configuration.
unfoldable pub first_route : List RouteConfig → RequestContext → Option RouteConfig
unfolding matches
first_route [] ctx = none
first_route (route ∷ routes) ctx =
    if any (λ m. matches m ctx) route.matches then some route else first_route routes ctx

abbrev routed : Option RouteConfig → RouterConfig → RequestContext → RequestContext × Str
routed (some route) rc ctx = (record ctx { matched_route = route.name }, route.target_chain)
routed none rc ctx = (ctx, default_chain rc ctx.traffic)

-- The chain, and the context with the name of the route that matched.
unfoldable pub route_with : RouterConfig → RequestContext → RequestContext × Str
unfolding first_route default_chain
route_with rc ctx = routed (first_route rc.routes ctx) rc ctx

-- Route, on the configuration that is active.
unfoldable pub route : Option RouterConfig → RequestContext → RequestContext × Str
unfolding route_with
route none ctx = (ctx, [])
route (some rc) ctx = route_with rc ctx
