-- ===== src/Router/Compiled.antt =====
-- A match that was compiled from the configuration, as the router applies it.
use mathlib.Core.List.{Perm, Permᴰ}
use mathlib.Core.Logic.{∥∥₁_elim}
use mathlib.Core.Bool.{Bool-set}
use hypergate_engine.Prelude.{
  Bool, false, ◌&&◌, ◌||◌, List, [], Option, none, some, ◌==◌, eq_iff, nat_eq, list_eq, length, all,
  any, ◌≡◌, ◌≢◌, refl, arith, ap, ◌∙◌,
}
use hypergate_engine.Prelude.Text.{Str, lit, has_prefix, equal_fold}
use hypergate_engine.Prelude.Maps.{Map}
use hypergate_engine.Selector.Traffic.{Traffic, traffic_eq, parse_traffic}
use hypergate_engine.Selector.Kinds.{source, destination}
use hypergate_engine.Selector.Parse.{Netip}
use hypergate_engine.Selector.Sets.{Set, compile}
use hypergate_engine.Selector.Sets.Compiled.{
  entry, compile-match_source, compile-match_destination, compile-nil,
}
use hypergate_engine.Selector.Sets.Meaning.{selects_source, selects_destination}
use hypergate_engine.Config.Routing.{HeaderMatchConfig, MatchConfig, compile_match}
use hypergate_engine.Engine.Context.{RequestContext}
use hypergate_engine.Router.{matches, traffic_matches, header_matches, external_ok, regex_allows}

-- The parts of a compiled match.
compile_match-parts :
    (net : Netip) (allow : Bool) (m : MatchConfig) {m' : MatchConfig}
    → compile_match net allow m ≡ some m'
    → (t : Traffic) × (src : Option Set) × (dst : Option Set) × (parse_traffic m.traffic ≡ some t)
      × (compile net m.sources source allow ≡ some src)
      × (compile net m.destinations destination allow ≡ some dst)
      × (m'
          ≡ record m { compiled_traffic = t; compiled_sources = src; compiled_destinations = dst })
unfolding compile_match
compile_match-parts net allow m h = ground arith

-- What the traffic field of a match lets through.
abbrev class_of : Str → Option Traffic → Traffic → Bool
class_of v none traffic = false
class_of v (some Traffic.any) traffic = v == [] || equal_fold v (lit "any")
class_of v (some Traffic.north_south) traffic = traffic == Traffic.north_south
class_of v (some Traffic.east_west) traffic = traffic == Traffic.east_west

abbrev pub class_allows : Str → Traffic → Bool
class_allows v traffic = class_of v (parse_traffic v) traffic

abbrev pub path_allows : MatchConfig → Str → Bool
path_allows m path =
    (m.path_prefix == [] || has_prefix path m.path_prefix)
    && regex_allows m.compiled_path_regex path

pub matches-compile_match :
    (net : Netip) (allow : Bool) (m : MatchConfig) (ctx : RequestContext) {m' : MatchConfig}
    → compile_match net allow m ≡ some m'
    → matches m' ctx ≡ (
        class_allows m.traffic ctx.traffic
        && path_allows m ctx.path
        && (length m.sources == 0
            || any
                (entry net source
                  (λ sel. selects_source sel ctx.client_addr ctx.source_workload (external_ok ctx)))
                m.sources)
        && (length m.destinations == 0
            || any
                (entry net destination (λ sel.
                  selects_destination sel ctx.destination_addr ctx.host ctx.destination_services))
                m.destinations)
        && all (header_matches ctx.headers) m.headers)
unfolding matches
matches-compile_match net allow m ctx {m'} h =
    let (t, src, dst, et, es, ed, em) = compile_match-parts net allow m h in
    rw em (
      ground (
        arith,
        et,
        compile-nil net source allow m.sources es,
        compile-nil net destination allow m.destinations ed,
        compile-match_source net allow m.sources ctx.client_addr ctx.source_workload
            (external_ok ctx) es,
        compile-match_destination net allow m.destinations ctx.destination_addr ctx.host
            ctx.destination_services ed,
      ))

-- A class that is spelled with spaces or separators, such as ` any` or `a-n-y`, is accepted as "any"
-- when the configuration is compiled, and then matches no request.
pub matches-any_respelled :
    (net : Netip) (allow : Bool) (m : MatchConfig) (ctx : RequestContext) {m' : MatchConfig}
    → compile_match net allow m ≡ some m'
    → parse_traffic m.traffic ≡ some Traffic.any
    → m.traffic ≢ []
    → equal_fold m.traffic (lit "any") ≡ false
    → matches m' ctx ≡ false
matches-any_respelled net allow m ctx {m'} h p nonempty folded =
    ground (arith, matches-compile_match net allow m ctx h, p, eq_iff m.traffic (lit ""))

all-Permᴰ : {A : Type 0} (p : A → Bool) {xs ys : List A} → Permᴰ xs ys → all p xs ≡ all p ys
all-Permᴰ p Permᴰ.nil = refl
all-Permᴰ p (Permᴰ.cons e d) = ground (arith, all-Permᴰ p d, ap p e)
all-Permᴰ p (Permᴰ.swap e f) = ground (arith, ap p e, ap p f)
all-Permᴰ p (Permᴰ.trans d e) = all-Permᴰ p d ∙ all-Permᴰ p e

-- Go goes through a match's headers in no fixed order, and the result does not depend on it.
pub matches-header_order :
    (m : MatchConfig) (hs ks : Map Str HeaderMatchConfig) (ctx : RequestContext)
    → Perm hs ks
    → matches (record m { headers = hs }) ctx ≡ matches (record m { headers = ks }) ctx
unfolding matches traffic_matches
matches-header_order m hs ks ctx perm =
    let same : all (header_matches ctx.headers) hs ≡ all (header_matches ctx.headers) ks =
      ∥∥₁_elim perm (Bool-set _ _) (all-Permᴰ (header_matches ctx.headers)) in
    ground (arith, same)
