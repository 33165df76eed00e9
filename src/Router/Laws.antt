-- ===== src/Router/Laws.antt =====
-- Which route a request takes, and what a compiled match asks of it.
use hypergate_engine.Prelude.{
  Bool, true, false, List, [], ◌∷◌, ◌++◌, none, some, nat_eq, list_eq, any, ◌≡◌, refl, arith, All,
}
use hypergate_engine.Selector.Traffic.{traffic_eq}
use hypergate_engine.Config.Routing.{RouteConfig, RouterConfig}
use hypergate_engine.Engine.Context.{RequestContext}
use hypergate_engine.Router.{matches, first_route, route_with, default_chain}

abbrev pub takes : RouteConfig → RequestContext → Bool
takes r ctx = any (λ m. matches m ctx) r.matches

first_route-first :
    (before : List RouteConfig) (r : RouteConfig) (after : List RouteConfig) (ctx : RequestContext)
    → All (λ q. takes q ctx ≡ false) before
    → takes r ctx ≡ true
    → first_route (before ++ r ∷ after) ctx ≡ some r
unfolding first_route
first_route-first [] r after ctx h here = rw here refl
first_route-first (q ∷ qs) r after ctx h here =
    ground (arith, first_route-first qs r after ctx h.1 here)

first_route-none :
    (routes : List RouteConfig) (ctx : RequestContext)
    → All (λ q. takes q ctx ≡ false) routes
    → first_route routes ctx ≡ none
unfolding first_route
first_route-none [] ctx h = refl
first_route-none (q ∷ qs) ctx h = ground (arith, first_route-none qs ctx h.1)

-- The first route of the configuration that has a match decides: its chain is taken, its name is
-- kept, and the routes after it are not asked. Nothing else of the context changes.
pub route_with-first :
    (rc : RouterConfig) (before : List RouteConfig) (r : RouteConfig) (after : List RouteConfig)
    (ctx : RequestContext)
    → rc.routes ≡ before ++ r ∷ after
    → All (λ q. takes q ctx ≡ false) before
    → takes r ctx ≡ true
    → route_with rc ctx ≡ (record ctx { matched_route = r.name }, r.target_chain)
unfolding route_with
route_with-first rc before r after ctx e none_before here =
    rw (e, first_route-first before r after ctx none_before here) refl

-- Where no route matches, the request goes to the default chain of its class and is unchanged.
pub route_with-default :
    (rc : RouterConfig) (ctx : RequestContext)
    → All (λ q. takes q ctx ≡ false) rc.routes
    → route_with rc ctx ≡ (ctx, default_chain rc ctx.traffic)
unfolding route_with
route_with-default rc ctx h = rw (first_route-none rc.routes ctx h) refl
