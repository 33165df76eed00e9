-- ===== src/Grpc/Routing.antt =====
-- The routing decision of a stream (resolveIdentity and resolve of internal/grpc/handlers.go).
-- Metrics and logs are left out.
pub mod Laws
use hypergate_engine.Prelude.{
  ℕ, Bool, true, false, ◌&&◌, ◌||◌, not, List, [], ◌∷◌, ◌++◌, Option, none, some, if◌then◌else◌,
  ◌==◌, nat_eq, list_eq, is_none, is_some,
}
use hypergate_engine.Prelude.Text.{Str, lit}
use hypergate_engine.Prelude.Maps.{Map, lookup}
use hypergate_engine.Net.{Addr}
use hypergate_engine.Identity.Workload.{Workload, is_pod, key}
use hypergate_engine.Identity.Index.{
  Index, ServiceRef, lookup_workload, service_by_cluster_ip, service_from_host,
}
use hypergate_engine.Selector.Traffic.{Traffic, traffic_eq, parse_traffic}
use hypergate_engine.Config.Parser.{Config, unknown_source_default}
use hypergate_engine.Engine.Context.{RequestContext, block}
use hypergate_engine.Engine.Filter.{Chain}
use hypergate_engine.Engine.Registry.{Snapshot}
use hypergate_engine.Router.{route_with}

-- trafficFromContext, on the first value of the stream's metadata.
unfoldable pub traffic_from_context : Option Str → Traffic
traffic_from_context none = Traffic.any
traffic_from_context (some value) = elim (parse_traffic value) [ none ↦ Traffic.any | some t ↦ t ]

abbrev pod_services : Option Workload → Option ServiceRef → List Str
pod_services none by_host = elim by_host [ none ↦ [] | some r ↦ key r.service ∷ [] ]
pod_services (some w) by_host =
    if is_pod (some w) then w.services else elim by_host [ none ↦ [] | some r ↦ key r.service ∷ [] ]

-- The cluster IP, then the backend pod, then the host name.
abbrev destination_services : Option ServiceRef → Option Workload → Option ServiceRef → List Str
destination_services (some r) pod by_host = key r.service ∷ []
destination_services none pod by_host = pod_services pod by_host

abbrev with_identity : Index → Bool → RequestContext → RequestContext
with_identity x inferred ctx =
    let w = lookup_workload (some x) ctx.client_addr in
    record ctx {
      source_workload = w;
      traffic = if inferred && is_pod w then Traffic.east_west else ctx.traffic;
      destination_services =
          destination_services (service_by_cluster_ip (some x) ctx.destination_addr)
            (lookup_workload (some x) ctx.destination_addr) (service_from_host (some x) ctx.host);
    }

unfoldable pub resolve_identity : Option Index → RequestContext → RequestContext
resolve_identity identity ctx =
    let inferred = ctx.traffic == Traffic.any in
    let classed : RequestContext = record ctx {
      traffic = if inferred then Traffic.north_south else ctx.traffic;
    } in
    elim identity [ none ↦ classed | some x ↦ with_identity x inferred classed ]

pub record StreamState (W : Type 0) : Type 0 where
  pub snap : Snapshot W
  pub resolved : Bool
  pub chain : Chain W
  pub name : Str

abbrev pub unavailable : RequestContext → RequestContext
unavailable ctx = block 503 (lit "Service Unavailable") ctx

-- An east-west caller that the identity map does not know.
abbrev pub unknown_caller : Option Index → Config → RequestContext → Bool
unknown_caller identity cfg ctx =
    is_some identity
    && ctx.traffic == Traffic.east_west
    && is_none ctx.source_workload
    && not (cfg.router.unknown_source == unknown_source_default)

module _ {W : Type 0} where
  -- What a stream starts with.
  abbrev pub opened : Snapshot W → StreamState W
  opened snap = record { snap = snap; resolved = false; chain = []; name = [] }

  abbrev take_chain :
      StreamState W → RequestContext → Option (Chain W) → StreamState W × RequestContext
  take_chain st ctx none = (st, unavailable ctx)
  take_chain st ctx (some chain) = (record st { chain = chain }, ctx)

  unfoldable pub choose : StreamState W → RequestContext × Str → StreamState W × RequestContext
  unfolding block
  choose st (ctx, name) =
      let named : StreamState W = record st { name = name } in
      if name == [] then (named, ctx) else take_chain named ctx (lookup name st.snap.chains)

  unfoldable pub resolve_config :
      Option Index → Option Config → StreamState W → RequestContext → StreamState W × RequestContext
  unfolding block
  resolve_config identity none st ctx = (st, unavailable ctx)
  resolve_config identity (some cfg) st ctx =
      let known = resolve_identity identity ctx in
      if unknown_caller identity cfg known
      then (st, unavailable known)
      else choose st (route_with cfg.router known)

  unfoldable pub resolve :
      Option Index → StreamState W → RequestContext → StreamState W × RequestContext
  unfolding resolve_config
  resolve identity st ctx =
      if st.resolved
      then (st, ctx)
      else resolve_config identity st.snap.config (record st { resolved = true }) ctx
