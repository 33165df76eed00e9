-- ===== src/Grpc/Replies.antt =====
-- What each phase answers from the context that its filters leave (internal/grpc/handlers.go): the
-- response, and the context behind it.
pub mod Laws
use hypergate_engine.Prelude.{
  ℕ, suc, Bool, true, false, ◌&&◌, ◌||◌, not, List, [], ◌∷◌, ◌++◌, Option, none, some,
  if◌then◌else◌, ◌==◌, nat_eq, list_eq, is_some, ℤ, pos, length,
}
use hypergate_engine.Prelude.Text.{Str, lit, to_lower, trim_prefix, trim_suffix, trim_space}
use hypergate_engine.Prelude.Maps.{Map, lookup, insert}
use hypergate_engine.Net.{Addr, invalid, unmap, without_zone}
use hypergate_engine.Identity.Index.{Index}
use hypergate_engine.Selector.Parse.{Netip}
use hypergate_engine.Config.Parser.{Config}
use hypergate_engine.Engine.Headers.{Header}
use hypergate_engine.Engine.Context.{RequestContext, Ctx, Phase, block}
use hypergate_engine.Engine.Access.{or_empty}
use hypergate_engine.Engine.Registry.{Snapshot}
use hypergate_engine.ClientIp.{resolve as resolve_client_ip}
use hypergate_engine.Selector.Address.{parse_addr, normalize_host}
use hypergate_engine.Grpc.Mutators.{
  HeaderMutation, BodyMutation, ProcessingMode, build_header_mutation, build_body_mutation,
  build_mode_override,
}
use hypergate_engine.Grpc.Messages.{
  HeaderValue, Attributes, Message, Response, string_attribute, copy_headers,
}

abbrev status_or_forbidden : ℕ → ℕ
status_or_forbidden status = if status == 0 then 403 else status

-- The response that ends the request, and the context behind it.
unfoldable pub immediate_response : RequestContext → Response × RequestContext
unfolding build_header_mutation
immediate_response ctx =
    let (mutation, ctx') = build_header_mutation ctx ctx.downstream.to_add [] in
    (Response.immediate (status_or_forbidden ctx.response_status) mutation ctx.response_body, ctx')

unfoldable pub request_headers_reply : RequestContext → Response × RequestContext
request_headers_reply ctx =
    let (mutation, c) = build_header_mutation ctx ctx.upstream.to_add ctx.upstream.to_remove in
    (Response.request_headers mutation (build_mode_override c), c)

unfoldable pub request_body_reply : RequestContext → Response × RequestContext
request_body_reply ctx =
    let (mutation, c) = build_header_mutation ctx ctx.upstream.to_add ctx.upstream.to_remove in
    (Response.request_body mutation (build_body_mutation c.request_body c.request_body_modified), c)

unfoldable pub request_trailers_reply : RequestContext → Response × RequestContext
request_trailers_reply ctx =
    let (mutation, c) =
      build_header_mutation ctx ctx.request_trailers.to_add ctx.request_trailers.to_remove in
    (Response.request_trailers mutation, c)

unfoldable pub response_headers_reply : RequestContext → Response × RequestContext
response_headers_reply ctx =
    let (mutation, c) = build_header_mutation ctx ctx.downstream.to_add ctx.downstream.to_remove in
    (Response.response_headers mutation (build_mode_override c), c)

unfoldable pub response_body_reply : RequestContext → Response × RequestContext
response_body_reply ctx = (
  Response.response_body (build_body_mutation ctx.response_body_bytes ctx.response_body_modified),
  ctx,
)

unfoldable pub response_trailers_reply : RequestContext → Response × RequestContext
response_trailers_reply ctx =
    let (mutation, c) =
      build_header_mutation ctx ctx.response_trailers.to_add ctx.response_trailers.to_remove in
    (Response.response_trailers mutation, c)

-- An immediate response where the request is blocked, the phase's own otherwise.
unfoldable pub choose_reply :
    (RequestContext → Response × RequestContext) → RequestContext → Response × RequestContext
choose_reply reply ctx = if ctx.blocked then immediate_response ctx else reply ctx
