-- ===== src/Grpc/Handlers.antt =====
-- The handlers of the six ext_proc messages (internal/grpc/handlers.go), each from the message to
-- the response that it sends, and the stream's loop over them (Process of internal/grpc/server.go).
-- Sending does not fail here; metrics and logs are left out.
pub mod Shape
pub mod Laws
use hypergate_engine.Prelude.{
  ℕ, suc, Bool, true, false, ◌&&◌, ◌||◌, not, List, [], ◌∷◌, ◌++◌, Option, none, some,
  if◌then◌else◌, ◌==◌, nat_eq, list_eq, is_some, ℤ, pos, length,
}
use hypergate_engine.Prelude.Text.{Str, lit, to_lower, trim_prefix, trim_suffix, trim_space}
use hypergate_engine.Prelude.Maps.{Map, lookup, insert}
use hypergate_engine.Net.{Addr, invalid, unmap, without_zone}
use hypergate_engine.Identity.Index.{Index}
use hypergate_engine.Selector.Parse.{Netip}
use hypergate_engine.Config.Parser.{Config}
use hypergate_engine.Engine.Headers.{Header}
use hypergate_engine.Engine.Context.{RequestContext, Ctx, Phase, block}
use hypergate_engine.Engine.Access.{or_empty}
use hypergate_engine.Engine.Registry.{Snapshot}
use hypergate_engine.ClientIp.{resolve as resolve_client_ip}
use hypergate_engine.Selector.Address.{parse_addr, normalize_host}
use hypergate_engine.Grpc.Mutators.{
  HeaderMutation, BodyMutation, ProcessingMode, build_header_mutation, build_body_mutation,
  build_mode_override,
}
use hypergate_engine.Grpc.Routing.{StreamState, resolve}
use hypergate_engine.Grpc.Running.{Limiter, run}
use hypergate_engine.Grpc.Messages.{
  HeaderValue, Attributes, Message, Response, string_attribute, copy_headers,
}
use hypergate_engine.Grpc.Replies.{
  choose_reply, request_headers_reply, request_body_reply, request_trailers_reply,
  response_headers_reply, response_body_reply, response_trailers_reply,
}

-- What a server has beside its streams.
pub record Server (W : Type 0) : Type 0 where
  pub netip : Netip
  pub identity : Option Index
  pub expired : Option Ctx → W → Bool

-- A stream between two messages, with the counters and the world that it shares.
pub record Stream (W : Type 0) : Type 0 where
  pub state : StreamState W
  pub ctx : RequestContext
  pub limiter : Limiter
  pub world : W

abbrev trusted_hops : Option Config → ℤ
trusted_hops none = pos 0
trusted_hops (some c) = c.server.trusted_proxy_hops

abbrev authority_of : Map Str Str → Str
authority_of headers =
    let authority = or_empty (lookup (lit ":authority") headers) in
    if authority == [] then or_empty (lookup (lit "host") headers) else authority

-- A request whose body was to be inspected and never came.
abbrev pub uninspected : RequestContext → Bool
uninspected c =
    not c.blocked
    && c.request_body_required
    && not c.request_body_seen
    && not c.request_end_of_stream

module _ {W : Type 0} where
  abbrev with_context : Stream W → RequestContext → Stream W
  with_context s c = record s { ctx = c }

  unfoldable pub resolve_stream : Server W → Stream W → Stream W
  resolve_stream srv s =
      let (st, ctx) = resolve srv.identity s.state s.ctx in record s { state = st; ctx = ctx }

  unfoldable pub run_stream : Server W → Phase → Stream W → Stream W
  run_stream srv phase s =
      let (ctx, l, w) = run srv.expired s.state phase s.ctx s.limiter s.world in
      record s { ctx = ctx; limiter = l; world = w }

  -- The rest of a handler: the route, the filters, and the reply that `choose` takes.
  unfoldable pub finish :
      Server W
      → Phase
      → (RequestContext → Response × RequestContext)
      → Stream W
      → Stream W × Response
  unfolding run_stream
  finish srv phase reply s =
      let r = run_stream srv phase s in
      let (response, c) = reply r.ctx in (with_context r c, response)

  -- What the request headers say of the request.
  unfoldable pub read_request :
      Server W
      → Option Config
      → Option (List HeaderValue)
      → Bool
      → Attributes
      → RequestContext
      → RequestContext
  unfolding copy_headers string_attribute
  read_request srv cfg hs end_of_stream attrs c =
      let headers = copy_headers hs c.headers in
      let destination = string_attribute attrs (lit "destination.address") in
      let client =
        resolve_client_ip (or_empty (lookup (lit "x-forwarded-for") headers))
          (string_attribute attrs (lit "source.address")) (trusted_hops cfg) in
      record c {
        headers = headers;
        path = or_empty (lookup (lit ":path") headers);
        method = or_empty (lookup (lit ":method") headers);
        request_end_of_stream = end_of_stream;
        client_ip = client;
        client_addr = parse_addr srv.netip client;
        destination_address = destination;
        destination_addr = parse_addr srv.netip destination;
        host = normalize_host (authority_of headers);
      }

  unfoldable pub handle_request_headers :
      Server W → Option (List HeaderValue) → Bool → Attributes → Stream W → Stream W × Response
  handle_request_headers srv hs end_of_stream attrs s =
      let read =
        with_context s (read_request srv s.state.snap.config hs end_of_stream attrs s.ctx) in
      finish srv Phase.request_headers (choose_reply request_headers_reply)
        (resolve_stream srv read)

  unfoldable pub handle_request_body : Server W → Str → Stream W → Stream W × Response
  handle_request_body srv body s =
      let read = with_context s (record s.ctx { request_body_seen = true; request_body = body }) in
      finish srv Phase.request_body (choose_reply request_body_reply) (resolve_stream srv read)

  unfoldable pub handle_request_trailers :
      Server W → Option (List HeaderValue) → Stream W → Stream W × Response
  handle_request_trailers srv hs s =
      let read = with_context s (record s.ctx { headers = copy_headers hs s.ctx.headers }) in
      finish srv Phase.request_trailers (choose_reply request_trailers_reply)
        (resolve_stream srv read)

  unfoldable pub guard_body : Stream W → Stream W
  unfolding block
  guard_body s =
      if uninspected s.ctx
      then with_context s (block 500 (lit "Internal Server Error") s.ctx)
      else s

  unfoldable pub handle_response_headers :
      Server W → Option (List HeaderValue) → Stream W → Stream W × Response
  handle_response_headers srv hs s =
      let read =
        with_context s
          (record s.ctx { response_headers = copy_headers hs s.ctx.response_headers }) in
      finish srv Phase.response_headers (choose_reply response_headers_reply)
        (guard_body (resolve_stream srv read))

  unfoldable pub handle_response_body : Server W → Str → Stream W → Stream W × Response
  handle_response_body srv body s =
      let read = with_context s (record s.ctx { response_body_bytes = body }) in
      finish srv Phase.response_body (choose_reply response_body_reply) (resolve_stream srv read)

  -- The response headers have been sent: a block cannot replace the response any more.
  unfoldable pub handle_response_trailers :
      Server W → Option (List HeaderValue) → Stream W → Stream W × Response
  handle_response_trailers srv hs s =
      let read =
        with_context s
          (record s.ctx { response_headers = copy_headers hs s.ctx.response_headers }) in
      finish srv Phase.response_trailers response_trailers_reply (resolve_stream srv read)

  unfoldable pub handle : Server W → Message → Stream W → Stream W × Response
  handle srv (Message.request_headers hs eos attrs) s = handle_request_headers srv hs eos attrs s
  handle srv (Message.request_body body) s = handle_request_body srv body s
  handle srv (Message.request_trailers hs) s = handle_request_trailers srv hs s
  handle srv (Message.response_headers hs) s = handle_response_headers srv hs s
  handle srv (Message.response_body body) s = handle_response_body srv body s
  handle srv (Message.response_trailers hs) s = handle_response_trailers srv hs s

  -- The loop of Process over the messages of one stream.
  unfoldable pub process : Server W → List Message → Stream W → Stream W × List Response
  process srv [] s = (s, [])
  process srv (m ∷ ms) s =
      let (s', response) = handle srv m s in
      let (s'', rest) = process srv ms s' in (s'', response ∷ rest)
