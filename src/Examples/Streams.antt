-- ===== src/Examples/Streams.antt =====
-- Streams that are routed, blocked and uninspected.
use hypergate_engine.Prelude.{ℕ, true, [], ◌∷◌, none, ◌≡◌, refl, list_eq, nat_eq, list_beq, arith}
use hypergate_engine.Prelude.Text.{lit}
use hypergate_engine.Prelude.Maps.{lookup}
use hypergate_engine.Router.{route_with}
use hypergate_engine.Selector.Sets.{match_source, match_destination}
use hypergate_engine.Grpc.Messages.{Message}
use hypergate_engine.Grpc.Replies.Laws.{is_immediate}
use hypergate_engine.Grpc.Routing.{resolve_identity, resolve, opened, choose}
use hypergate_engine.Grpc.Routing.Laws.{FollowsRouter, resolve-fails_closed}
use hypergate_engine.Grpc.Running.Laws.{IsBalanced}
use hypergate_engine.Grpc.Limiter.{
  step, Counter, idle, acquire_add, acquire_undo, release, IsBounded, run-IsBounded,
}
use hypergate_engine.Grpc.Handlers.{Stream, handle, process}
use hypergate_engine.Grpc.Handlers.Shape.{IsSameRun}
use hypergate_engine.Grpc.Handlers.Laws.{
  handle-immediate, process-IsBalanced, process-pinned, handle-uninspected,
}
use hypergate_engine.Examples.Data.{snapshot, server, stream, routed, request, blocked_request}

abbrev body : Message
body = Message.request_body (lit "x")

abbrev trailers : Message
trailers = Message.request_trailers none

-- A stream that is routed and blocked, and one whose body was never sent.
abbrev blocked_stream : Stream ℕ
blocked_stream = record stream { state = routed; ctx = blocked_request }

abbrev bodyless_stream : Stream ℕ
bodyless_stream = record stream {
  state = routed;
  ctx = record request { request_body_required = true };
}

handle-immediate_example :
    is_immediate (handle server body blocked_stream).1
    ≡ (handle server body blocked_stream).0.ctx.blocked
handle-immediate_example = handle-immediate server body blocked_stream refl

process-pinned_example :
    ((process server (body ∷ trailers ∷ []) stream).0.state ≡ (handle server body stream).0.state)
    × ((handle server body stream).0.state.snap ≡ snapshot)
process-pinned_example = process-pinned server body (trailers ∷ []) stream

handle-uninspected_example :
    IsSameRun (handle server (Message.response_headers none) bodyless_stream).0 bodyless_stream
    × (is_immediate (handle server (Message.response_headers none) bodyless_stream).1 ≡ true)
handle-uninspected_example = handle-uninspected server none bodyless_stream refl refl

process-IsBalanced_example : IsBalanced [] (process server (body ∷ trailers ∷ []) stream).0.limiter
process-IsBalanced_example = process-IsBalanced server (body ∷ trailers ∷ []) stream

resolve-fails_closed_example :
    FollowsRouter none (opened snapshot) request (resolve none (opened snapshot) request)
unfolding resolve choose list_beq route_with resolve_identity match_source match_destination lookup
resolve-fails_closed_example = resolve-fails_closed none (opened snapshot) request refl refl

run-IsBounded_example : IsBounded 1 (record { in_flight = 2; running = 1; refused = 1 })
unfolding hypergate_engine.Grpc.Limiter.run step
run-IsBounded_example =
    run-IsBounded 1 (acquire_add ∷ acquire_add ∷ []) idle
      (record { counted = refl; bounded = omega arith }) refl
