-- ===== src/Grpc/Handlers/Shape.antt =====
-- The shape that the six handlers share: each reads its message, resolves the stream, runs the
-- filters and replies.
use hypergate_engine.Prelude.{true, nat_eq, list_eq, ◌≡◌, refl, ◌∙◌, ap, if_ind}
use hypergate_engine.Engine.Context.{RequestContext}
use hypergate_engine.Grpc.Messages.{Message, copy_headers}
use hypergate_engine.Grpc.Replies.Laws.{phase_of, reply_of}
use hypergate_engine.Grpc.Routing.{StreamState, resolve}
use hypergate_engine.Grpc.Routing.Laws.{resolve-resolved}
use hypergate_engine.Grpc.Running.{run}
use hypergate_engine.Grpc.Handlers.{
  Server, Stream, resolve_stream, guard_body, uninspected, finish, read_request, with_context,
  handle, handle_request_headers, handle_request_body, handle_request_trailers,
  handle_response_headers, handle_response_body, handle_response_trailers,
}

module _ {W : Type 0} where
  -- Two points of one stream between which no filter has run.
  abbrev pub IsSameRun : Stream W → Stream W → Type 0
  IsSameRun s t = (s.limiter ≡ t.limiter) × (s.world ≡ t.world)

module _ {W : Type 0} (srv : Server W) where
  -- The stream with what a message says of the request or the response.
  abbrev pub read : Message → Stream W → Stream W
  read (Message.request_headers hs eos attrs) s =
      with_context s (read_request srv s.state.snap.config hs eos attrs s.ctx)
  read (Message.request_body body) s =
      with_context s (record s.ctx { request_body_seen = true; request_body = body })
  read (Message.request_trailers hs) s =
      with_context s (record s.ctx { headers = copy_headers hs s.ctx.headers })
  read (Message.response_headers hs) s =
      with_context s (record s.ctx { response_headers = copy_headers hs s.ctx.response_headers })
  read (Message.response_body body) s = with_context s (record s.ctx { response_body_bytes = body })
  read (Message.response_trailers hs) s =
      with_context s (record s.ctx { response_headers = copy_headers hs s.ctx.response_headers })

  abbrev guarded : Message → Stream W → Stream W
  guarded (Message.response_headers _) s = guard_body s
  guarded _ s = s

  -- The stream that the filters of a message are run on.
  abbrev pub before : Message → Stream W → Stream W
  before m s = guarded m (resolve_stream srv (read m s))

  pub handle-finish :
      (m : Message) (s : Stream W)
      → handle srv m s ≡ finish srv (phase_of m) (reply_of m) (before m s)
  unfolding handle handle_request_headers handle_request_body handle_request_trailers
      handle_response_headers handle_response_body handle_response_trailers
  handle-finish (Message.request_headers hs eos attrs) s = refl
  handle-finish (Message.request_body body) s = refl
  handle-finish (Message.request_trailers hs) s = refl
  handle-finish (Message.response_headers hs) s = refl
  handle-finish (Message.response_body body) s = refl
  handle-finish (Message.response_trailers hs) s = refl

  guarded-IsSameRun :
      (m : Message) (s : Stream W) → IsSameRun (guarded m s) s × ((guarded m s).state ≡ s.state)
  unfolding guard_body
  guarded-IsSameRun (Message.response_headers hs) s =
      if_ind (λ (t : Stream W). IsSameRun t s × (t.state ≡ s.state)) (uninspected s.ctx)
        ((refl, refl), refl) ((refl, refl), refl)
  guarded-IsSameRun (Message.request_headers _ _ _) s = ((refl, refl), refl)
  guarded-IsSameRun (Message.request_body _) s = ((refl, refl), refl)
  guarded-IsSameRun (Message.request_trailers _) s = ((refl, refl), refl)
  guarded-IsSameRun (Message.response_body _) s = ((refl, refl), refl)
  guarded-IsSameRun (Message.response_trailers _) s = ((refl, refl), refl)

  pub read-same :
      (m : Message) (s : Stream W)
      → IsSameRun (read m s) s
        × ((read m s).state ≡ s.state)
        × ((read m s).ctx.blocked ≡ s.ctx.blocked)
  unfolding read_request
  read-same (Message.response_headers hs) s = ((refl, refl), refl, refl)
  read-same (Message.request_headers _ _ _) s = ((refl, refl), refl, refl)
  read-same (Message.request_body _) s = ((refl, refl), refl, refl)
  read-same (Message.request_trailers _) s = ((refl, refl), refl, refl)
  read-same (Message.response_body _) s = ((refl, refl), refl, refl)
  read-same (Message.response_trailers _) s = ((refl, refl), refl, refl)

  pub before-IsSameRun : (m : Message) (s : Stream W) → IsSameRun (before m s) s
  unfolding resolve_stream
  before-IsSameRun m s =
      let (run, _) = guarded-IsSameRun m (resolve_stream srv (read m s)) in
      let (kept, _, _) = read-same m s in (run.0 ∙ kept.0, run.1 ∙ kept.1)

  -- The state that a message is handled in.
  pub before-state :
      (m : Message) (s : Stream W)
      → (before m s).state ≡ (resolve srv.identity s.state (read m s).ctx).0
  unfolding resolve_stream
  before-state m s =
      let (_, guard) = guarded-IsSameRun m (resolve_stream srv (read m s)) in
      let (_, kept, _) = read-same m s in
      guard ∙ ap (λ (st : StreamState W). (resolve srv.identity st (read m s).ctx).0) kept

  guarded-blocked : (m : Message) (s : Stream W) → s.ctx.blocked ≡ true → guarded m s ≡ s
  unfolding guard_body
  guarded-blocked (Message.response_headers hs) s h = rw h refl
  guarded-blocked (Message.request_headers _ _ _) s h = refl
  guarded-blocked (Message.request_body _) s h = refl
  guarded-blocked (Message.request_trailers _) s h = refl
  guarded-blocked (Message.response_body _) s h = refl
  guarded-blocked (Message.response_trailers _) s h = refl

  pub resolve_stream-resolved :
      (s : Stream W) → s.state.resolved ≡ true → (resolve_stream srv s).ctx ≡ s.ctx
  unfolding resolve_stream
  resolve_stream-resolved s h =
      ap (λ (r : StreamState W × RequestContext). r.1)
        (resolve-resolved srv.identity s.state s.ctx h)

  -- A routed and blocked stream stays blocked.
  pub before-blocked :
      (m : Message) (s : Stream W)
      → s.state.resolved ≡ true
      → s.ctx.blocked ≡ true
      → (before m s).ctx.blocked ≡ true
  before-blocked m s done h =
      let (_, kept, stays) = read-same m s in
      let same =
        resolve_stream-resolved (read m s) (ap (λ (st : StreamState W). st.resolved) kept ∙ done) in
      let stops = ap (λ (c : RequestContext). c.blocked) same ∙ stays ∙ h in
      ap (λ (t : Stream W). t.ctx.blocked) (guarded-blocked m (resolve_stream srv (read m s)) stops)
      ∙ stops
