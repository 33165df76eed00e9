-- ===== src/Grpc/Handlers/Laws.antt =====
-- What handling a message keeps of a stream, and when the answer is an immediate response.
use hypergate_engine.Prelude.{
  true, false, List, [], ◌∷◌, Option, nat_eq, list_eq, ◌≡◌, refl, sym, ◌∙◌, ap, subst,
}
use hypergate_engine.Engine.Context.{RequestContext, Phase, block}
use hypergate_engine.Grpc.Messages.{HeaderValue, Message, Response}
use hypergate_engine.Grpc.Replies.Laws.{
  is_immediate, is_response_trailers, KeepsBlocked, StopsBlocked, phase_of, reply_of,
  reply_of-KeepsBlocked, reply_of-StopsBlocked,
}
use hypergate_engine.Grpc.Routing.{StreamState, resolve}
use hypergate_engine.Grpc.Routing.Laws.{resolve-resolved, resolve-same}
use hypergate_engine.Grpc.Running.{run, count_of}
use hypergate_engine.Grpc.Running.Laws.{IsBalanced, run-IsBalanced}
use hypergate_engine.Grpc.Handlers.Shape.{
  read, before, handle-finish, IsSameRun, before-IsSameRun, before-state, before-blocked,
  resolve_stream-resolved,
}
use hypergate_engine.Grpc.Handlers.{
  Server, Stream, resolve_stream, run_stream, guard_body, uninspected, finish, handle, process,
}

module _ {W : Type 0} (srv : Server W) where
  finish-IsBalanced :
      (phase : Phase) (reply : RequestContext → Response × RequestContext) (s : Stream W)
      → IsBalanced s.limiter (finish srv phase reply s).0.limiter
  unfolding finish run_stream
  finish-IsBalanced phase reply s = run-IsBalanced srv.expired s.state phase s.ctx s.limiter s.world

  finish-immediate :
      (phase : Phase) (reply : RequestContext → Response × RequestContext) (s : Stream W)
      → KeepsBlocked reply
      → StopsBlocked reply
      → is_immediate (finish srv phase reply s).1 ≡ (finish srv phase reply s).0.ctx.blocked
  unfolding finish
  finish-immediate phase reply s keeps stops =
      let c = (run_stream srv phase s).ctx in stops c ∙ sym (keeps c)

  run_stream-blocked :
      (phase : Phase) (s : Stream W)
      → s.ctx.blocked ≡ true
      → IsSameRun (run_stream srv phase s) s × ((run_stream srv phase s).ctx ≡ s.ctx)
  unfolding run_stream run
  run_stream-blocked phase s h = rw h ((refl, refl), refl)

  finish-blocked :
      (phase : Phase) (reply : RequestContext → Response × RequestContext) (s : Stream W)
      → s.ctx.blocked ≡ true
      → IsSameRun (finish srv phase reply s).0 s
  unfolding finish
  finish-blocked phase reply s h = (run_stream-blocked phase s h).0

  -- Except for response trailers, whose response headers are out, the answer to a message is an
  -- immediate response exactly where the request is blocked afterwards.
  pub handle-immediate :
      (m : Message) (s : Stream W)
      → is_response_trailers m ≡ false
      → is_immediate (handle srv m s).1 ≡ (handle srv m s).0.ctx.blocked
  handle-immediate m s h =
      subst (λ (r : Stream W × Response). is_immediate r.1 ≡ r.0.ctx.blocked)
        (sym (handle-finish srv m s))
        (finish-immediate (phase_of m) (reply_of m) (before srv m s) (reply_of-KeepsBlocked m)
          (reply_of-StopsBlocked m h))

  finish-stays :
      (phase : Phase) (reply : RequestContext → Response × RequestContext) (s : Stream W)
      → KeepsBlocked reply
      → s.ctx.blocked ≡ true
      → (finish srv phase reply s).0.ctx.blocked ≡ true
  unfolding finish
  finish-stays phase reply s keeps h =
      keeps (run_stream srv phase s).ctx
      ∙ ap (λ (c : RequestContext). c.blocked) (run_stream-blocked phase s h).1
      ∙ h

  abbrev IsStill : Stream W → Stream W → Type 0
  IsStill s r = IsSameRun r s × (r.ctx.blocked ≡ true)

  -- A message to a stream that is routed and blocked runs no filter, takes no place in the chain's
  -- bound, and leaves the request blocked.
  pub handle-blocked :
      (m : Message) (s : Stream W)
      → s.state.resolved ≡ true
      → s.ctx.blocked ≡ true
      → IsSameRun (handle srv m s).0 s × ((handle srv m s).0.ctx.blocked ≡ true)
  handle-blocked m s done h =
      let stops = before-blocked srv m s done h in
      let ran = finish-blocked (phase_of m) (reply_of m) (before srv m s) stops in
      let kept = before-IsSameRun srv m s in
      subst (λ (r : Stream W × Response). IsStill s r.0) (sym (handle-finish srv m s))
        (
          (ran.0 ∙ kept.0, ran.1 ∙ kept.1),
          finish-stays (phase_of m) (reply_of m) (before srv m s) (reply_of-KeepsBlocked m) stops,
        )

  handle-IsBalanced : (m : Message) (s : Stream W) → IsBalanced s.limiter (handle srv m s).0.limiter
  handle-IsBalanced m s name =
      ap (λ (r : Stream W × Response). count_of name r.0.limiter) (handle-finish srv m s)
      ∙ finish-IsBalanced (phase_of m) (reply_of m) (before srv m s) name
      ∙ ap (count_of name) (before-IsSameRun srv m s).0

  -- However many messages a stream sends and whatever its filters do, the count of requests in
  -- flight under every chain's name is afterwards what it was before.
  pub process-IsBalanced :
      (ms : List Message) (s : Stream W) → IsBalanced s.limiter (process srv ms s).0.limiter
  unfolding process
  process-IsBalanced [] s name = refl
  process-IsBalanced (m ∷ ms) s name =
      process-IsBalanced ms (handle srv m s).0 name ∙ handle-IsBalanced m s name

  finish-state :
      (phase : Phase) (reply : RequestContext → Response × RequestContext) (s : Stream W)
      → (finish srv phase reply s).0.state ≡ s.state
  unfolding finish run_stream
  finish-state phase reply s = refl

  handle-state :
      (m : Message) (s : Stream W)
      → (handle srv m s).0.state ≡ (resolve srv.identity s.state (read srv m s).ctx).0
  handle-state m s =
      ap (λ (r : Stream W × Response). r.0.state) (handle-finish srv m s)
      ∙ finish-state (phase_of m) (reply_of m) (before srv m s)
      ∙ before-state srv m s

  process-resolved :
      (ms : List Message) (s : Stream W)
      → s.state.resolved ≡ true
      → (process srv ms s).0.state ≡ s.state
  unfolding process
  process-resolved [] s done = refl
  process-resolved (m ∷ ms) s done =
      let same =
        handle-state m s
        ∙ ap (λ (r : StreamState W × RequestContext). r.0)
            (resolve-resolved srv.identity s.state (read srv m s).ctx done) in
      process-resolved ms (handle srv m s).0 (ap (λ (st : StreamState W). st.resolved) same ∙ done)
      ∙ same

  -- The first message of a stream decides its chain: the state after all its messages is the state
  -- after the first, which holds the snapshot that the stream was opened with.
  pub process-pinned :
      (m : Message) (ms : List Message) (s : Stream W)
      → ((process srv (m ∷ ms) s).0.state ≡ (handle srv m s).0.state)
        × ((handle srv m s).0.state.snap ≡ s.state.snap)
  unfolding process
  process-pinned m ms s =
      let c = (read srv m s).ctx in
      let (done, kept) = resolve-same srv.identity s.state c in
      let same = handle-state m s in
      (
        process-resolved ms (handle srv m s).0
            (ap (λ (st : StreamState W). st.resolved) same ∙ done),
        ap (λ (st : StreamState W). st.snap) same ∙ kept,
      )

  guard_body-blocks : (s : Stream W) → uninspected s.ctx ≡ true → (guard_body s).ctx.blocked ≡ true
  unfolding guard_body block
  guard_body-blocks s h = rw h refl

  before-uninspected :
      (hs : Option (List HeaderValue)) (s : Stream W)
      → s.state.resolved ≡ true
      → uninspected s.ctx ≡ true
      → (before srv (Message.response_headers hs) s).ctx.blocked ≡ true
  before-uninspected hs s done h =
      let t = read srv (Message.response_headers hs) s in
      guard_body-blocks (resolve_stream srv t)
        (ap uninspected (resolve_stream-resolved srv t done) ∙ h)

  -- Where a routed request's body was to be inspected and never came, the response headers run no
  -- filter and are answered with an immediate response: the response is not let through.
  pub handle-uninspected :
      (hs : Option (List HeaderValue)) (s : Stream W)
      → s.state.resolved ≡ true
      → uninspected s.ctx ≡ true
      → IsSameRun (handle srv (Message.response_headers hs) s).0 s
        × (is_immediate (handle srv (Message.response_headers hs) s).1 ≡ true)
  handle-uninspected hs s done h =
      let m = Message.response_headers hs in
      let stops = before-uninspected hs s done h in
      let ran = finish-blocked (phase_of m) (reply_of m) (before srv m s) stops in
      let kept = before-IsSameRun srv m s in
      let stays =
        finish-stays (phase_of m) (reply_of m) (before srv m s) (reply_of-KeepsBlocked m) stops in
      let still =
        subst (λ (r : Stream W × Response). IsStill s r.0) (sym (handle-finish srv m s))
          ((ran.0 ∙ kept.0, ran.1 ∙ kept.1), stays) in
      (still.0, handle-immediate m s refl ∙ still.1)
