-- ===== src/Grpc/Replies/Laws.antt =====
-- What each phase's reply keeps of the context, and when it is immediate.
use hypergate_engine.Prelude.{
  Bool, true, false, List, [], nat_eq, list_eq, ◌≡◌, refl, sym, ◌∙◌, arith, if_ind, if_cases,
}
use hypergate_engine.Prelude.Text.{Str}
use hypergate_engine.Engine.Headers.{Header}
use hypergate_engine.Engine.Context.{RequestContext, Phase}
use hypergate_engine.Grpc.Mutators.{build_header_mutation}
use hypergate_engine.Grpc.Messages.{Message, Response}
use hypergate_engine.Grpc.Replies.{
  choose_reply, immediate_response, request_headers_reply, request_body_reply,
  request_trailers_reply, response_headers_reply, response_body_reply, response_trailers_reply,
}

abbrev pub is_immediate : Response → Bool
is_immediate (Response.immediate _ _ _) = true
is_immediate _ = false

-- The one message whose answer cannot stop the request.
abbrev pub is_response_trailers : Message → Bool
is_response_trailers (Message.response_trailers _) = true
is_response_trailers _ = false

-- A reply that keeps whether the request is blocked.
abbrev pub KeepsBlocked : (RequestContext → Response × RequestContext) → Type 0
KeepsBlocked reply = (c : RequestContext) → (reply c).1.blocked ≡ c.blocked

-- A reply that is immediate just for a blocked request.
abbrev pub StopsBlocked : (RequestContext → Response × RequestContext) → Type 0
StopsBlocked reply = (c : RequestContext) → is_immediate (reply c).0 ≡ c.blocked

pub build_header_mutation-KeepsBlocked :
    (c : RequestContext) (hs : List Header) (rs : List Str)
    → (build_header_mutation c hs rs).1.blocked ≡ c.blocked
unfolding build_header_mutation
build_header_mutation-KeepsBlocked c hs rs = ground arith

choose_reply-KeepsBlocked :
    (reply : RequestContext → Response × RequestContext)
    → KeepsBlocked reply
    → KeepsBlocked (choose_reply reply)
unfolding choose_reply immediate_response
choose_reply-KeepsBlocked reply keeps c =
    if_ind (λ (r : Response × RequestContext). r.1.blocked ≡ c.blocked) c.blocked
      (build_header_mutation-KeepsBlocked c c.downstream.to_add []) (keeps c)

choose_reply-StopsBlocked :
    (reply : RequestContext → Response × RequestContext)
    → ((c : RequestContext) → is_immediate (reply c).0 ≡ false)
    → StopsBlocked (choose_reply reply)
unfolding choose_reply immediate_response
choose_reply-StopsBlocked reply never c =
    if_cases (λ (r : Response × RequestContext). is_immediate r.0 ≡ c.blocked) c.blocked sym
      (λ h. never c ∙ sym h)

-- Every handler reads its message, resolves the stream, guards the response headers, and finishes.
abbrev pub phase_of : Message → Phase
phase_of (Message.request_headers _ _ _) = Phase.request_headers
phase_of (Message.request_body _) = Phase.request_body
phase_of (Message.request_trailers _) = Phase.request_trailers
phase_of (Message.response_headers _) = Phase.response_headers
phase_of (Message.response_body _) = Phase.response_body
phase_of (Message.response_trailers _) = Phase.response_trailers

abbrev pub reply_of : Message → RequestContext → Response × RequestContext
reply_of (Message.request_headers _ _ _) = choose_reply request_headers_reply
reply_of (Message.request_body _) = choose_reply request_body_reply
reply_of (Message.request_trailers _) = choose_reply request_trailers_reply
reply_of (Message.response_headers _) = choose_reply response_headers_reply
reply_of (Message.response_body _) = choose_reply response_body_reply
reply_of (Message.response_trailers _) = response_trailers_reply

pub reply_of-KeepsBlocked : (m : Message) → KeepsBlocked (reply_of m)
unfolding request_headers_reply request_body_reply request_trailers_reply response_headers_reply
    response_body_reply response_trailers_reply
reply_of-KeepsBlocked (Message.request_headers _ _ _) =
    choose_reply-KeepsBlocked request_headers_reply
      (λ c. build_header_mutation-KeepsBlocked c c.upstream.to_add c.upstream.to_remove)
reply_of-KeepsBlocked (Message.request_body _) =
    choose_reply-KeepsBlocked request_body_reply
      (λ c. build_header_mutation-KeepsBlocked c c.upstream.to_add c.upstream.to_remove)
reply_of-KeepsBlocked (Message.request_trailers _) =
    choose_reply-KeepsBlocked request_trailers_reply (λ c.
      build_header_mutation-KeepsBlocked c c.request_trailers.to_add c.request_trailers.to_remove)
reply_of-KeepsBlocked (Message.response_headers _) =
    choose_reply-KeepsBlocked response_headers_reply
      (λ c. build_header_mutation-KeepsBlocked c c.downstream.to_add c.downstream.to_remove)
reply_of-KeepsBlocked (Message.response_body _) =
    choose_reply-KeepsBlocked response_body_reply (λ c. refl)
reply_of-KeepsBlocked (Message.response_trailers _) = λ c.
    build_header_mutation-KeepsBlocked c c.response_trailers.to_add c.response_trailers.to_remove

pub reply_of-StopsBlocked :
    (m : Message) → is_response_trailers m ≡ false → StopsBlocked (reply_of m)
unfolding request_headers_reply request_body_reply request_trailers_reply response_headers_reply
    response_body_reply
reply_of-StopsBlocked (Message.request_headers _ _ _) h =
    choose_reply-StopsBlocked request_headers_reply (λ c. refl)
reply_of-StopsBlocked (Message.request_body _) h =
    choose_reply-StopsBlocked request_body_reply (λ c. refl)
reply_of-StopsBlocked (Message.request_trailers _) h =
    choose_reply-StopsBlocked request_trailers_reply (λ c. refl)
reply_of-StopsBlocked (Message.response_headers _) h =
    choose_reply-StopsBlocked response_headers_reply (λ c. refl)
reply_of-StopsBlocked (Message.response_body _) h =
    choose_reply-StopsBlocked response_body_reply (λ c. refl)
reply_of-StopsBlocked (Message.response_trailers _) h = cc
