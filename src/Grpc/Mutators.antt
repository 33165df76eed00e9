-- ===== src/Grpc/Mutators.antt =====
-- What the engine tells Envoy (internal/grpc/mutators.go).
use hypergate_engine.Prelude.{
  Bool, ◌&&◌, not, List, Option, none, some, if◌then◌else◌, length, ◌==◌, nat_eq, map,
}
use hypergate_engine.Prelude.Text.{Str}
use hypergate_engine.Engine.Headers.{Header}
use hypergate_engine.Engine.Context.{RequestContext, HeaderValueOption}

pub record HeaderMutation : Type 0 where
  pub set_headers : List HeaderValueOption
  pub remove_headers : List Str

-- An empty value is sent as nil, which is the empty byte string.
abbrev pub option_of : Header → HeaderValueOption
option_of h = record { key = h.key; raw_value = h.value }

-- The mutation, and the context that keeps the slice for reuse.
unfoldable pub build_header_mutation :
    RequestContext → List Header → List Str → Option HeaderMutation × RequestContext
build_header_mutation ctx headers removes =
    let set_headers = map option_of headers in
    if length headers == 0 && length removes == 0 then (none, ctx) else (
      some (record { set_headers = set_headers; remove_headers = removes }),
      record ctx { set_header_options = set_headers },
    )

pub data BodyMutation : Type 0 where
  clear_body : BodyMutation
  body : Str → BodyMutation

unfoldable pub build_body_mutation : Str → Bool → Option BodyMutation
build_body_mutation bytes modified =
    if not modified then none else if length bytes == 0 then some clear_body else some (body bytes)

pub data BodyMode : Type 0 where
  no_body buffered : BodyMode

pub data HeaderMode : Type 0 where
  send skip : HeaderMode

pub record ProcessingMode : Type 0 where
  pub request_header_mode : HeaderMode
  pub response_header_mode : HeaderMode
  pub request_body_mode : BodyMode
  pub response_body_mode : BodyMode
  pub request_trailer_mode : HeaderMode
  pub response_trailer_mode : HeaderMode

unfoldable pub build_mode_override : RequestContext → Option ProcessingMode
build_mode_override c =
    if not c.request_body_required
      && not c.response_body_required
      && not c.request_trailers_required
      && not c.response_trailers_required
    then none
    else some (record {
      request_header_mode = send;
      response_header_mode = send;
      request_body_mode = if c.request_body_required then buffered else no_body;
      response_body_mode = if c.response_body_required then buffered else no_body;
      request_trailer_mode = if c.request_trailers_required then send else skip;
      response_trailer_mode = if c.response_trailers_required then send else skip;
    })
