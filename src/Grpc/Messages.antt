-- ===== src/Grpc/Messages.antt =====
-- The ext_proc messages and responses, and the reading of headers and attributes
-- (internal/grpc/handlers.go).
use hypergate_engine.Prelude.{
  ℕ, Bool, List, [], ◌∷◌, ◌++◌, Option, none, some, if◌then◌else◌, ◌==◌, nat_eq, list_eq, length,
}
use hypergate_engine.Prelude.Text.{Str, lit, to_lower}
use hypergate_engine.Prelude.Maps.{Map, lookup, insert}
use hypergate_engine.Engine.Access.{or_empty}
use hypergate_engine.Grpc.Mutators.{HeaderMutation, BodyMutation, ProcessingMode}

-- A corev3.HeaderValue.
pub record HeaderValue : Type 0 where
  pub key : Str
  pub value : Str
  pub raw_value : Str

-- The string attributes of a request, by filter namespace and name; another kind of value reads as
-- the empty string.
abbrev pub Attributes : Type 0
Attributes = Map Str (Map Str Str)

pub data Message : Type 0 where
  request_headers : Option (List HeaderValue) → Bool → Attributes → Message
  request_body : Str → Message
  request_trailers : Option (List HeaderValue) → Message
  response_headers : Option (List HeaderValue) → Message
  response_body : Str → Message
  response_trailers : Option (List HeaderValue) → Message

pub data Response : Type 0 where
  immediate : ℕ → Option HeaderMutation → Str → Response
  request_headers : Option HeaderMutation → Option ProcessingMode → Response
  request_body : Option HeaderMutation → Option BodyMutation → Response
  request_trailers : Option HeaderMutation → Response
  response_headers : Option HeaderMutation → Option ProcessingMode → Response
  response_body : Option BodyMutation → Response
  response_trailers : Option HeaderMutation → Response

-- stringAttribute and PeerFromAttributes: the first non-empty value, in the order of the map.
unfoldable pub string_attribute : Attributes → Str → Str
string_attribute [] key = []
string_attribute ((_, fields) ∷ attrs) key =
    let rest = string_attribute attrs key in
    let v = or_empty (lookup key fields) in if v == [] then rest else v

abbrev raw_or_value : HeaderValue → Str
raw_or_value h = if length h.raw_value == 0 then h.value else h.raw_value

abbrev separator : Str → Str
separator key = if key == lit "cookie" then lit "; " else lit ", "

abbrev folded : Str → Option Str → Str → Str
folded key none val = val
folded key (some prev) val = if prev == [] then val else prev ++ separator key ++ val

unfoldable pub copy_list : List HeaderValue → Map Str Str → Map Str Str
copy_list [] dst = dst
copy_list (h ∷ hs) dst =
    let key = to_lower h.key in
    copy_list hs (insert key (folded key (lookup key dst) (raw_or_value h)) dst)

unfoldable pub copy_headers : Option (List HeaderValue) → Map Str Str → Map Str Str
unfolding copy_list
copy_headers none dst = dst
copy_headers (some hs) dst = copy_list hs dst
