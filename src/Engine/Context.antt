-- ===== src/Engine/Context.antt =====
-- The request context (internal/engine/context.go, internal/engine/phase.go) and the pool that it
-- is drawn from (internal/memory/pool.go). The fields of the source stand in groups: the header
-- changes of each side, the trailers, and the verdict; capacities of slices are not modelled.
pub mod Laws
use hypergate_engine.Prelude.{
  ℕ, zero, suc, Bool, true, false, List, [], ◌∷◌, ◌++◌, Option, none, some, ℤ, pos, negsuc,
  if◌then◌else◌, ◌==◌, Eq, nat_eq, list_eq, ◌≡◌, ◌↔◌, arith,
}
use hypergate_engine.Prelude.Text.{Str, lit, to_lower}
use hypergate_engine.Prelude.Maps.{Map, lookup}
use hypergate_engine.Net.{Addr}
use hypergate_engine.Identity.Workload.{Workload}
use hypergate_engine.Selector.Traffic.{Traffic}
use hypergate_engine.Engine.Headers.{
  Changes, Trailers, no_changes, no_trailers, set_change, remove_change, set_trailer,
  remove_trailer, contains_key,
}

pub data Phase : Type 0 where
  request_headers request_body request_trailers : Phase
  response_headers response_body response_trailers : Phase

abbrev pub phase_beq : Phase → Phase → Bool
phase_beq request_headers request_headers = true
phase_beq request_body request_body = true
phase_beq request_trailers request_trailers = true
phase_beq response_headers response_headers = true
phase_beq response_body response_body = true
phase_beq response_trailers response_trailers = true
phase_beq _ _ = false

pub phase_beq_iff : (p q : Phase) → (phase_beq p q ≡ true) ↔ (p ≡ q)
phase_beq_iff p q = ground arith

instance abbrev pub phase_eq : Eq Phase
phase_eq = record { same = phase_beq; same_iff = phase_beq_iff }

-- A context.Context: the durations, in nanoseconds, of the deadlines set on the stream's context,
-- the last one first.
abbrev pub Ctx : Type 0
Ctx = List ℕ

pub record AuditHit : Type 0 where
  pub index : ℕ
  pub status : ℕ
  pub failed : Bool

-- A corev3.HeaderValueOption whose action is OVERWRITE_IF_EXISTS_OR_ADD.
pub record HeaderValueOption : Type 0 where
  pub key : Str
  pub raw_value : Str

pub record Verdict : Type 0 where
  pub blocked : Bool
  pub blocked_by : ℤ
  pub filter_failed : Bool
  pub answered : Bool
  pub response_status : ℕ
  pub response_body : Str

abbrev pub no_verdict : Verdict
no_verdict = record {
  blocked = false;
  blocked_by = negsuc 0;
  filter_failed = false;
  answered = false;
  response_status = 0;
  response_body = [];
}

pub record RequestContext : Type 0 where
  pub ctx : Option Ctx
  pub phase : Phase
  pub path : Str
  pub method : Str
  pub client_ip : Str
  pub client_addr : Addr
  pub destination_address : Str
  pub destination_addr : Addr
  pub host : Str
  pub traffic : Traffic
  pub source_workload : Option Workload
  pub destination_services : List Str
  pub request_end_of_stream : Bool
  pub request_body_seen : Bool
  pub headers : Map Str Str
  pub response_headers : Map Str Str
  pub upstream : Changes
  pub downstream : Changes
  pub verdict : Verdict
  pub open verdict use *
  pub audit_hits : List AuditHit
  pub matched_route : Str
  pub request_body : Str
  pub response_body_bytes : Str
  pub request_trailers : Trailers
  pub response_trailers : Trailers
  pub request_body_required : Bool
  pub response_body_required : Bool
  pub request_trailers_required : Bool
  pub response_trailers_required : Bool
  pub request_body_modified : Bool
  pub response_body_modified : Bool
  pub set_header_options : List HeaderValueOption

-- What the pool makes when it is empty.
abbrev pub new_context : RequestContext
new_context = record {
  ctx = none;
  phase = Phase.request_headers;
  path = [];
  method = [];
  client_ip = [];
  client_addr = Addr.invalid;
  destination_address = [];
  destination_addr = Addr.invalid;
  host = [];
  traffic = Traffic.any;
  source_workload = none;
  destination_services = [];
  request_end_of_stream = false;
  request_body_seen = false;
  headers = [];
  response_headers = [];
  upstream = no_changes;
  downstream = no_changes;
  verdict = no_verdict;
  audit_hits = [];
  matched_route = [];
  request_body = [];
  response_body_bytes = [];
  request_trailers = no_trailers;
  response_trailers = no_trailers;
  request_body_required = false;
  response_body_required = false;
  request_trailers_required = false;
  response_trailers_required = false;
  request_body_modified = false;
  response_body_modified = false;
  set_header_options = [];
}

unfoldable pub reset : RequestContext → RequestContext
reset c = record c {
  ctx = none;
  phase = Phase.request_headers;
  request_body_seen = false;
  path = [];
  method = [];
  client_ip = [];
  client_addr = Addr.invalid;
  destination_address = [];
  destination_addr = Addr.invalid;
  host = [];
  traffic = Traffic.any;
  source_workload = none;
  destination_services = [];
  request_end_of_stream = false;
  headers = [];
  response_headers = [];
  upstream = record { shadow = []; edits = record { to_add = []; to_remove = [] } };
  downstream = record { shadow = []; edits = record { to_add = []; to_remove = [] } };
  verdict = record c.verdict {
    blocked = false;
    blocked_by = negsuc 0;
    filter_failed = false;
    answered = false;
    response_status = 0;
    response_body = [];
  };
  audit_hits = [];
  matched_route = [];
  set_header_options = [];
  request_body = [];
  response_body_bytes = [];
  request_trailers = record { edits = record { to_add = []; to_remove = [] }; modified = false };
  response_trailers = record { edits = record { to_add = []; to_remove = [] }; modified = false };
  request_body_required = false;
  response_body_required = false;
  request_trailers_required = false;
  response_trailers_required = false;
  request_body_modified = false;
  response_body_modified = false;
}

unfoldable pub block : ℕ → Str → RequestContext → RequestContext
block status body c = record c {
  verdict = record c.verdict { blocked = true; response_status = status; response_body = body };
}

unfoldable pub answer : ℕ → Str → RequestContext → RequestContext
unfolding block
answer status body c =
    let b = block status body c in record b { verdict = record b.verdict { answered = true } }
