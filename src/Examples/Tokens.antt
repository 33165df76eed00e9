-- ===== src/Examples/Tokens.antt =====
-- Tokens: a request with a cookie, and the JWT filter that reads it.
use hypergate_engine.Prelude.{
  ℕ, true, false, [], ◌∷◌, none, some, pos, if◌then◌else◌, ◌==◌, nat_eq, list_eq, list_beq, ◌≡◌,
  ◌↔◌, refl, arith, Option, eq_false_ne,
}
use hypergate_engine.Prelude.Text.{Str, lit, to_lower, split}
use hypergate_engine.Engine.Context.{RequestContext}
use hypergate_engine.Engine.Access.{get_header}
use hypergate_engine.Filters.Query.{query_parts, query_parts-split, drop_tail}
use hypergate_engine.Filters.Jwt.Claims.{Claim}
use hypergate_engine.Filters.Jwt.Config.{Config}
use hypergate_engine.Filters.Jwt.Validate.{State, Services, Reply}
use hypergate_engine.Filters.Jwt.Execute.{execute, extract_token, strip_token}
use hypergate_engine.Filters.Jwt.Laws.{IsMapped}
use hypergate_engine.Filters.Jwt.Stripping.{extract_token-strip_token}
use hypergate_engine.Filters.Jwt.Admission.{IsAdmitted, token_of, execute-IsAdmitted}
use hypergate_engine.Filters.Jwt.Assertions.{IsAsserted, execute-IsAsserted}
use hypergate_engine.Examples.Data.{request}
use hypergate_engine.Examples.Headers.{no_changes-IsMirrored}

abbrev cfg : Config
cfg = record {
  source = lit "Cookie";
  header_name = lit "authorization";
  query_param = lit "token";
  cookie_name = lit "jwt";
  jwks_endpoint = [];
  jwks_refresh_interval = pos 1;
  local_secret = lit "secret";
  local_secret_file = [];
  algorithm = lit "HS256";
  issuer = [];
  audience = [];
  claim_mappings = (lit "sub", lit "X-User") ∷ [];
  introspection_endpoint = [];
  introspection_auth_header = [];
  introspection_auth_header_file = [];
  introspection_timeout = pos 1;
  fail_open = false;
  strip_token = true;
}

abbrev services : Services ℕ ℕ
services = record {
  parse = λ key issuer audience token w.
      if token == lit "good"
      then some (some ((lit "sub", Claim.text (lit "alice")) ∷ []))
      else none;
  fetch = λ endpoint w. (none, w);
  now = λ w. w;
  waits = λ s. s;
  valid_url = λ url. true;
  post = λ url auth token w. (Reply.unreachable, w);
}

abbrev state : State ℕ ℕ
state = record { key_set = none; last_fetch = 0; world = 0 }

abbrev caller : RequestContext
caller = record request {
  headers = (lit "cookie", lit "a=b; jwt=good") ∷ (lit "x-user", lit "root") ∷ [];
}

abbrev unescape : Str → Option Str
unescape s = some s

execute-IsAdmitted_example :
    ((execute services unescape cfg caller state).0.verdict.blocked ≡ false)
    ↔ IsAdmitted services cfg (token_of unescape cfg caller) state
execute-IsAdmitted_example = execute-IsAdmitted services unescape cfg caller state refl

execute-IsAsserted_example :
    IsAsserted services cfg
      (lit "x-user")
      (token_of unescape cfg caller)
      state
      (get_header (execute services unescape cfg caller state).0 (lit "x-user"))
unfolding to_lower list_beq
execute-IsAsserted_example =
    execute-IsAsserted services unescape cfg (lit "x-user") caller state no_changes-IsMirrored
      (IsMapped.here (lit "sub") (lit "X-User") [] refl)
      (eq_false_ne (lit "x-user") (lit ":path") refl)
      (eq_false_ne (lit "x-user") (lit "cookie") refl)

extract_token-strip_token_example : extract_token unescape cfg (strip_token cfg caller) ≡ []
unfolding to_lower
extract_token-strip_token_example =
    extract_token-strip_token unescape cfg caller no_changes-IsMirrored refl (cc) refl

query_parts-split_example : query_parts 6 (lit "a=b&c&") ≡ drop_tail (split b'&' (lit "a=b&c&"))
query_parts-split_example = query_parts-split 6 (lit "a=b&c&") (omega arith)
