-- ===== src/Examples/Origins.antt =====
-- CORS, denials and header edits.
use hypergate_engine.Prelude.{
  true, false, [], ◌∷◌, none, pos, ◌≡◌, ◌↔◌, ◌⊎◌, refl, list_beq, nat_eq, list_eq,
}
use hypergate_engine.Prelude.Text.{lit, to_lower}
use hypergate_engine.Prelude.Maps.{lookup}
use hypergate_engine.Engine.Headers.{contains_key}
use hypergate_engine.Engine.Context.{RequestContext, phase_eq}
use hypergate_engine.Engine.Access.{get_header}
use hypergate_engine.Filters.Cors.{Config, Filter, build, origin_allowed, execute}
use hypergate_engine.Filters.Cors.Laws.{execute-disallowed}
use hypergate_engine.Filters.Deny.{DenyFilter}
use hypergate_engine.Filters.Deny
use hypergate_engine.Filters.Deny.Laws.{IsMatched, execute-IsMatched}
use hypergate_engine.Filters.HeaderModifier.{
  HeaderOptions, ModifierConfig, modified, get_header-execute,
}
use hypergate_engine.Filters.HeaderModifier
use hypergate_engine.Examples.Data.{request}
use hypergate_engine.Examples.Headers.{no_changes-IsMirrored}

abbrev cors : Config
cors = record {
  allow_origins = lit "https://a.example" ∷ [];
  allow_origin_regex = [];
  allow_methods = [];
  allow_headers = [];
  expose_headers = [];
  allow_credentials = false;
  max_age = pos 0;
  block_disallowed_origins = false;
}

abbrev filter : Filter
filter = build cors false (lit "https://a.example" ∷ []) []

abbrev preflight : RequestContext
preflight = record request {
  method = lit "OPTIONS";
  headers =
      (lit "origin", lit "https://b.example")
      ∷ (lit "access-control-request-method", lit "PUT")
      ∷ [];
}

execute-disallowed_example : (execute filter preflight).downstream ≡ request.downstream
unfolding origin_allowed get_header lookup list_beq to_lower build contains_key
execute-disallowed_example = execute-disallowed filter preflight refl

abbrev deny : DenyFilter
deny = record {
  config = record {
    status_code = 403;
    body = lit "no";
    match = record {
      path_prefix = lit "/a";
      path_regex = [];
      compiled_path_regex = none;
      headers = (lit "x-a", lit "*") ∷ [];
      response_headers = [];
      not_headers = [];
      not_response_headers = [];
    };
  };
  has_conditions = true;
  matches_response = false;
}

execute-IsMatched_example :
    ((Deny.execute deny request).verdict.blocked ≡ true)
    ↔ ((true ≡ false) ⊎ IsMatched deny.config.match request)
execute-IsMatched_example = execute-IsMatched deny request refl

abbrev edits : HeaderOptions
edits = record { add = (lit "x-a", lit "1") ∷ []; override = []; remove = lit "x-b" ∷ [] }

abbrev modifier : ModifierConfig
modifier = record { upstream = edits; downstream = edits; top = edits }

get_header-execute_example :
    get_header (HeaderModifier.execute modifier request) (lit "x-a")
    ≡ modified edits (lit "x-a") (modified edits (lit "x-a") (get_header request (lit "x-a")))
get_header-execute_example = get_header-execute modifier request (lit "x-a") no_changes-IsMirrored
