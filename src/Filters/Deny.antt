-- ===== src/Filters/Deny.antt =====
-- The deny filter (internal/filters/deny/deny.go). A regular expression is the function that it
-- matches with; `compile_regexp` is regexp.Compile.
pub mod Laws
use hypergate_engine.Prelude.{
  ℕ, zero, suc, Bool, true, false, not, List, [], ◌∷◌, Option, none, some, if◌then◌else◌, ◌==◌,
  nat_eq, list_eq, list_beq, eq_iff, ◌&&◌, ◌||◌, all, All, ◌≡◌, ◌≢◌, ◌↔◌, ◌⊎◌, inl, inr, refl,
  arith, Bool-cases, ap, sym, ◌∙◌,
}
use hypergate_engine.Prelude.Text.{Str, lit, to_lower, has_prefix}
use hypergate_engine.Prelude.Maps.{Map, insert}
use hypergate_engine.Engine.Context.{RequestContext, Phase}
use hypergate_engine.Engine.Access.{get_header, get_response_header}

pub record MatchConfig : Type 0 where
  pub path_prefix : Str
  pub path_regex : Str
  pub compiled_path_regex : Option (Str → Bool)
  pub headers : Map Str Str
  pub response_headers : Map Str Str
  pub not_headers : Map Str Str
  pub not_response_headers : Map Str Str

pub record DenyConfig : Type 0 where
  pub status_code : ℕ
  pub body : Str
  pub match : MatchConfig

pub record DenyFilter : Type 0 where
  pub config : DenyConfig
  pub has_conditions : Bool
  pub matches_response : Bool

lower_keys : Map Str Str → Map Str Str → Map Str Str
unfolding to_lower insert
lower_keys [] out = out
lower_keys ((k, v) ∷ m) out = lower_keys m (insert (to_lower k) v out)

abbrev some_entries : Map Str Str → Bool
some_entries [] = false
some_entries (e ∷ m) = true

abbrev status_or : ℕ → ℕ → ℕ
status_or zero d = d
status_or (suc n) d = suc n

abbrev text_or : Str → Str → Str
text_or [] d = d
text_or (c ∷ s) d = c ∷ s

-- The conditions with lower-case header names, and the compiled expression.
unfoldable pub prepare_match : MatchConfig → Option (Str → Bool) → MatchConfig
unfolding lower_keys
prepare_match m regex = record m {
  compiled_path_regex = regex;
  headers = lower_keys m.headers [];
  response_headers = lower_keys m.response_headers [];
  not_headers = lower_keys m.not_headers [];
  not_response_headers = lower_keys m.not_response_headers [];
}

abbrev make : DenyConfig → MatchConfig → DenyFilter
make cfg m = record {
  config = record {
    status_code = status_or cfg.status_code 403;
    body = text_or cfg.body (lit "Forbidden");
    match = m;
  };
  has_conditions =
      not (m.path_prefix == [])
      || not (m.path_regex == [])
      || some_entries m.headers
      || some_entries m.response_headers
      || some_entries m.not_headers
      || some_entries m.not_response_headers;
  matches_response = some_entries m.response_headers || some_entries m.not_response_headers;
}

abbrev with_regex : DenyConfig → Str → Option (Str → Bool) → Option DenyFilter
with_regex cfg [] compiled = some (make cfg (prepare_match cfg.match cfg.match.compiled_path_regex))
with_regex cfg (c ∷ p) none = none
with_regex cfg (c ∷ p) (some re) = some (make cfg (prepare_match cfg.match (some re)))

-- NewDenyFilter: `none` is an error.
unfoldable pub new_deny_filter : (Str → Option (Str → Bool)) → DenyConfig → Option DenyFilter
unfolding prepare_match
new_deny_filter compile_regexp cfg =
    with_regex cfg cfg.match.path_regex (compile_regexp cfg.match.path_regex)

unfoldable pub supported_phases : DenyFilter → List Phase
supported_phases f =
    if f.matches_response then Phase.response_headers ∷ [] else Phase.request_headers ∷ []

-- A round of the loops over header conditions: a `*` wants any value.
abbrev pub expected : Str → Str → Bool
expected actual want = if want == lit "*" then not (actual == []) else actual == want

-- A round of the loops over negative conditions goes on.
abbrev pub unexpected : Str → Str → Bool
unexpected actual want = if want == lit "*" then actual == [] else not (actual == want)

abbrev regex_holds : Option (Str → Bool) → Str → Bool
regex_holds none path = true
regex_holds (some re) path = re path

-- No condition returns early.
unfoldable pub conditions_hold : MatchConfig → RequestContext → Bool
unfolding has_prefix get_header get_response_header
conditions_hold m c =
    (m.path_prefix == [] || has_prefix c.path m.path_prefix)
    && regex_holds m.compiled_path_regex c.path
    && all (λ (e : Str × Str). expected (get_header c e.0) e.1) m.headers
    && all (λ (e : Str × Str). expected (get_response_header c e.0) e.1) m.response_headers
    && all (λ (e : Str × Str). unexpected (get_header c e.0) e.1) m.not_headers
    && all (λ (e : Str × Str). unexpected (get_response_header c e.0) e.1) m.not_response_headers

unfoldable pub apply_block : DenyFilter → RequestContext → RequestContext
apply_block f c = record c {
  verdict = record c.verdict {
    blocked = true;
    response_status = f.config.status_code;
    response_body = f.config.body;
  };
}

-- The result is always nil.
unfoldable pub execute : DenyFilter → RequestContext → RequestContext
unfolding conditions_hold apply_block
execute f c =
    if not f.has_conditions
    then apply_block f c
    else if conditions_hold f.config.match c
    then apply_block f c
    else c
