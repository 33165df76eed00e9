-- ===== src/Filters/Cors.antt =====
-- The CORS filter (internal/filters/cors/cors.go). A regular expression is the function that it
-- matches with; `compile_regexp` is regexp.Compile.
pub mod Vary
pub mod Laws
use hypergate_engine.Prelude.{
  ℕ, zero, suc, Bool, true, false, not, List, [], ◌∷◌, ◌++◌, Option, none, some, ℤ, pos, negsuc,
  if◌then◌else◌, ◌==◌, Eq, nat_eq, list_eq, ◌&&◌, ◌||◌, any, is_some, ◌>>=◌, ◌>>◌, require, leb,
  ◌-◌,
}
use hypergate_engine.Prelude.Text.{
  Str, lit, to_lower, lower_byte, trim_space, trim_suffix, join, split, equal_fold,
}
use hypergate_engine.Prelude.Maps.{Map, lookup, insert}
use hypergate_engine.Engine.Context.{RequestContext, Phase, phase_eq, block, answer}
use hypergate_engine.Engine.Access.{get_header, set_header_downstream}
use hypergate_engine.Engine.Registry.{itoa}
use hypergate_engine.Filters.Cors.Vary.{merge_vary, map_or_empty}

pub record Config : Type 0 where
  pub allow_origins : List Str
  pub allow_origin_regex : List Str
  pub allow_methods : List Str
  pub allow_headers : List Str
  pub expose_headers : List Str
  pub allow_credentials : Bool
  pub max_age : ℤ
  pub block_disallowed_origins : Bool

pub record Filter : Type 0 where
  pub cfg : Config
  pub any_origin : Bool
  pub origins : List Str
  pub origin_regexps : List (Str → Bool)
  pub methods : Str
  pub any_method : Bool
  pub headers : Str
  pub any_header : Bool
  pub expose : Str
  pub max_age : Str

upper_byte : ℕ → ℕ
upper_byte c = if leb b'a' c && leb c b'z' then c - 32 else c

unfoldable pub to_upper : Str → Str
unfolding upper_byte
to_upper [] = []
to_upper (c ∷ s) = upper_byte c ∷ to_upper s

-- The loop over allow_origins: whether `*` is among them, and the set of the others.
unfoldable pub read_origins : List Str → Bool × List Str
unfolding trim_space to_lower trim_suffix
read_origins [] = (false, [])
read_origins (o ∷ os) =
    let (wild, set) = read_origins os in
    let t = trim_space o in
    if t == lit "*"
    then (true, set)
    else if t == []
    then (wild, set)
    else (wild, to_lower (trim_suffix t (lit "/")) ∷ set)

abbrev anchored : Str → Str
anchored pattern = lit "^(?:" ++ pattern ++ lit ")$"

unfoldable pub compile_all : (Str → Option (Str → Bool)) → List Str → Option (List (Str → Bool))
compile_all compile_regexp [] = some []
compile_all compile_regexp (p ∷ ps) = do
  re ← compile_regexp (anchored p)
  res ← compile_all compile_regexp ps
  some (re ∷ res)

-- The items of joinList, `none` at a `*`.
joined_items : (Str → Str) → List Str → Option (List Str)
unfolding trim_space
joined_items norm [] = some []
joined_items norm (i ∷ is) =
    let rest = joined_items norm is in
    let t = trim_space i in
    if t == lit "*" then none else if t == [] then rest else (do ts ← rest; some (norm t ∷ ts))

abbrev joined : Option (List Str) → Str × Bool
joined none = ([], true)
joined (some items) = (join (lit ", ") items, false)

unfoldable pub join_list : List Str → (Str → Str) → Str × Bool
unfolding joined_items join
join_list items norm = joined (joined_items norm items)

abbrev methods_or : List Str → List Str
methods_or [] = lit "GET" ∷ lit "HEAD" ∷ lit "POST" ∷ []
methods_or (m ∷ ms) = m ∷ ms

abbrev age_text : ℤ → Str
age_text (pos (suc n)) = itoa (suc n)
age_text _ = []

abbrev is_negative : ℤ → Bool
is_negative (pos n) = false
is_negative (negsuc n) = true

abbrev is_nil {ℓ} : {A : Type ℓ} → List A → Bool
is_nil [] = true
is_nil (x ∷ xs) = false

-- The three checks of NewFilter: some origin, no credentials for every origin, a maximal age.
abbrev pub is_valid : Config → Bool → List Str → List (Str → Bool) → Bool
is_valid cfg wild set regexps =
    not (not wild && is_nil set && is_nil regexps)
    && not (wild && cfg.allow_credentials)
    && not (is_negative cfg.max_age)

unfoldable pub build : Config → Bool → List Str → List (Str → Bool) → Filter
unfolding join_list to_upper to_lower itoa
build cfg wild set regexps =
    let (methods, any_method) = join_list (methods_or cfg.allow_methods) to_upper in
    let (headers, any_header) = join_list cfg.allow_headers to_lower in
    let (expose, any_expose) = join_list cfg.expose_headers to_lower in
    record {
      cfg = cfg;
      any_origin = wild;
      origins = set;
      origin_regexps = regexps;
      methods = methods;
      any_method = any_method;
      headers = headers;
      any_header = any_header;
      expose = expose;
      max_age = age_text cfg.max_age;
    }

abbrev pub checked : Config → Bool × List Str → List (Str → Bool) → Option Filter
checked cfg (wild, set) regexps = do
  _ ← require (is_valid cfg wild set regexps)
  some (build cfg wild set regexps)

-- NewFilter: `none` is an error.
unfoldable pub new_filter : (Str → Option (Str → Bool)) → Config → Option Filter
unfolding read_origins compile_all build
new_filter compile_regexp cfg = do
  regexps ← compile_all compile_regexp cfg.allow_origin_regex
  checked cfg (read_origins cfg.allow_origins) regexps

abbrev pub supported_phases : List Phase
supported_phases = Phase.request_headers ∷ Phase.response_headers ∷ []

abbrev pub set_unless_empty : Str → Str → RequestContext → RequestContext
set_unless_empty name [] c = c
set_unless_empty name (b ∷ v) c = set_header_downstream name (b ∷ v) c

unfoldable pub is_preflight : RequestContext → Bool
unfolding get_header
is_preflight c =
    c.method == lit "OPTIONS" && not (get_header c (lit "access-control-request-method") == [])

module _ (f : Filter) where
  unfoldable pub origin_allowed : Str → Bool
  unfolding to_lower
  origin_allowed origin =
      f.any_origin
      || any (λ (o : Str). o == to_lower origin) f.origins
      || any (λ (re : Str → Bool). re origin) f.origin_regexps

  unfoldable pub reflects_origin : Bool
  reflects_origin = not f.any_origin

  unfoldable pub set_allow_origin : Str → RequestContext → RequestContext
  unfolding reflects_origin set_header_downstream
  set_allow_origin origin c =
      let d =
        if reflects_origin
        then set_header_downstream (lit "vary") (lit "Origin")
            (set_header_downstream (lit "access-control-allow-origin") origin c)
        else set_header_downstream (lit "access-control-allow-origin") (lit "*") c in
      if f.cfg.allow_credentials
      then set_header_downstream (lit "access-control-allow-credentials") (lit "true") d
      else d

  -- The answer to a preflight request from an allowed origin.
  unfoldable pub answer_preflight : RequestContext → RequestContext
  unfolding answer set_header_downstream get_header to_upper
  answer_preflight c =
      let methods =
        if f.any_method
        then to_upper (get_header c (lit "access-control-request-method"))
        else f.methods in
      let headers =
        if f.any_header then get_header c (lit "access-control-request-headers") else f.headers in
      answer 204 [] (
        set_unless_empty (lit "access-control-max-age") f.max_age (
          set_unless_empty (lit "access-control-allow-headers") headers
            (set_header_downstream (lit "access-control-allow-methods") methods c)))

  unfoldable pub on_response : Str → RequestContext → RequestContext
  unfolding origin_allowed reflects_origin set_header_downstream merge_vary
  on_response origin c =
      if origin_allowed origin && reflects_origin
      then set_header_downstream (lit "vary")
          (merge_vary (map_or_empty (lookup (lit "vary") c.response_headers)) (lit "Origin")) c
      else c

  unfoldable pub on_request : Str → RequestContext → RequestContext
  unfolding origin_allowed is_preflight block set_allow_origin answer_preflight
  on_request origin c =
      if not (origin_allowed origin)
      then (if is_preflight c || f.cfg.block_disallowed_origins
          then block 403 (lit "CORS origin not allowed") c
          else c)
      else if is_preflight c
      then answer_preflight (set_allow_origin origin c)
      else set_unless_empty (lit "access-control-expose-headers") f.expose
          (set_allow_origin origin c)

  -- The result is always nil.
  unfoldable pub execute : RequestContext → RequestContext
  unfolding on_response on_request get_header
  execute c =
      let origin = get_header c (lit "origin") in
      if origin == []
      then c
      else if c.phase == Phase.response_headers
      then on_response origin c
      else on_request origin c
