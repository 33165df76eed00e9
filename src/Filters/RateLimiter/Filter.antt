-- ===== src/Filters/RateLimiter/Filter.antt =====
-- Execute of the rate limiter (internal/filters/rate_limiter/filter.go). The executor is what
-- ResolveExecutor made; FixedWindow is one.
use hypergate_engine.Prelude.{
  Bool, true, false, List, [], ◌∷◌, ◌++◌, Option, none, some, ℤ, if◌then◌else◌, ◌==◌, nat_eq,
  list_eq, ◌||◌, any,
}
use hypergate_engine.Prelude.Text.{Str, lit}
use hypergate_engine.Prelude.Maps.{Map, lookup}
use hypergate_engine.Engine.Context.{RequestContext}
use hypergate_engine.Engine.Access.{get_header, set_header_downstream}
use hypergate_engine.Engine.Filter.{Err, Outcome}
use hypergate_engine.Engine.Registry.{itoa}
use hypergate_engine.Filters.RateLimiter.Options.{EntryDef, Descriptor, FilterOptions}
use hypergate_engine.Filters.RateLimiter.Cost.{request_cost}
use hypergate_engine.Filters.RateLimiter.FixedWindow.{Decision}

-- A RateLimitExecutor: the extracted descriptors, the cost, and the state that it works on.
abbrev pub Executor : Type 0 → Type 0
Executor W = Map Str Str → ℤ → W → Option Decision × W

unfoldable pub is_ip_key : Str → Bool
is_ip_key key = key == lit "ip" || key == lit "client_ip" || key == lit "remote_ip"

abbrev pub or_default : Str → Str
or_default [] = lit "default"
or_default (c ∷ s) = c ∷ s

abbrev mapped_header : Option Str → Str → Str
mapped_header none key = key
mapped_header (some name) key = name

-- Rules A to D.
unfoldable pub runtime_value : FilterOptions → RequestContext → Str → Str
unfolding is_ip_key get_header lookup
runtime_value o c key = or_default (
    if is_ip_key key
    then c.client_ip
    else get_header c (mapped_header (lookup key o.header_mappings) key))

-- The two loops of Execute over the entries of all policies; each key is extracted once.
unfoldable pub extract_from :
    FilterOptions → RequestContext → List EntryDef → List Str → Map Str Str
unfolding runtime_value
extract_from o c [] seen = []
extract_from o c (e ∷ es) seen =
    let skipped = extract_from o c es seen in
    let extracted = (e.key, runtime_value o c e.key) ∷ extract_from o c es (e.key ∷ seen) in
    if any (λ k. k == e.key) seen then skipped else extracted

unfoldable pub all_entries : List Descriptor → List EntryDef
all_entries [] = []
all_entries (d ∷ ds) = d.entries ++ all_entries ds

unfoldable pub extract_descriptors : FilterOptions → RequestContext → Map Str Str
unfolding extract_from all_entries
extract_descriptors o c = extract_from o c (all_entries o.descriptors) []

unfoldable pub limit_headers : FilterOptions → Decision → RequestContext → RequestContext
unfolding itoa set_header_downstream
limit_headers o d c =
    let r = o.response_headers in
    if r.enabled
    then set_header_downstream r.reset_header (itoa d.reset) (
        set_header_downstream r.remaining_header (itoa d.remaining)
          (set_header_downstream r.limit_header (itoa d.limit) c))
    else c

-- Unlike RequestContext.Block, in three assignments.
abbrev too_many : RequestContext → RequestContext
too_many c = record c {
  verdict = record c.verdict {
    blocked = true;
    response_status = 429;
    response_body = lit "Too Many Requests";
  };
}

abbrev evaluation_failed : Err
evaluation_failed = lit "rate limit evaluation failed"

abbrev enforced : Bool → RequestContext → RequestContext
enforced true c = too_many c
enforced false c = c

abbrev decided : {W : Type 0} → FilterOptions → RequestContext → Option Decision × W → Outcome W
decided o c (none, w) = record { context = c; world = w; error = some evaluation_failed }
decided o c (some d, w) = record {
  context = enforced d.blocked (limit_headers o d c);
  world = w;
  error = none;
}

unfoldable pub execute : {W : Type 0} → Executor W → FilterOptions → RequestContext → W → Outcome W
unfolding extract_descriptors request_cost limit_headers
execute executor o c w = decided o c (executor (extract_descriptors o c) (request_cost o c) w)
