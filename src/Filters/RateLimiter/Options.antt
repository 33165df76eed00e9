-- ===== src/Filters/RateLimiter/Options.antt =====
-- The settings of the rate limiter (internal/filters/rate_limiter/filter.go) and the choice of its
-- algorithm (internal/filters/rate_limiter/executor.go). Durations are in seconds.
use hypergate_engine.Prelude.{
  ℕ, zero, suc, Bool, true, false, not, List, [], ◌∷◌, Option, none, some, ℤ, pos, negsuc,
  if◌then◌else◌, ◌==◌, nat_eq, list_eq, map,
}
use hypergate_engine.Prelude.Text.{Str, lit, to_lower, trim_space}
use hypergate_engine.Prelude.Maps.{Map, insert}

-- A DescriptorEntryDef: an empty value matches every value.
pub record EntryDef : Type 0 where
  pub key : Str
  pub value : Str

-- A YamlDescriptor, with the fields that the fixed window reads; `limit` is a uint32.
pub record Descriptor : Type 0 where
  pub entries : List EntryDef
  pub limit : ℕ
  pub unit : Str
  pub shadow_mode : Bool
  pub fail_open : Bool

pub record ResponseHeaders : Type 0 where
  pub enabled : Bool
  pub limit_header : Str
  pub remaining_header : Str
  pub reset_header : Str

pub record DynamicCost : Type 0 where
  pub enabled : Bool
  pub source_header : Str
  pub default_fallback_cost : ℤ
  pub max_allowed_cost : ℤ

pub record FilterOptions : Type 0 where
  pub domain : Str
  pub algorithm : Str
  pub redis_service : Str
  pub header_mappings : Map Str Str
  pub response_headers : ResponseHeaders
  pub dynamic_cost : DynamicCost
  pub descriptors : List Descriptor

-- At least one unit.
abbrev pub at_least_one : ℤ → ℤ
at_least_one (pos (suc n)) = pos (suc n)
at_least_one (pos zero) = pos 1
at_least_one (negsuc n) = pos 1

abbrev lower_or : Str → Str → Str
lower_or [] d = d
lower_or (c ∷ s) d = to_lower (c ∷ s)

lower_mappings : Map Str Str → Map Str Str → Map Str Str
unfolding to_lower insert
lower_mappings [] lowered = lowered
lower_mappings ((k, v) ∷ m) lowered = lower_mappings m (insert (to_lower k) (to_lower v) lowered)

abbrev lower_entry : EntryDef → EntryDef
lower_entry e = record { key = to_lower e.key; value = to_lower e.value }

abbrev lower_descriptor : Descriptor → Descriptor
lower_descriptor d = record d { entries = map lower_entry d.entries }

unfoldable pub apply_defaults : FilterOptions → FilterOptions
unfolding to_lower lower_mappings
apply_defaults o = record o {
  dynamic_cost = record o.dynamic_cost {
    source_header = to_lower o.dynamic_cost.source_header;
    default_fallback_cost = at_least_one o.dynamic_cost.default_fallback_cost;
  };
  response_headers = record o.response_headers {
    limit_header = lower_or o.response_headers.limit_header (lit "ratelimit-limit");
    remaining_header = lower_or o.response_headers.remaining_header (lit "ratelimit-remaining");
    reset_header = lower_or o.response_headers.reset_header (lit "ratelimit-reset");
  };
  header_mappings = lower_mappings o.header_mappings [];
  descriptors = map lower_descriptor o.descriptors;
}

pub data Algorithm : Type 0 where
  fixed_window sliding_window_counter token_bucket sliding_window_log leaky_bucket : Algorithm

abbrev without_dynamic_cost : Bool → Algorithm → Option Algorithm
without_dynamic_cost true a = none
without_dynamic_cost false a = some a

-- ResolveExecutor: `none` is the error. The first argument tells whether there is a Redis client.
unfoldable pub resolve_executor : Bool → Str → FilterOptions → Option Algorithm
unfolding to_lower trim_space
resolve_executor client algorithm o =
    let algo = to_lower (trim_space algorithm) in
    if not client
    then none
    else if algo == lit "fixed_window"
    then some Algorithm.fixed_window
    else if algo == lit "sliding_window_counter"
    then some Algorithm.sliding_window_counter
    else if algo == lit "token_bucket"
    then some Algorithm.token_bucket
    else if algo == lit "sliding_window_log"
    then without_dynamic_cost o.dynamic_cost.enabled Algorithm.sliding_window_log
    else if algo == lit "leaky_bucket"
    then some Algorithm.leaky_bucket
    else none
