-- ===== src/Examples/Quotas.antt =====
-- A window of the rate limiter, over a world that is the counter of one key.
use hypergate_engine.Prelude.{
  ℕ, ◌+◌, ◌≤◌, true, false, [], ◌∷◌, none, some, ℤ, pos, negsuc, ◌≡◌, refl, sym, some_inj, arith,
  nat_eq, list_eq, list_beq, All, Option, List, inl,
}
use hypergate_engine.Prelude.Text.{Str, lit}
use hypergate_engine.Prelude.Maps.{lookup}
use hypergate_engine.Engine.Context.{RequestContext}
use hypergate_engine.Engine.Registry.{itoa}
use hypergate_engine.Filters.RateLimiter.Options.{Descriptor, FilterOptions, apply_defaults}
use hypergate_engine.Filters.RateLimiter.Cost.{request_cost, cap_of, request_cost-bounds}
use hypergate_engine.Filters.RateLimiter.Filter.{extract_descriptors}
use hypergate_engine.Filters.RateLimiter.Trust.{IsTrusted, IsOnly, lookup-extract_descriptors}
use hypergate_engine.Filters.RateLimiter.FixedWindow.{
  Store, extract, window_key, window_start, policy_matches,
}
use hypergate_engine.Filters.RateLimiter.Quota.{Counts, Call, admitted, InWindow, admitted-bounds}
use hypergate_engine.Examples.Data.{request}

abbrev charged : ℤ → ℕ → Option ℕ × ℕ
charged (pos n) w = (some (w + n), w + n)
charged (negsuc n) w = (none, w)

abbrev store : Store ℕ
store = record {
  now = λ w. 100;
  charge = λ key cost ttl w. charged cost w;
  jitter = λ w. (0, w);
  cached = true;
  blocked_locally = λ key w. false;
  block_locally = λ key ttl w. w;
}

abbrev policy : Descriptor
policy = record {
  entries = record { key = lit "ip"; value = [] } ∷ [];
  limit = 2;
  unit = lit "minute";
  shadow_mode = false;
  fail_open = false;
}

abbrev call : Call ℕ
call = record { before = λ w. w + 1; extracted = (lit "ip", lit "10.0.0.1") ∷ []; cost = 1 }

store-Counts : Counts store (lit "d_ip_10.0.0.1_60") (λ w. w)
store-Counts = record {
  adds = λ n ttl w h. (sym (some_inj h), some_inj h);
  keeps = λ n ttl w. omega arith;
  jitters = λ w. refl;
  remembers = λ key ttl w. refl;
}

abbrev calls : List (Call ℕ)
calls = call ∷ call ∷ []

calls-InWindow : InWindow store (lit "d") policy (lit "d_ip_10.0.0.1_60") (λ w. w) calls 0
unfolding InWindow policy_matches extract window_key window_start lookup list_beq itoa
calls-InWindow = (omega arith, refl, refl, (omega arith, refl, refl, tt))

admitted-bounds_example : admitted store (lit "d") policy calls 0 ≤ 2
admitted-bounds_example =
    admitted-bounds store (lit "d") policy (lit "d_ip_10.0.0.1_60") (λ w. w) store-Counts refl refl
      calls 0 calls-InWindow

abbrev options : FilterOptions
options = record {
  domain = lit "d";
  algorithm = lit "fixed_window";
  redis_service = lit "r";
  header_mappings = (lit "ip", lit "x-forwarded-for") ∷ [];
  response_headers = record {
    enabled = true;
    limit_header = [];
    remaining_header = [];
    reset_header = [];
  };
  dynamic_cost = record {
    enabled = true;
    source_header = lit "X-Cost";
    default_fallback_cost = pos 0;
    max_allowed_cost = pos 5;
  };
  descriptors = policy ∷ [];
}

abbrev caller : RequestContext
caller = record request {
  client_ip = lit "10.0.0.1";
  headers = (lit "x-cost", lit "-3") ∷ (lit "x-forwarded-for", lit "1.1.1.1") ∷ [];
}

request_cost-bounds_example :
    (n : ℕ) × (request_cost (apply_defaults options) caller ≡ pos n)
    × (1 ≤ n)
    × (n ≤ cap_of (pos 5) n)
request_cost-bounds_example = request_cost-bounds options caller

lookup-extract_descriptors_example :
    (v : Str) × (lookup (lit "ip") (extract_descriptors options caller) ≡ some v)
    × IsTrusted caller v
    × All (IsOnly (lit "ip") v) (extract_descriptors options caller)
unfolding list_beq
lookup-extract_descriptors_example =
    lookup-extract_descriptors options caller (lit "ip") (inl refl) refl
