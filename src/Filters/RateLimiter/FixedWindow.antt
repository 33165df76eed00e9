-- ===== src/Filters/RateLimiter/FixedWindow.antt =====
-- The fixed window (internal/filters/rate_limiter/fixed_window.go). The policies stand in the order in
-- which NewFixedWindowExecutor sorted them. `W` is the state outside the executor: Redis, the local
-- cache, the clock and the source of jitter.
use hypergate_engine.Prelude.{
  ℕ, ◌+◌, ◌-◌, ◌*◌, ◌/◌, ◌%◌, ◌^◌, Bool, true, false, not, List, [], ◌∷◌, ◌++◌, Option, none, some,
  ℤ, pos, negsuc, if◌then◌else◌, ◌==◌, nat_eq, list_eq, ltb, leb, ◌&&◌, ◌||◌, all, any, map,
}
use hypergate_engine.Prelude.Text.{Str, lit, to_lower, join}
use hypergate_engine.Prelude.Maps.{Map, lookup, insert}
use hypergate_engine.Engine.Registry.{itoa}
use hypergate_engine.Filters.RateLimiter.Options.{EntryDef, Descriptor}

-- The clients and the clock. `charge` is the pipeline of INCRBY and EXPIRE: the count after it, or
-- `none` where it fails. `blocked_locally` and `block_locally` are Get and Set of the local cache, and
-- `cached` tells whether there is one; `jitter` draws a number below five, or nothing without a source.
pub record Store (W : Type 0) : Type 0 where
  pub now : W → ℕ
  pub charge : Str → ℤ → ℕ → W → Option ℕ × W
  pub jitter : W → ℕ × W
  pub cached : Bool
  pub blocked_locally : Str → W → Bool
  pub block_locally : Str → ℕ → W → W

-- `limit` and `remaining` are uint32; the reset is in seconds.
pub record Decision : Type 0 where
  pub blocked : Bool
  pub limit : ℕ
  pub remaining : ℕ
  pub reset : ℕ

abbrev pub max_uint32 : ℕ
max_uint32 = 2 ^ 32 - 1

abbrev pub uint64 : ℤ → ℕ
uint64 (pos n) = n % 2 ^ 64
uint64 (negsuc n) = 2 ^ 64 - (n + 1) % 2 ^ 64

unfoldable pub divider : Str → ℕ
unfolding to_lower
divider unit =
    let u = to_lower unit in
    if u == lit "second"
    then 1
    else if u == lit "minute"
    then 60
    else if u == lit "hour"
    then 3600
    else if u == lit "day"
    then 86400
    else if u == lit "week"
    then 604800
    else if u == lit "month"
    then 2592000
    else if u == lit "year"
    then 31536000
    else 60

abbrev entry_key : EntryDef → Str
entry_key e = e.key

-- The signature of the keys that a policy looks at.
unfoldable pub dimension : Descriptor → Str
unfolding join
dimension p = join (lit "_") (map entry_key p.entries)

abbrev is_one : ℤ → Bool
is_one (pos n) = n == 1
is_one (negsuc n) = false

abbrev value_of : Option Str → Str
value_of none = []
value_of (some v) = v

abbrev entry_holds : Option Str → Str → Bool
entry_holds none want = false
entry_holds (some v) want = want == [] || want == v

-- The map of the extracted keys, of which the last wins.
unfoldable pub extract : Map Str Str → Map Str Str → Map Str Str
unfolding insert
extract [] m = m
extract ((k, v) ∷ ds) m = extract ds (insert k v m)

unfoldable pub policy_matches : Map Str Str → Descriptor → Bool
unfolding lookup
policy_matches extracted p =
    all (λ (e : EntryDef). entry_holds (lookup e.key extracted) e.value) p.entries

key_parts : Map Str Str → List EntryDef → Str
unfolding lookup
key_parts extracted [] = []
key_parts extracted (e ∷ es) =
    lit "_" ++ e.key ++ lit "_" ++ value_of (lookup e.key extracted) ++ key_parts extracted es

-- The Redis key of a policy in the window that starts at the time.
unfoldable pub window_key : Str → Map Str Str → Descriptor → ℕ → Str
unfolding key_parts itoa
window_key domain extracted p start =
    domain ++ key_parts extracted p.entries ++ lit "_" ++ itoa start

unfoldable pub window_start : Descriptor → ℕ → ℕ
unfolding divider
window_start p now = now / divider p.unit * divider p.unit

unfoldable pub reset_seconds : Descriptor → ℕ → ℕ
unfolding divider
reset_seconds p now = divider p.unit - now % divider p.unit

abbrev deny : Descriptor → ℕ → Decision
deny p reset = record { blocked = true; limit = p.limit; remaining = 0; reset = reset }

-- The stricter of the decision so far and a quota.
unfoldable pub tighten : Descriptor → ℕ → ℕ → Decision → Decision
tighten p remain reset d =
    if ltb remain d.remaining
    then record d { limit = p.limit; remaining = remain; reset = reset }
    else d

-- What a policy that applies makes of a request: the loop returns a decision, returns an error, or
-- goes on with another decision so far.
pub data Judgement : Type 0 where
  returns : Decision → Judgement
  fails : Judgement
  continues : Decision → Judgement

module _ {W : Type 0} (store : Store W) (cost : ℤ) where
  -- The local cache is told of a key over its limit.
  unfoldable pub remember : Descriptor → Str → ℕ → ℕ → W → W
  remember p key count reset w =
      if store.cached && (is_one cost || leb p.limit ((count + 2 ^ 64 - uint64 cost) % 2 ^ 64))
      then store.block_locally key reset w
      else w

  -- Step 4, with the count that Redis gave.
  unfoldable pub enforce : Descriptor → Str → ℕ → ℕ → Decision → W → Judgement × W
  unfolding remember tighten
  enforce p key count reset d w =
      if ltb p.limit count
      then (if p.shadow_mode
          then (Judgement.continues (tighten p 0 reset d), w)
          else (Judgement.returns (deny p reset), remember p key count reset w))
      else (
        Judgement.continues (tighten p ((p.limit + 2 ^ 32 - count % 2 ^ 32) % 2 ^ 32) reset d),
        w,
      )

  unfoldable pub counted : Descriptor → Str → ℕ → Decision → Option ℕ → W → Judgement × W
  unfolding enforce
  counted p key reset d none w =
      if p.fail_open then (Judgement.continues d, w) else (Judgement.fails, w)
  counted p key reset d (some count) w = enforce p key count reset d w

  -- Steps 2 to 4 for a policy and its key.
  unfoldable pub judge : Descriptor → Str → ℕ → Decision → W → Judgement × W
  unfolding counted
  judge p key reset d w =
      let (extra, v) = store.jitter w in
      let (count, u) = store.charge key cost (reset + extra) v in
      if store.cached && store.blocked_locally key w
      then (Judgement.returns (deny p reset), w)
      else counted p key reset d count u

-- The decision so far becomes the result.
unfoldable pub normalize : Decision → Decision
normalize d =
    if d.remaining == max_uint32
    then record d { blocked = false; limit = 0; remaining = 0 }
    else record d { blocked = false }

module _ {W : Type 0} (store : Store W) (domain : Str) (extracted : Map Str Str) (now : ℕ)
    (cost : ℤ) where
  -- A policy that applies.
  unfoldable pub apply_policy : Descriptor → Decision → W → Judgement × W
  unfolding judge window_key window_start reset_seconds
  apply_policy p d w =
      judge store cost p (window_key domain extracted p (window_start p now)) (reset_seconds p now)
        d w

  abbrev pub go_on : (Decision → W → Option Decision × W) → Judgement × W → Option Decision × W
  go_on rest (Judgement.returns d, w) = (some d, w)
  go_on rest (Judgement.fails, w) = (none, w)
  go_on rest (Judgement.continues d, w) = rest d w

  -- The loop over the policies; `seen` holds the dimensions that were evaluated.
  unfoldable pub evaluate_from : List Descriptor → List Str → Decision → W → Option Decision × W
  unfolding apply_policy policy_matches dimension normalize
  evaluate_from [] seen d w = (some (normalize d), w)
  evaluate_from (p ∷ ps) seen d w =
      let skipped = evaluate_from ps seen d w in
      let applied = go_on (evaluate_from ps (dimension p ∷ seen)) (apply_policy p d w) in
      if any (λ s. s == dimension p) seen || not (policy_matches extracted p)
      then skipped
      else applied

abbrev no_decision : Decision
no_decision = record { blocked = false; limit = 0; remaining = max_uint32; reset = 0 }

-- Evaluate: `none` is an error.
unfoldable pub evaluate :
    {W : Type 0} → Store W → Str → List Descriptor → Map Str Str → ℤ → W → Option Decision × W
unfolding evaluate_from extract
evaluate store domain policies ds cost w =
    evaluate_from store domain (extract ds []) (store.now w) cost policies [] no_decision w
