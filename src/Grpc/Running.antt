-- ===== src/Grpc/Running.antt =====
-- Running a stream's chain within its limits (run of internal/grpc/handlers.go). The in-flight
-- counters are threaded through; the steps of other streams are in Limiter. Whether a context's
-- deadline has passed is `expired`, of the context and the state of the world.
pub mod Laws
use hypergate_engine.Prelude.{
  ℕ, zero, suc, ◌+◌, ◌-◌, Bool, true, false, ◌&&◌, ◌||◌, not, List, [], ◌∷◌, ◌++◌, Option, none,
  some, if◌then◌else◌, ◌==◌, nat_eq, list_eq, is_none, is_some, ltb, length, ℤ, pos, negsuc,
}
use hypergate_engine.Prelude.Text.{Str, lit}
use hypergate_engine.Prelude.Maps.{Map, lookup, insert}
use hypergate_engine.Config.Limits.{ChainSettings, no_settings, is_positive, limit_action_allow}
use hypergate_engine.Config.Parser.{Config}
use hypergate_engine.Engine.Context.{RequestContext, Ctx, Phase, block}
use hypergate_engine.Engine.Access.{set_header_downstream}
use hypergate_engine.Engine.Filter.{Chain, Outcome, Err}
use hypergate_engine.Engine.Executor.{execute}
use hypergate_engine.Grpc.Routing.{StreamState, unavailable}

-- The counters of the chains.
abbrev pub Limiter : Type 0
Limiter = Map Str ℕ

abbrev pub or_zero : Option ℕ → ℕ
or_zero none = 0
or_zero (some n) = n

-- A chain that has no counter yet gets one at 0.
abbrev pub count_of : Str → Limiter → ℕ
count_of name l = or_zero (lookup name l)

-- A bound that is not positive is no bound, and is not asked.
abbrev pub bound_of : ℤ → ℕ
bound_of (pos n) = n
bound_of (negsuc n) = 0

-- Whether the request may run. A refused one takes its addition back.
unfoldable pub acquire : Str → ℤ → Limiter → Limiter × Bool
acquire name limit l =
    let added = count_of name l + 1 in
    if ltb (bound_of limit) added
    then (insert name (added - 1) l, false)
    else (insert name added l, true)

unfoldable pub release : Str → Limiter → Limiter
release name l = insert name (count_of name l - 1) l

abbrev or_no_settings : Option ChainSettings → ChainSettings
or_no_settings none = no_settings
or_no_settings (some s) = s

abbrev settings_in : Option Config → Str → ChainSettings
settings_in none name = no_settings
settings_in (some c) name = or_no_settings (lookup name c.chain_settings)

abbrev with_ctx : Option Ctx → RequestContext → RequestContext
with_ctx ctx c = record c { ctx = ctx }

abbrev deadline_after : ℤ → Option Ctx → Option Ctx
deadline_after d none = some (bound_of d ∷ [])
deadline_after d (some ds) = some (bound_of d ∷ ds)

abbrev cleared : RequestContext → RequestContext
cleared c = record c {
  verdict = record c.verdict {
    blocked = false;
    filter_failed = false;
    response_status = 0;
    response_body = [];
  };
}

abbrev timed_out : RequestContext → RequestContext
timed_out c =
    let b = unavailable (record c { verdict = record c.verdict { filter_failed = false } }) in b

abbrev pub overloaded : RequestContext → RequestContext
overloaded c = unavailable (set_header_downstream (lit "retry-after") (lit "1") c)

module _ {W : Type 0} (expired : Option Ctx → W → Bool) where
  -- The switch behind Execute under a deadline.
  abbrev after_timeout : ChainSettings → Option Ctx → Outcome W → RequestContext
  after_timeout limits deadline o =
      if is_some o.error && expired deadline o.world
      then if limits.on_timeout == limit_action_allow
        then cleared o.context
        else timed_out o.context
      else o.context

  unfoldable pub run_filters :
      ChainSettings → StreamState W → Phase → RequestContext → W → RequestContext × W
  unfolding block
  run_filters limits st phase ctx w =
      let parent = ctx.ctx in
      let deadline = deadline_after limits.timeout_duration parent in
      let timed = execute st.chain phase (with_ctx deadline ctx) w in
      let plain = execute st.chain phase ctx w in
      if is_positive limits.timeout_duration
      then (with_ctx parent (after_timeout limits deadline timed), timed.world)
      else (plain.context, plain.world)

  abbrev pub limits_of : StreamState W → ChainSettings
  limits_of st = settings_in st.snap.config st.name

  abbrev released : Str → RequestContext × W → Limiter → RequestContext × Limiter × W
  released name (ctx, w) l = (ctx, release name l, w)

  abbrev admitted :
      ChainSettings
      → StreamState W
      → Phase
      → RequestContext
      → W
      → Limiter × Bool
      → RequestContext × Limiter × W
  admitted limits st phase ctx w (l, true) = released st.name (run_filters limits st phase ctx w) l
  admitted limits st phase ctx w (l, false) =
      if limits.on_overload == limit_action_allow then (ctx, l, w) else (overloaded ctx, l, w)

  unfoldable pub run :
      StreamState W → Phase → RequestContext → Limiter → W → RequestContext × Limiter × W
  unfolding acquire release
  run st phase ctx l w =
      let limits = limits_of st in
      let unlimited = run_filters limits st phase ctx w in
      if ctx.blocked || length st.chain == 0
      then (ctx, l, w)
      else if is_positive limits.max_concurrency
      then admitted limits st phase ctx w (acquire st.name limits.max_concurrency l)
      else (unlimited.0, l, unlimited.1)
