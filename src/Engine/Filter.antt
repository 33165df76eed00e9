-- ===== src/Engine/Filter.antt =====
-- Filters and chains (internal/engine/filter.go, phase.go, audit.go). `W` is the state outside the
-- request that filters read and write: Redis, caches, sidecars and the clock.
use hypergate_engine.Prelude.{ℕ, Bool, true, false, List, [], ◌∷◌, Option, none, some, take, length}
use hypergate_engine.Prelude.Text.{Str}
use hypergate_engine.Engine.Headers.{Changes}
use hypergate_engine.Engine.Context.{RequestContext, Phase, phase_eq}

-- An `error` value, by its message.
abbrev pub Err : Type 0
Err = Str

pub record Outcome (W : Type 0) : Type 0 where
  pub context : RequestContext
  pub world : W
  pub error : Option Err

-- A type that implements Filter: `phases` is `none` where it does not implement PhaseAware.
pub record Body (W : Type 0) : Type 0 where
  pub phases : Option (List Phase)
  pub execute : RequestContext → W → Outcome W

-- A Filter value: a plain filter, or one in an auditedFilter.
pub data Filter (W : Type 0) : Type 0 where
  plain : Body W → Filter W
  audited : Filter W → Filter W

abbrev pub Chain : Type 0 → Type 0
Chain W = List (Filter W)

abbrev or_request_headers : Option (List Phase) → List Phase
or_request_headers (some ps) = ps
or_request_headers none = Phase.request_headers ∷ []

module _ {W : Type 0} where
  pub audit : Filter W → Filter W
  audit f = audited f

  unfoldable pub is_audited : Filter W → Filter W × Bool
  is_audited (plain b) = (plain b, false)
  is_audited (audited f) = (f, true)

  -- The PhaseAware view of a filter: an auditedFilter always implements it.
  unfoldable pub phase_aware : Filter W → Option (List Phase)
  phase_aware (plain b) = b.phases
  phase_aware (audited f) = some (or_request_headers (phase_aware f))

  -- An auditedFilter has the Execute of the filter in it.
  unfoldable pub execute_filter : Filter W → RequestContext → W → Outcome W
  execute_filter (plain b) c w = b.execute c w
  execute_filter (audited f) c w = execute_filter f c w

-- The header and path state that an audited filter may change.
pub record Mutations : Type 0 where
  pub path : Str
  pub upstream : Changes
  pub downstream : Changes
  pub set_header_options : ℕ

unfoldable pub save_mutations : RequestContext → Mutations
save_mutations c = record {
  path = c.path;
  upstream = c.upstream;
  downstream = c.downstream;
  set_header_options = length c.set_header_options;
}

unfoldable pub restore_mutations : Mutations → RequestContext → RequestContext
restore_mutations m c = record c {
  path = m.path;
  upstream = m.upstream;
  downstream = m.downstream;
  set_header_options = take m.set_header_options c.set_header_options;
}

unfoldable pub unblock : RequestContext → RequestContext
unblock c = record c {
  verdict = record c.verdict {
    blocked = false;
    answered = false;
    response_status = 0;
    response_body = [];
  };
}
