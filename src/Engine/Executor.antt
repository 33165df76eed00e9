-- ===== src/Engine/Executor.antt =====
-- The chain executor (internal/engine/executor.go). A round of its loop is `visit`.
pub mod Order
pub mod Verdicts
pub mod Audits
use hypergate_engine.Prelude.{
  ℕ, suc, Bool, true, false, List, [], ◌∷◌, ◌++◌, Option, none, some, pos, if◌then◌else◌, ◌==◌, any,
  nat_eq,
}
use hypergate_engine.Prelude.Text.{lit}
use hypergate_engine.Engine.Context.{RequestContext, AuditHit, Phase, phase_eq, Verdict}
use hypergate_engine.Engine.Filter.{
  Filter, Chain, Outcome, Err, is_audited, phase_aware, execute_filter, save_mutations,
  restore_mutations, unblock,
}

unfoldable pub phase_supported : List Phase → Phase → Bool
phase_supported ps target = any (λ p. p == target) ps

-- The phase gate: a filter that declares no phases runs on request headers only.
abbrev supports : Option (List Phase) → Phase → Bool
supports (some ps) phase = phase_supported ps phase
supports none phase = phase == Phase.request_headers

-- What a round does: go on with the next filter, or leave the loop.
pub data Round (W : Type 0) : Type 0 where
  next : RequestContext → W → Round W
  stop : Outcome W → Round W

module _ {W : Type 0} where
  unfoldable pub eligible : Filter W → Phase → Bool
  unfolding phase_supported
  eligible f phase = supports (phase_aware f) phase

  abbrev pub done : RequestContext → W → Outcome W
  done c w = record { context = c; world = w; error = none }

-- An enforced filter's error, or its block, ends the chain.
abbrev failed : ℕ → RequestContext → RequestContext
failed i c = record c {
  verdict = record c.verdict {
    blocked_by = pos i;
    filter_failed = true;
    blocked = true;
    response_status = 500;
    response_body = lit "Internal Server Error";
  };
}

abbrev decided_by : ℕ → RequestContext → RequestContext
decided_by i c = record c { verdict = record c.verdict { blocked_by = pos i } }

abbrev record_hit : AuditHit → RequestContext → RequestContext
record_hit hit c = record c { audit_hits = c.audit_hits ++ hit ∷ [] }

abbrev status_or_403 : ℕ → ℕ
status_or_403 status = if status == 0 then 403 else status

-- The switch of executeAudited on what the filter returned, at position `index`.
abbrev audit_outcome :
    ℕ → Option Err → Bool → Bool → RequestContext → RequestContext → RequestContext
audit_outcome index (some e) blocked answered saved c =
    let hit : AuditHit = record { index = index; status = 500; failed = true } in
    unblock (restore_mutations (save_mutations saved) (record_hit hit c))
audit_outcome index none true false saved c =
    let hit : AuditHit = record {
      index = index;
      status = status_or_403 c.response_status;
      failed = false;
    } in
    unblock (restore_mutations (save_mutations saved) (record_hit hit c))
audit_outcome index none true true saved c = decided_by index c
audit_outcome index none false answered saved c = c

module _ {W : Type 0} where
  unfoldable pub execute_audited : Filter W → ℕ → RequestContext → W → RequestContext × W
  unfolding save_mutations restore_mutations unblock
  execute_audited f index c w =
      let o = execute_filter f c w in
      (audit_outcome index o.error o.context.blocked o.context.answered c o.context, o.world)

  abbrev enforce_error : ℕ → Option Err → Outcome W → Round W
  enforce_error i (some e) o =
      stop (record { context = failed i o.context; world = o.world; error = some e })
  enforce_error i none o =
      if o.context.blocked
      then stop (done (decided_by i o.context) o.world)
      else next o.context o.world

  unfoldable pub enforce : Filter W → ℕ → RequestContext → W → Round W
  enforce f i c w = let o = execute_filter f c w in enforce_error i o.error o

  unfoldable pub visit : Filter W → ℕ → Phase → RequestContext → W → Round W
  unfolding is_audited enforce
  visit f i phase c w =
      let (filter, is_audit) = is_audited f in
      if c.blocked
      then stop (done c w)
      else if eligible filter phase
      then if is_audit
        then (let (c', w') = execute_audited filter i c w in next c' w')
        else enforce filter i c w
      else next c w

  abbrev pub resume : Round W → (RequestContext → W → Outcome W) → Outcome W
  resume (next c w) rest = rest c w
  resume (stop o) rest = o

  -- The loop from position `i`.
  unfoldable pub run_from : Chain W → ℕ → Phase → RequestContext → W → Outcome W
  run_from [] i phase c w = done c w
  run_from (f ∷ fs) i phase c w =
      resume (visit f i phase c w) (λ c' w'. run_from fs (suc i) phase c' w')

  unfoldable pub execute : Chain W → Phase → RequestContext → W → Outcome W
  unfolding run_from
  execute chain phase c w = run_from chain 0 phase (record c { phase = phase }) w
