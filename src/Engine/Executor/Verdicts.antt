-- ===== src/Engine/Executor/Verdicts.antt =====
-- The verdict that a chain leaves in the context (Execute of internal/engine/executor.go).
use hypergate_engine.Prelude.{
  ℕ, suc, ◌+◌, ◌≤◌, ◌<◌, true, false, [], ◌∷◌, ◌≡◌, arith, inl, inr, pos, length, is_some, ◌++◌,
  none, some, refl, ◌∙◌, ap, sym, subst, Bool-cases,
}
use native.Mathlib.Nat.{zero-add}
use hypergate_engine.Prelude.Text.{lit}
use hypergate_engine.Engine.Context.{RequestContext, Phase}
use hypergate_engine.Engine.Filter.{
  Filter, Body, Chain, Outcome, Err, plain, is_audited, execute_filter,
}
use hypergate_engine.Engine.Executor.{
  Round, next, stop, resume, eligible, enforce, enforce_error, failed, visit, run_from, execute,
  execute_audited,
}
use hypergate_engine.Engine.Executor.Order.{run_from-blocked, run_from-append, and_then}

-- The filter that blocked stands at a position from `i` up to `n`.
abbrev pub BlockedWithin : ℕ → ℕ → RequestContext → Type 0
BlockedWithin i n c = (j : ℕ) × (c.blocked_by ≡ pos j) × (i ≤ j) × (j < n)

pub record IsDecided {W : Type 0} (i n : ℕ) (o : Outcome W) : Type 0 where
  pub blocks : o.context.blocked ≡ true → BlockedWithin i n o.context
  pub fails :
      is_some o.error ≡ true
      → (o.context.blocked ≡ true)
        × (o.context.filter_failed ≡ true)
        × (o.context.response_status ≡ 500)
        × (o.context.response_body ≡ lit "Internal Server Error")

abbrev RoundIs :
    {W : Type 0} → (RequestContext → W → Type 0) → (Outcome W → Type 0) → Round W → Type 0
RoundIs P Q (next c w) = P c w
RoundIs P Q (stop o) = Q o

module _ {W : Type 0} where
  resume-RoundIs :
      (Q : Outcome W → Type 0) (k : RequestContext → W → Outcome W) (r : Round W)
      → RoundIs (λ c w. Q (k c w)) Q r
      → Q (resume r k)
  resume-RoundIs Q k (next c w) h = h
  resume-RoundIs Q k (stop o) h = h

  RoundIs-map :
      (P P' : RequestContext → W → Type 0) (Q Q' : Outcome W → Type 0) (r : Round W)
      → RoundIs P Q r
      → ((c : RequestContext) (w : W) → P c w → P' c w)
      → ((o : Outcome W) → Q o → Q' o)
      → RoundIs P' Q' r
  RoundIs-map P P' Q Q' (next c w) h f g = f c w h
  RoundIs-map P P' Q Q' (stop o) h f g = g o h

  -- A round that leaves the loop names its own position, and so does an audited answer.
  visit-decides :
      (f : Filter W) (i : ℕ) (p : Phase) (c : RequestContext) (w : W)
      → c.blocked ≡ false
      → RoundIs
          (λ c' _. c'.blocked ≡ true → c'.blocked_by ≡ pos i)
          (IsDecided i (suc i))
          (visit f i p c w)
  unfolding visit execute_audited
  visit-decides f i p c w h = ground arith

  IsDecided-weaken :
      (i n i' n' : ℕ) (o : Outcome W) → i' ≤ i → n ≤ n' → IsDecided i n o → IsDecided i' n' o
  IsDecided-weaken i n i' n' o h k d = record {
    blocks = λ b. let (j, at, lo, hi) = d.blocks b in (j, at, omega arith, omega arith);
    fails = d.fails;
  }

  -- Where an unblocked request leaves the loop blocked, the filter that blocked it is one of the
  -- chain; where a filter's error ends the loop, the request is blocked with status 500.
  run_from-IsDecided :
      (fs : Chain W) (i : ℕ) (p : Phase) (c : RequestContext) (w : W)
      → c.blocked ≡ false
      → IsDecided i (i + length fs) (run_from fs i p c w)
  unfolding run_from
  run_from-IsDecided [] i p c w h = record { blocks = λ b. cc; fails = λ e. cc }
  run_from-IsDecided (f ∷ fs) i p c w h =
      resume-RoundIs (IsDecided i (i + suc (length fs))) (run_from fs (suc i) p) (visit f i p c w) (
        RoundIs-map (λ c' _. c'.blocked ≡ true → c'.blocked_by ≡ pos i)
          (λ c' w'. IsDecided i (i + suc (length fs)) (run_from fs (suc i) p c' w'))
          (IsDecided i (suc i)) (IsDecided i (i + suc (length fs))) (visit f i p c w)
          (visit-decides f i p c w h)
          (λ c' w' at. elim (Bool-cases c'.blocked) [
            | inl b ↦
                rw (run_from-blocked fs (suc i) p c' w' b)
                  (record { blocks = λ _. (i, at b, omega arith, omega arith); fails = λ e. cc })
            | inr b ↦
                IsDecided-weaken (suc i) (suc i + length fs) i (i + suc (length fs))
                  (run_from fs (suc i) p c' w') (omega arith) (omega arith)
                  (run_from-IsDecided fs (suc i) p c' w' b)
          ])
          (λ o d.
            IsDecided-weaken i (suc i) i (i + suc (length fs)) o (omega arith) (omega arith) d))

  execute-IsDecided :
      (fs : Chain W) (p : Phase) (c : RequestContext) (w : W)
      → c.blocked ≡ false
      → IsDecided 0 (length fs) (execute fs p c w)
  unfolding execute
  execute-IsDecided fs p c w h =
      IsDecided-weaken 0 (0 + length fs) 0 (length fs) (run_from fs 0 p (record c { phase = p }) w)
        (omega arith) (omega arith) (run_from-IsDecided fs 0 p (record c { phase = p }) w h)

  -- Where an unblocked request is blocked after a chain, the position that blocked it is one of the
  -- chain's.
  pub execute-blocker :
      (fs : Chain W) (p : Phase) (c : RequestContext) (w : W)
      → c.blocked ≡ false
      → (execute fs p c w).context.blocked ≡ true
      → BlockedWithin 0 (length fs) (execute fs p c w).context
  execute-blocker fs p c w h b = (execute-IsDecided fs p c w h).blocks b

  -- Where a chain returns an error for an unblocked request, the request is blocked as failed, with
  -- status 500 and a body that tells nothing.
  pub error-execute :
      (fs : Chain W) (p : Phase) (c : RequestContext) (w : W)
      → c.blocked ≡ false
      → is_some (execute fs p c w).error ≡ true
      → ((execute fs p c w).context.blocked ≡ true)
        × ((execute fs p c w).context.filter_failed ≡ true)
        × ((execute fs p c w).context.response_status ≡ 500)
        × ((execute fs p c w).context.response_body ≡ lit "Internal Server Error")
  error-execute fs p c w h e = (execute-IsDecided fs p c w h).fails e

  enforce_error-some :
      (i : ℕ) (o : Outcome W) (e : Err)
      → o.error ≡ some e
      → enforce_error i o.error o
        ≡ stop (record { context = failed i o.context; world = o.world; error = some e })
  enforce_error-some i o e h =
      subst
        (λ x.
          enforce_error i x o
          ≡ stop (record { context = failed i o.context; world = o.world; error = some e }))
        (sym h) refl

  visit-enforced :
      (b : Body W) (i : ℕ) (p : Phase) (c : RequestContext) (w : W)
      → c.blocked ≡ false
      → eligible (plain b) p ≡ true
      → visit (plain b) i p c w ≡ enforce (plain b) i c w
  unfolding visit is_audited
  visit-enforced b i p c w h r = ground arith

  run_from-failing :
      (b : Body W) (gs : Chain W) (i : ℕ) (p : Phase) (c : RequestContext) (w : W) (e : Err)
      → c.blocked ≡ false
      → eligible (plain b) p ≡ true
      → (b.execute c w).error ≡ some e
      → run_from (plain b ∷ gs) i p c w ≡ record {
        context = failed i (b.execute c w).context;
        world = (b.execute c w).world;
        error = some e;
      }
  unfolding run_from enforce execute_filter
  run_from-failing b gs i p c w e h r f =
      ap (λ v. resume v (run_from gs (suc i) p))
        (visit-enforced b i p c w h r ∙ enforce_error-some i (b.execute c w) e f)

  and_then-unblocked :
      (o : Outcome W) (rest : RequestContext → W → Outcome W)
      → o.error ≡ none
      → o.context.blocked ≡ false
      → and_then o rest ≡ rest o.context o.world
  and_then-unblocked o rest h k = ground arith

  execute-append :
      (fs gs : Chain W) (p : Phase) (c : RequestContext) (w : W)
      → execute (fs ++ gs) p c w
        ≡ and_then (execute fs p c w) (λ c' w'. run_from gs (0 + length fs) p c' w')
  unfolding execute
  execute-append fs gs p c w = run_from-append fs gs 0 p (record c { phase = p }) w

  -- Where an enforced filter runs, after a part of the chain that neither failed nor blocked, and
  -- returns an error, the chain returns that error at once: the request is blocked as failed under the
  -- filter's position, with status 500 and a body that tells nothing, and no later filter runs.
  pub execute-failed :
      (fs gs : Chain W) (b : Body W) (p : Phase) (c : RequestContext) (w : W) (e : Err)
      → (execute fs p c w).error ≡ none
      → (execute fs p c w).context.blocked ≡ false
      → eligible (plain b) p ≡ true
      → (b.execute (execute fs p c w).context (execute fs p c w).world).error ≡ some e
      → let r = execute (fs ++ plain b ∷ gs) p c w in
        (r.error ≡ some e)
        × (r.context.blocked ≡ true)
        × (r.context.filter_failed ≡ true)
        × (r.context.blocked_by ≡ pos (length fs))
        × (r.context.response_status ≡ 500)
        × (r.context.response_body ≡ lit "Internal Server Error")
        × (r.world ≡ (b.execute (execute fs p c w).context (execute fs p c w).world).world)
  execute-failed fs gs b p c w e ok h runs f =
      let o = execute fs p c w in
      rw
        (execute-append fs (plain b ∷ gs) p c w
          ∙ and_then-unblocked o (run_from (plain b ∷ gs) (0 + length fs) p) ok h
          ∙ run_from-failing b gs (0 + length fs) p o.context o.world e h runs f)
        (refl, refl, refl, ap pos (zero-add (length fs)), refl, refl, refl)
