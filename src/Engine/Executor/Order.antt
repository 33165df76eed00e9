-- ===== src/Engine/Executor/Order.antt =====
-- The order of a chain, and blocked requests (Execute of internal/engine/executor.go).
use hypergate_engine.Prelude.{
  ℕ, suc, ◌+◌, Bool, true, false, [], ◌∷◌, ◌++◌, none, some, ◌≡◌, refl, sym, ◌∙◌, arith, ◌⊎◌,
  is_some, length, if◌then◌else◌,
}
use native.Mathlib.Nat.{add-zero, add-suc, suc-add}
use hypergate_engine.Engine.Context.{RequestContext, Phase}
use hypergate_engine.Engine.Filter.{Filter, Chain, Outcome}
use hypergate_engine.Engine.Executor.{Round, next, stop, done, resume, visit, run_from, execute}

if-same {ℓ} : {A : Type ℓ} (b : Bool) (x y : A) → (b ≡ true → x ≡ y) → (if b then x else y) ≡ y
if-same true x y h = h refl
if-same false x y h = refl

module _ {W : Type 0} where
  visit-blocked :
      (f : Filter W) (i : ℕ) (p : Phase) (c : RequestContext) (w : W)
      → c.blocked ≡ true
      → visit f i p c w ≡ stop (done c w)
  unfolding visit
  visit-blocked f i p c w h = rw h refl

  -- A blocked request runs no filter of the chain: nothing of it or outside it changes.
  pub run_from-blocked :
      (fs : Chain W) (i : ℕ) (p : Phase) (c : RequestContext) (w : W)
      → c.blocked ≡ true
      → run_from fs i p c w ≡ done c w
  unfolding run_from
  run_from-blocked [] i p c w h = refl
  run_from-blocked (f ∷ fs) i p c w h = rw (visit-blocked f i p c w h) refl

  -- Running a chain for a request that is blocked already runs no filter: only the phase is noted,
  -- there is no error, and the world is what it was.
  pub execute-blocked :
      (fs : Chain W) (p : Phase) (c : RequestContext) (w : W)
      → c.blocked ≡ true
      → execute fs p c w ≡ done (record c { phase = p }) w
  unfolding execute
  execute-blocked fs p c w h = run_from-blocked fs 0 p (record c { phase = p }) w h

  -- The rest of a chain runs only where the part before it neither failed nor blocked.
  abbrev pub and_then : Outcome W → (RequestContext → W → Outcome W) → Outcome W
  and_then o rest = elim o.error [
    | some e ↦ o
    | none ↦ if o.context.blocked then o else rest o.context o.world
  ]

  resume-and_then :
      (r : Round W) (k l : RequestContext → W → Outcome W)
      → ((o : Outcome W) → r ≡ stop o → (o.context.blocked ≡ true) ⊎ (is_some o.error ≡ true))
      → and_then (resume r k) l ≡ resume r (λ c w. and_then (k c w) l)
  resume-and_then (next c w) k l h = refl
  resume-and_then (stop o) k l h = ground (arith, h o refl)

  visit-stop :
      (f : Filter W) (i : ℕ) (p : Phase) (c : RequestContext) (w : W) (o : Outcome W)
      → visit f i p c w ≡ stop o
      → (o.context.blocked ≡ true) ⊎ (is_some o.error ≡ true)
  unfolding visit
  visit-stop f i p c w o h = ground arith

  resume-path :
      (r : Round W) (k l : RequestContext → W → Outcome W)
      → ((c : RequestContext) (w : W) → k c w ≡ l c w)
      → resume r k ≡ resume r l
  resume-path (next c w) k l h = h c w
  resume-path (stop o) k l h = refl

  -- A chain of two parts runs the first and, if that neither fails nor blocks, the second, whose
  -- positions go on from the first's length.
  pub run_from-append :
      (fs gs : Chain W) (i : ℕ) (p : Phase) (c : RequestContext) (w : W)
      → run_from (fs ++ gs) i p c w
        ≡ and_then (run_from fs i p c w) (λ c' w'. run_from gs (i + length fs) p c' w')
  unfolding run_from
  run_from-append [] gs i p c w = rw add-zero (
      sym (
        if-same c.blocked (done c w) (run_from gs i p c w)
          (λ b. sym (run_from-blocked gs i p c w b))))
  run_from-append (f ∷ fs) gs i p c w =
      resume-path (visit f i p c w) (run_from (fs ++ gs) (suc i) p)
        (λ c' w'. and_then (run_from fs (suc i) p c' w') (run_from gs (i + suc (length fs)) p))
        (λ c' w'. rw (add-suc, ← suc-add) (run_from-append fs gs (suc i) p c' w'))
      ∙ sym (
          resume-and_then (visit f i p c w) (run_from fs (suc i) p)
            (run_from gs (i + suc (length fs)) p) (visit-stop f i p c w))
