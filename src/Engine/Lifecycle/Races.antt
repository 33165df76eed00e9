-- ===== src/Engine/Lifecycle/Races.antt =====
-- Release against Acquire and a reload (internal/engine/registry.go).
use native.Mathlib.Nat.{add-zero}
use hypergate_engine.Prelude.{
  ℕ, zero, suc, ◌+◌, ◌<◌, Bool, true, false, ◌&&◌, List, [], ◌∷◌, none, some, ◌≡◌, refl, subst, ◌∙◌,
  arith, ◌⊎◌, Option-cases, some_inj, inl, inr, ◌==◌, nat_eq,
}
use hypergate_engine.Engine.Lifecycle.{Life, Event, none_yet, marked, checked, installed, step, run}

-- No stream acquires the snapshot between another's `refs.Add(-1)` and its `retired.Load()`.
abbrev undisturbed_step : Event → Life → Bool
undisturbed_step Event.acquire l = l.releasing == 0
undisturbed_step _ l = true

unfoldable pub undisturbed : List Event → Life → Bool
undisturbed [] l = true
undisturbed (e ∷ es) l =
    undisturbed_step e l && elim (step e l) [ none ↦ true | some l' ↦ undisturbed es l' ]

pub record IsQuiet (l : Life) : Type 0 where
  pub counted : l.refs ≡ l.holding
  pub quiet : 0 < l.releasing → l.refs ≡ 0
  pub in_registry : l.current ≡ true → l.retirement ≡ none_yet
  pub marks : l.retired ≡ true → (l.retirement ≡ marked) ⊎ (l.retirement ≡ checked)
  pub marked_first : (l.retirement ≡ marked) ⊎ (l.retirement ≡ checked) → l.retired ≡ true
  pub unheld : (l.clean_once ≡ true) ⊎ (0 < l.cleaning) → (l.retired ≡ true) × (l.refs ≡ 0)
  pub ran : 0 < l.runs → l.clean_once ≡ true

step-IsQuiet :
    (e : Event) (l : Life) {l' : Life}
    → IsQuiet l
    → undisturbed_step e l ≡ true
    → step e l ≡ some l'
    → IsQuiet l'
unfolding step
step-IsQuiet Event.acquire l s u h = ground arith
step-IsQuiet _ l s u h = ground arith

run-IsQuiet :
    (es : List Event) (l : Life) {l' : Life}
    → IsQuiet l
    → undisturbed es l ≡ true
    → run es l ≡ some l'
    → IsQuiet l'
unfolding run undisturbed
run-IsQuiet [] l s u h = subst IsQuiet (some_inj h) s
run-IsQuiet (e ∷ es) l {l'} s u h = elim (Option-cases (step e l)) [
  | inl none_here ↦ absurd (ground arith)
  | inr (m, here) ↦
      run-IsQuiet es m {l' = l'} (step-IsQuiet e l s (ground arith) here) (ground arith)
        (ground arith)
]

-- If no stream acquires the snapshot inside another's Release, the cleanup never runs under a stream
-- that holds it.
pub run-unheld :
    (es : List Event) {l : Life}
    → undisturbed es installed ≡ true
    → run es installed ≡ some l
    → 0 < l.runs
    → l.holding ≡ 0
run-unheld es {l} u h r = ground (arith, run-IsQuiet es installed {l' = l} (ground arith) u h)

acquires : ℕ → List Event → List Event
acquires zero es = es
acquires (suc n) es = Event.acquire ∷ acquires n es

reload : List Event
reload =
    Event.swap_unlink ∷ Event.retire_set_cleanup ∷ Event.retire_mark ∷ Event.retire_check
    ∷ Event.release_load ∷ Event.run_cleanup ∷ []

-- One stream is between the two steps of its Release when others acquire the snapshot; then the
-- reload retires it, and the first stream reads `retired` and cleans up.
pub race : ℕ → List Event
unfolding acquires reload
race n = Event.acquire ∷ Event.release_add ∷ acquires (suc n) reload

-- A snapshot with one stream inside Release, and `h` that hold it.
abbrev crowded : ℕ → Life
crowded h = record {
  current = true;
  refs = h;
  retired = false;
  clean_once = false;
  runs = 0;
  holding = h;
  releasing = 1;
  cleaning = 0;
  retirement = none_yet;
}

abbrev pub torn_down : ℕ → Life
torn_down h = record {
  current = false;
  refs = h;
  retired = true;
  clean_once = true;
  runs = 1;
  holding = h;
  releasing = 0;
  cleaning = 0;
  retirement = checked;
}

run-acquires :
    (n h : ℕ) (es : List Event) → run (acquires n es) (crowded h) ≡ run es (crowded (h + n))
unfolding run acquires step
run-acquires zero h es = rw add-zero
run-acquires (suc n) h es =
    let e : h + 1 + n ≡ h + suc n = omega arith in rw (← e) (run-acquires n (h + 1) es)

run-reload : (h : ℕ) → run reload (crowded (suc h)) ≡ some (torn_down (suc h))
unfolding run reload step
run-reload h = ground arith

-- The cleanup can run under any number of streams that hold the snapshot: those that acquired it
-- while another stream was inside Release.
pub run-race :
    (n : ℕ)
    → (run (race n) installed ≡ some (torn_down (suc n)))
      × ((torn_down (suc n)).runs ≡ 1)
      × ((torn_down (suc n)).holding ≡ suc n)
unfolding run race step
run-race n =
    let e : 1 + n ≡ suc n = omega arith in
    (run-acquires n 1 reload ∙ rw e (run-reload n), refl, refl)
