-- ===== src/Engine/Lifecycle/Once.antt =====
-- The cleanup over all interleavings of a snapshot's life (internal/engine/registry.go).
use hypergate_engine.Prelude.{
  ◌+◌, ◌<◌, true, List, [], ◌∷◌, some, ◌≡◌, subst, arith, ◌⊎◌, Option-cases, some_inj, inl, inr,
  if◌then◌else◌,
}
use hypergate_engine.Engine.Lifecycle.{Life, Event, none_yet, marked, checked, installed, step, run}

pub record IsSound (l : Life) : Type 0 where
  pub counted : l.refs ≡ l.holding
  pub once : l.runs ≡ (if l.clean_once then 1 else 0)
  pub in_registry : l.current ≡ true → l.retirement ≡ none_yet
  pub marks : l.retired ≡ true → (l.retirement ≡ marked) ⊎ (l.retirement ≡ checked)
  pub marked_first : (l.retirement ≡ marked) ⊎ (l.retirement ≡ checked) → l.retired ≡ true
  pub pending :
      l.retirement ≡ checked → l.refs ≡ 0 → (l.clean_once ≡ true) ⊎ (0 < l.releasing + l.cleaning)
  pub cleaned_late : (l.clean_once ≡ true) ⊎ (0 < l.cleaning) → l.retired ≡ true

step-IsSound : (e : Event) (l : Life) {l' : Life} → IsSound l → step e l ≡ some l' → IsSound l'
unfolding step
step-IsSound Event.acquire l s h = ground arith
step-IsSound _ l s h = ground arith

run-IsSound : (es : List Event) (l : Life) {l' : Life} → IsSound l → run es l ≡ some l' → IsSound l'
unfolding run
run-IsSound [] l s h = subst IsSound (some_inj h) s
run-IsSound (e ∷ es) l {l'} s h = elim (Option-cases (step e l)) [
  | inl none_here ↦ absurd (ground arith)
  | inr (m, here) ↦ run-IsSound es m {l' = l'} (step-IsSound e l s here) (ground arith)
]

installed-IsSound : IsSound installed
installed-IsSound = ground arith

-- In every interleaving of acquiring and releasing streams with one reload the references count
-- the streams that hold the snapshot, the cleanup runs at most once, and never before the reload
-- has marked the snapshot retired.
pub run-once :
    (es : List Event) {l : Life}
    → run es installed ≡ some l
    → (l.refs ≡ l.holding) × ((l.runs ≡ 0) ⊎ ((l.runs ≡ 1) × (l.retired ≡ true)))
run-once es {l} h = ground (arith, run-IsSound es installed {l' = l} installed-IsSound h)

-- When the reload is through, no stream holds the snapshot and no thread is on the way, the cleanup
-- has run: nothing that was retired leaks.
pub run-drained :
    (es : List Event) {l : Life}
    → run es installed ≡ some l
    → l.retirement ≡ checked
    → l.holding ≡ 0
    → l.releasing ≡ 0
    → l.cleaning ≡ 0
    → l.runs ≡ 1
run-drained es {l} h done idle r c =
    ground (arith, run-IsSound es installed {l' = l} installed-IsSound h)
