-- ===== src/Examples/Snapshots.antt =====
-- Interleavings of streams and one reload.
use hypergate_engine.Prelude.{true, false, List, [], ◌∷◌, some, ◌≡◌, refl, ◌⊎◌, arith}
use hypergate_engine.Engine.Lifecycle.{
  Life, Event, acquire, release_add, release_load, swap_unlink, retire_set_cleanup, retire_mark,
  retire_check, run_cleanup, checked, installed, step, run,
}
use hypergate_engine.Engine.Lifecycle.Once.{run-once, run-drained}
use hypergate_engine.Engine.Lifecycle.Races.{run-unheld, run-race, race, torn_down, undisturbed}

-- A stream that outlives the reload: its release runs the cleanup.
abbrev outlived : List Event
outlived =
    acquire ∷ swap_unlink ∷ retire_set_cleanup ∷ retire_mark ∷ retire_check ∷ release_add
    ∷ release_load ∷ run_cleanup ∷ []

abbrev cleaned : Life
cleaned = record installed {
  current = false;
  retired = true;
  clean_once = true;
  runs = 1;
  retirement = checked;
}

run-once_example :
    (cleaned.refs ≡ cleaned.holding)
    × ((cleaned.runs ≡ 0) ⊎ ((cleaned.runs ≡ 1) × (cleaned.retired ≡ true)))
unfolding run step
run-once_example = run-once outlived {l = cleaned} refl

run-drained_example : cleaned.runs ≡ 1
unfolding run step
run-drained_example = run-drained outlived {l = cleaned} refl refl refl refl refl

run-unheld_example : cleaned.holding ≡ 0
unfolding run step undisturbed
run-unheld_example = run-unheld outlived {l = cleaned} refl refl (omega arith)

run-race_example :
    (run (race 2) installed ≡ some (torn_down 3))
    × ((torn_down 3).runs ≡ 1)
    × ((torn_down 3).holding ≡ 3)
run-race_example = run-race 2
