-- ===== src/Engine/Lifecycle.antt =====
-- The life of one snapshot under concurrent streams and a reload (Acquire, Release, Swap, retire and
-- runCleanup of internal/engine/registry.go), at the grain of its atomic operations: `refs` and
-- `retired` are read and written by separate steps, and any thread may run between two of them. The
-- counters after `runs` say how many threads stand at a place of the code.
pub mod Once
pub mod Races
use hypergate_engine.Prelude.{
  ℕ, zero, suc, ◌+◌, ◌-◌, Bool, true, false, ◌&&◌, not, List, [], ◌∷◌, Option, none, some,
  if◌then◌else◌, ◌==◌, nat_eq, ltb,
}

-- Where the reload stands that takes the snapshot out of the registry.
pub data Retirement : Type 0 where
  none_yet unlinked cleanup_set marked checked : Retirement

pub record Life : Type 0 where
  -- it is the registry's current snapshot
  pub current : Bool
  pub refs : ℕ
  pub retired : Bool
  -- cleanOnce has run
  pub clean_once : Bool
  -- how often the cleanup function ran
  pub runs : ℕ
  -- streams that acquired it and have not begun Release
  pub holding : ℕ
  -- streams in Release behind a `refs.Add(-1)` that gave 0, before `retired.Load()`
  pub releasing : ℕ
  -- threads that call runCleanup
  pub cleaning : ℕ
  pub retirement : Retirement

-- What Swap installs.
abbrev pub installed : Life
installed = record {
  current = true;
  refs = 0;
  retired = false;
  clean_once = false;
  runs = 0;
  holding = 0;
  releasing = 0;
  cleaning = 0;
  retirement = none_yet;
}

pub data Event : Type 0 where
  acquire : Event
  release_add : Event
  release_load : Event
  swap_unlink : Event
  retire_set_cleanup : Event
  retire_mark : Event
  retire_check : Event
  run_cleanup : Event

-- Acquire holds the read lock over both of its steps, and Swap the write lock over its.
on_acquire : Life → Option Life
on_acquire l =
    if l.current then some (record l { refs = l.refs + 1; holding = l.holding + 1 }) else none

-- `refs.Add(-1)` of a stream that holds the snapshot; it goes on to the load if that gives 0.
on_release_add : ℕ → Life → Option Life
on_release_add zero l = none
on_release_add (suc h) l =
    if l.refs - 1 == 0
    then some (record l { refs = l.refs - 1; holding = h; releasing = l.releasing + 1 })
    else some (record l { refs = l.refs - 1; holding = h })

on_release_load : ℕ → Life → Option Life
on_release_load zero l = none
on_release_load (suc n) l =
    if l.retired
    then some (record l { releasing = n; cleaning = l.cleaning + 1 })
    else some (record l { releasing = n })

on_swap_unlink : Retirement → Life → Option Life
on_swap_unlink none_yet l = some (record l { current = false; retirement = unlinked })
on_swap_unlink _ l = none

on_retire_set_cleanup : Retirement → Life → Option Life
on_retire_set_cleanup unlinked l = some (record l { retirement = cleanup_set })
on_retire_set_cleanup _ l = none

on_retire_mark : Retirement → Life → Option Life
on_retire_mark cleanup_set l = some (record l { retired = true; retirement = marked })
on_retire_mark _ l = none

on_retire_check : Retirement → Life → Option Life
on_retire_check marked l =
    if l.refs == 0
    then some (record l { cleaning = l.cleaning + 1; retirement = checked })
    else some (record l { retirement = checked })
on_retire_check _ l = none

-- sync.Once: the first caller runs the cleanup.
on_run_cleanup : ℕ → Life → Option Life
on_run_cleanup zero l = none
on_run_cleanup (suc n) l =
    if l.clean_once
    then some (record l { cleaning = n })
    else some (record l { cleaning = n; clean_once = true; runs = l.runs + 1 })

-- One atomic step; `none` where no thread stands before it.
unfoldable pub step : Event → Life → Option Life
unfolding on_acquire on_release_add on_release_load on_swap_unlink on_retire_set_cleanup
    on_retire_mark on_retire_check on_run_cleanup
step acquire l = on_acquire l
step release_add l = on_release_add l.holding l
step release_load l = on_release_load l.releasing l
step swap_unlink l = on_swap_unlink l.retirement l
step retire_set_cleanup l = on_retire_set_cleanup l.retirement l
step retire_mark l = on_retire_mark l.retirement l
step retire_check l = on_retire_check l.retirement l
step run_cleanup l = on_run_cleanup l.cleaning l

-- An interleaving, from the first step on.
unfoldable pub run : List Event → Life → Option Life
run [] l = some l
run (e ∷ es) l = elim (step e l) [ none ↦ none | some l' ↦ run es l' ]
