-- ===== src/Grpc/Limiter.antt =====
-- The in-flight counter of one chain under concurrent requests (chainLimiter of
-- internal/grpc/handlers.go), at the grain of its atomic additions: an acquire that fails adds 1 and,
-- in a second step, takes it back. The counter is far from the bounds of an int64.
use hypergate_engine.Prelude.{
  ℕ, zero, suc, ◌+◌, ◌-◌, ◌≤◌, List, [], ◌∷◌, Option, none, some, if◌then◌else◌, ltb, ◌≡◌, subst,
  some_inj, Option-cases, inl, inr, arith,
}

pub record Counter : Type 0 where
  pub in_flight : ℕ
  -- requests that run the chain's filters
  pub running : ℕ
  -- requests that were refused, before their `Add(-1)`
  pub refused : ℕ

pub data Event : Type 0 where
  acquire_add : Event
  acquire_undo : Event
  release : Event

abbrev pub idle : Counter
idle = record { in_flight = 0; running = 0; refused = 0 }

-- `c.Add(1) > int64(max)`.
on_acquire : ℕ → Counter → Counter
on_acquire limit c =
    let added : Counter = record c { in_flight = c.in_flight + 1 } in
    if ltb limit (c.in_flight + 1)
    then record added { refused = c.refused + 1 }
    else record added { running = c.running + 1 }

on_undo : ℕ → Counter → Option Counter
on_undo zero c = none
on_undo (suc n) c = some (record c { in_flight = c.in_flight - 1; refused = n })

on_release : ℕ → Counter → Option Counter
on_release zero c = none
on_release (suc n) c = some (record c { in_flight = c.in_flight - 1; running = n })

-- One atomic step under a limit; `none` where no request stands before it.
unfoldable pub step : ℕ → Event → Counter → Option Counter
unfolding on_acquire on_undo on_release
step limit acquire_add c = some (on_acquire limit c)
step limit acquire_undo c = on_undo c.refused c
step limit release c = on_release c.running c

unfoldable pub run : ℕ → List Event → Counter → Option Counter
run limit [] c = some c
run limit (e ∷ es) c = elim (step limit e c) [ none ↦ none | some d ↦ run limit es d ]

pub record IsBounded (limit : ℕ) (c : Counter) : Type 0 where
  pub counted : c.in_flight ≡ c.running + c.refused
  pub bounded : c.running ≤ limit

step-IsBounded :
    (limit : ℕ) (e : Event) (c : Counter) {d : Counter}
    → IsBounded limit c
    → step limit e c ≡ some d
    → IsBounded limit d
unfolding step
step-IsBounded limit acquire_add c b h = ground arith
step-IsBounded limit _ c b h = ground arith

-- From a counter within its bound, however the steps of the requests interleave, no more than the limit run the chain's filters at a
-- time, and the counter is the number of those that run and of those that are about to take back
-- their addition.
pub run-IsBounded :
    (limit : ℕ) (es : List Event) (c : Counter) {d : Counter}
    → IsBounded limit c
    → run limit es c ≡ some d
    → IsBounded limit d
unfolding run
run-IsBounded limit [] c b h = subst (IsBounded limit) (some_inj h) b
run-IsBounded limit (e ∷ es) c {d} b h = elim (Option-cases (step limit e c)) [
  | inl stuck ↦ absurd (ground arith)
  | inr (m, here) ↦
      run-IsBounded limit es m {d = d} (step-IsBounded limit e c b here) (ground arith)
]
