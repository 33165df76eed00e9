-- ===== src/Grpc/Shutdown/Quiet.antt =====
-- How long the engine waits at shutdown (WaitForQuiet of internal/grpc/shutdown.go).
use hypergate_engine.Prelude.{
  ℕ, ◌+◌, ◌≤◌, Bool, true, false, List, [], ◌∷◌, Option, none, some, leb, any, ◌&&◌, ◌≡◌, ◌==◌,
  nat_eq, ◌⊎◌,
}
use hypergate_engine.Grpc.Shutdown.{Round, is_quiet}

-- The select of a round ends within `gap` after the round's look at the clock.
abbrev EndsWithin : ℕ → ℕ → Option ℕ → Type 0
EndsWithin gap elapsed none = Unit
EndsWithin gap elapsed (some t) = t ≤ elapsed + gap

-- Every round looks at the clock within `gap` of the one before.
abbrev pub IsTicking : ℕ → ℕ → List Round → Type 0
IsTicking gap before [] = Unit
IsTicking gap before (r ∷ rs) =
    (r.elapsed ≤ before + gap) × EndsWithin gap r.elapsed r.ended × IsTicking gap r.elapsed rs

abbrev pub is_over : ℕ → Round → Bool
is_over max_delay r = leb max_delay r.elapsed

-- The round sees at `w` that the shortest delay has passed and that no stream started lately.
abbrev pub is_calm_at : ℕ → ℕ → ℕ → Round → Bool
is_calm_at quiet min_delay w r = r.elapsed == w && (leb min_delay r.elapsed && is_quiet quiet r)

abbrev is_same : ℕ → Option ℕ → Bool
is_same w none = false
is_same w (some t) = t == w

-- The context is done in this round, at `w`.
abbrev pub is_ended_at : ℕ → Round → Bool
is_ended_at w r = is_same w r.ended

-- Why the wait may be over after `w`.
abbrev pub Reason : ℕ → ℕ → ℕ → List Round → ℕ → Type 0
Reason quiet min_delay max_delay rs w =
    (max_delay ≤ w)
    ⊎ (any (is_calm_at quiet min_delay w) rs ≡ true)
    ⊎ (any (is_ended_at w) rs ≡ true)
