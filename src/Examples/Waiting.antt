-- ===== src/Examples/Waiting.antt =====
-- A wait of three rounds at shutdown.
use hypergate_engine.Prelude.{ℕ, ◌+◌, [], ◌∷◌, List, none}
use hypergate_engine.Grpc.Shutdown.{Round, new_activity, stream_started}

-- The last stream started at 100.
abbrev round_at : ℕ → Round
round_at t = record {
  elapsed = t;
  wall = 100 + t;
  activity = stream_started 100 new_activity;
  ended = none;
}

abbrev rounds : List Round
rounds = round_at 0 ∷ round_at 4 ∷ round_at 8 ∷ round_at 12 ∷ []
