-- ===== src/Grpc/Shutdown.antt =====
-- Waiting for the end of traffic at shutdown (Activity and WaitForQuiet of internal/grpc/shutdown.go).
-- Times are nanoseconds. What the loop sees in its rounds is a list: the clocks, the activity and how
-- the select ended.
pub mod Quiet
use hypergate_engine.Prelude.{
  ℕ, ◌+◌, ◌-◌, ◌^◌, Bool, true, false, ◌&&◌, List, [], ◌∷◌, Option, none, some, ℤ, zero, suc, pos,
  negsuc, if◌then◌else◌, ◌==◌, nat_eq, leb,
}

pub record Activity : Type 0 where
  -- the wall clock at the most recent start, 0 before the first
  pub last_start : ℕ
  pub active : ℤ

abbrev pub new_activity : Activity
new_activity = record { last_start = 0; active = pos 0 }

abbrev plus_one : ℤ → ℤ
plus_one (pos n) = pos (n + 1)
plus_one (negsuc zero) = pos 0
plus_one (negsuc (suc n)) = negsuc n

abbrev minus_one : ℤ → ℤ
minus_one (pos zero) = negsuc 0
minus_one (pos (suc n)) = pos n
minus_one (negsuc n) = negsuc (n + 1)

unfoldable pub stream_started : ℕ → Activity → Activity
stream_started now a = record { last_start = now; active = plus_one a.active }

unfoldable pub stream_ended : Activity → Activity
stream_ended a = record a { active = minus_one a.active }

-- The zero time is `none`.
unfoldable pub last_start_of : Activity → Option ℕ
last_start_of a = if a.last_start == 0 then none else some a.last_start

-- One round. `ended` is how long it has waited when the context is done; without it the ticker fires.
pub record Round : Type 0 where
  pub elapsed : ℕ
  pub wall : ℕ
  pub activity : Activity
  pub ended : Option ℕ

-- time.Since of the zero time is the longest duration.
abbrev is_since : ℕ → ℕ → Option ℕ → Bool
is_since quiet wall none = leb quiet (2 ^ 63 - 1)
is_since quiet wall (some start) = leb (start + quiet) wall

unfoldable pub is_quiet : ℕ → Round → Bool
unfolding last_start_of
is_quiet quiet r = is_since quiet r.wall (last_start_of r.activity)

abbrev select : Option ℕ → Option ℕ → Option ℕ
select none rest = rest
select (some t) rest = some t

-- How long it waited; `none` while it is still waiting after these rounds.
unfoldable pub wait_for_quiet : ℕ → ℕ → ℕ → List Round → Option ℕ
unfolding is_quiet
wait_for_quiet quiet min_delay max_delay [] = none
wait_for_quiet quiet min_delay max_delay (r ∷ rs) =
    let rest = wait_for_quiet quiet min_delay max_delay rs in
    if leb max_delay r.elapsed
    then some r.elapsed
    else if leb min_delay r.elapsed && is_quiet quiet r
    then some r.elapsed
    else select r.ended rest
