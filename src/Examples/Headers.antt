-- ===== src/Examples/Headers.antt =====
-- Header edits, on a request and on bare lists.
use hypergate_engine.Prelude.{refl, list_eq, nat_eq, arith}
use hypergate_engine.Engine.Headers.{no_edits, no_changes, contains_key}
use hypergate_engine.Engine.Headers.Laws.{IsConsistent, IsMirrored, added}
use hypergate_engine.Prelude.Maps.{lookup}
use hypergate_engine.Engine.Headers.Keyed.{find, count_key}

no_edits-IsConsistent : IsConsistent no_edits
unfolding added find count_key contains_key
no_edits-IsConsistent = record {
  added_once = λ k. omega arith;
  removed_once = λ k. omega arith;
  apart = λ k h. refl;
}

pub no_changes-IsMirrored : IsMirrored no_changes
unfolding added find lookup
no_changes-IsMirrored = record { consistent = no_edits-IsConsistent; mirrored = λ k. refl }
