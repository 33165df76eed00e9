-- ===== src/Engine/Context/Laws.antt =====
-- Contexts that go back to the pool (internal/engine/context.go, internal/memory/pool.go).
use hypergate_engine.Prelude.{nat_eq, list_eq, ◌≡◌, refl}
use hypergate_engine.Engine.Context.{RequestContext, new_context, reset}

-- A context that goes back to the pool keeps nothing of its request.
pub reset-eq-new : (c : RequestContext) → reset c ≡ new_context
unfolding reset
reset-eq-new c = refl
