-- ===== src/Grpc/Running/Laws.antt =====
-- The counters and the overload action of run (internal/grpc/handlers.go).
use hypergate_engine.Prelude.{
  ℕ, ◌+◌, ◌-◌, ◌≤◌, Bool, true, false, ◌||◌, Option, if◌then◌else◌, ◌==◌, nat_eq, list_eq, ltb,
  length, ◌≡◌, refl, arith, if_ind, eq_iff,
}
use hypergate_engine.Prelude.Text.{Str}
use hypergate_engine.Prelude.Maps.{insert, lookup-insert}
use hypergate_engine.Config.Limits.{ChainSettings, is_positive, limit_action_allow}
use hypergate_engine.Engine.Context.{RequestContext, Ctx, Phase, block}
use hypergate_engine.Grpc.Routing.{StreamState}
use hypergate_engine.Grpc.Running.{
  Limiter, run, admitted, acquire, release, count_of, limits_of, overloaded, bound_of,
}

-- The same count under every name.
abbrev pub IsBalanced : Limiter → Limiter → Type 0
IsBalanced l l' = (name : Str) → count_of name l' ≡ count_of name l

count_of-insert :
    (name m : Str) (n : ℕ) (l : Limiter)
    → count_of m (insert name n l) ≡ (if name == m then n else count_of m l)
count_of-insert name m n l = ground (arith, lookup-insert name m n l)

count_of-inserted : (name : Str) (n : ℕ) (l : Limiter) → count_of name (insert name n l) ≡ n
count_of-inserted name n l = ground (arith, count_of-insert name name n l, eq_iff name name)

-- Writing the count that was there.
refused-IsBalanced :
    (name : Str) (l : Limiter) → IsBalanced l (insert name (count_of name l + 1 - 1) l)
refused-IsBalanced name l m =
    ground (arith, count_of-insert name m (count_of name l + 1 - 1) l, eq_iff name m)

released-IsBalanced :
    (name : Str) (l : Limiter) → IsBalanced l (release name (insert name (count_of name l + 1) l))
unfolding release
released-IsBalanced name l m =
    let added = insert name (count_of name l + 1) l in
    ground (
      arith,
      count_of-insert name m (count_of name added - 1) added,
      count_of-insert name m (count_of name l + 1) l,
      count_of-inserted name (count_of name l + 1) l,
      eq_iff name m,
    )

module _ {W : Type 0} (expired : Option Ctx → W → Bool) where
  abbrev Leaves : Limiter → RequestContext × Limiter × W → Type 0
  Leaves l r = IsBalanced l r.1

  admitted-IsBalanced :
      (limits : ChainSettings) (st : StreamState W) (phase : Phase) (ctx : RequestContext)
      (l : Limiter) (w : W)
      → Leaves l (admitted expired limits st phase ctx w (acquire st.name limits.max_concurrency l))
  unfolding acquire
  admitted-IsBalanced limits st phase ctx l w =
      if_ind (λ a. Leaves l (admitted expired limits st phase ctx w a))
        (ltb (bound_of limits.max_concurrency) (count_of st.name l + 1))
        (if_ind (Leaves l) (limits.on_overload == limit_action_allow) (refused-IsBalanced st.name l)
          (refused-IsBalanced st.name l))
        (released-IsBalanced st.name l)

  -- A run gives back what it takes: whether the request is skipped, refused or run, and whatever
  -- its filters do, the count under every chain's name is afterwards what it was before.
  pub run-IsBalanced :
      (st : StreamState W) (phase : Phase) (ctx : RequestContext) (l : Limiter) (w : W)
      → IsBalanced l (run expired st phase ctx l w).1
  unfolding run acquire
  run-IsBalanced st phase ctx l w =
      let limits = limits_of expired st in
      if_ind (Leaves l) (ctx.blocked || length st.chain == 0) (λ m. refl)
        (if_ind (Leaves l) (is_positive limits.max_concurrency)
          (admitted-IsBalanced limits st phase ctx l w) (λ m. refl))

  -- The streams in flight already fill the chain's bound.
  abbrev IsFull : StreamState W → Limiter → Type 0
  IsFull st l =
      let limits = limits_of expired st in
      (is_positive limits.max_concurrency ≡ true)
      × (bound_of limits.max_concurrency ≤ count_of st.name l)

  over_bound :
      (st : StreamState W) (phase : Phase) (ctx : RequestContext) (l : Limiter) (w : W)
      → (full : IsFull st l)
      → run expired st phase ctx l w ≡ (
          if ctx.blocked || length st.chain == 0
          then (ctx, l, w)
          else admitted expired
              (limits_of expired st)
              st
              phase
              ctx
              w
              (insert st.name (count_of st.name l + 1 - 1) l, false))
  unfolding run acquire
  over_bound st phase ctx l w (positive, full) = ground (arith)

  -- Where a chain that is not empty has a positive bound and as many requests in flight, no filter
  -- of it runs for an unblocked request: the world is what it was. The request goes on unchanged
  -- where the overload action is allow, and is blocked with status 503 where it is not.
  pub run-overloaded :
      (st : StreamState W) (phase : Phase) (ctx : RequestContext) (l : Limiter) (w : W)
      → ctx.blocked ≡ false
      → (length st.chain == 0) ≡ false
      → IsFull st l
      → let r = run expired st phase ctx l w in
        let allow = (limits_of expired st).on_overload == limit_action_allow in
        (r.0 ≡ (if allow then ctx else overloaded ctx))
        × (r.2 ≡ w)
        × ((overloaded ctx).blocked ≡ true)
        × ((overloaded ctx).response_status ≡ 503)
  unfolding block
  run-overloaded st phase ctx l w clear filled full =
      let same = over_bound st phase ctx l w full in (ground (arith), ground (arith), refl, refl)
