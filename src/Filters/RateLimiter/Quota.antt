-- ===== src/Filters/RateLimiter/Quota.antt =====
-- How much a fixed window admits (internal/filters/rate_limiter/fixed_window.go).
use hypergate_engine.Prelude.{
  ℕ, ◌+◌, ◌≤◌, true, false, List, [], ◌∷◌, Option, none, some, pos, if◌then◌else◌, ltb, ◌≡◌, ◌⊎◌,
  inl, inr, refl, arith, Bool-cases, if_ind, ◌&&◌,
}
use hypergate_engine.Prelude.Text.{Str}
use hypergate_engine.Prelude.Maps.{Map}
use hypergate_engine.Filters.RateLimiter.Options.{Descriptor}
use hypergate_engine.Filters.RateLimiter.FixedWindow.{
  Store, Decision, Judgement, judge, counted, enforce, remember, apply_policy, evaluate,
  evaluate_from, extract, go_on, window_key, window_start, policy_matches, dimension,
}

-- Redis as documented: INCRBY adds to the counter of its key and returns the sum, a call that fails
-- does not lower it, and neither the jitter nor the local cache touches it.
pub record Counts {W : Type 0} (store : Store W) (key : Str) (counter : W → ℕ) : Type 0 where
  pub adds :
      (n ttl : ℕ) (w : W) {count : ℕ}
      → (store.charge key (pos n) ttl w).0 ≡ some count
      → (count ≡ counter w + n) × (counter (store.charge key (pos n) ttl w).1 ≡ count)
  pub keeps : (n ttl : ℕ) (w : W) → counter w ≤ counter (store.charge key (pos n) ttl w).1
  pub jitters : (w : W) → counter (store.jitter w).1 ≡ counter w
  pub remembers : (k : Str) (ttl : ℕ) (w : W) → counter (store.block_locally k ttl w) ≡ counter w

-- A call of Evaluate, and what happens outside of the executor before it.
pub record Call (W : Type 0) : Type 0 where
  pub before : W → W
  pub extracted : Map Str Str
  pub cost : ℕ

abbrev cost_if : Option Decision → ℕ → ℕ
cost_if none n = 0
cost_if (some d) n = if d.blocked then 0 else n

module _ {W : Type 0} (store : Store W) (domain : Str) (p : Descriptor) where
  abbrev call : Call W → W → Option Decision × W
  call c w = evaluate store domain (p ∷ []) c.extracted (pos c.cost) (c.before w)

  -- The cost of the calls that are not denied, made one after the other.
  unfoldable pub admitted : List (Call W) → W → ℕ
  unfolding evaluate
  admitted [] w = 0
  admitted (c ∷ cs) w = let (d, v) = call c w in cost_if d c.cost + admitted cs v

  -- The calls fall in one window: the policy applies to each of them under the key, whose counter
  -- nothing else lowers.
  unfoldable pub InWindow : Str → (W → ℕ) → List (Call W) → W → Type 0
  InWindow key counter [] w = Unit
  InWindow key counter (c ∷ cs) w =
      (counter w ≤ counter (c.before w))
      × (policy_matches (extract c.extracted []) p ≡ true)
      × (window_key domain (extract c.extracted []) p (window_start p (store.now (c.before w)))
          ≡ key)
      × InWindow key counter cs (call c w).1

-- A call of cost n that started at a state: it admits nothing, or its cost is counted within the
-- limit. The counter is not lowered.
abbrev Judged : {W : Type 0} → (W → ℕ) → ℕ → ℕ → W → Option Decision × W → Type 0
Judged counter limit n w (d, v) =
    ((cost_if d n ≡ 0) × (counter w ≤ counter v))
    ⊎ ((cost_if d n ≤ n) × (counter w + n ≤ counter v) × (counter v ≤ limit))

module _ {W : Type 0} (store : Store W) (p : Descriptor) (key : Str) (counter : W → ℕ)
    (law : Counts store key counter) (enforced : p.shadow_mode ≡ false)
    (closed : p.fail_open ≡ false) (domain : Str) (m : Map Str Str) (now n : ℕ) where
  abbrev finish : Judgement × W → Option Decision × W
  finish =
      go_on store domain m now (pos n)
        (evaluate_from store domain m now (pos n) [] (dimension p ∷ []))

  remember-counter :
      (count reset : ℕ) (v : W) → counter (remember store (pos n) p key count reset v) ≡ counter v
  unfolding remember
  remember-counter count reset v =
      if_ind (λ u. counter u ≡ counter v) _ (law.remembers key reset v) refl

  finish-enforce :
      (count reset : ℕ) (d : Decision) (w v : W)
      → count ≡ counter w + n
      → counter v ≡ count
      → Judged counter p.limit n w (finish (enforce store (pos n) p key count reset d v))
  unfolding enforce evaluate_from
  finish-enforce count reset d w v e c = elim (Bool-cases (ltb p.limit count)) [
    | inl over ↦
        rw (over, enforced) (inl (refl, omega (arith, remember-counter count reset v, e, c)))
    | inr within ↦ rw within (inr (ground arith, omega (arith, e, c), ground (arith, within, c)))
  ]

  finish-counted :
      (reset ttl : ℕ) (d : Decision) (w v : W) (o : Option ℕ)
      → counter v ≡ counter w
      → (store.charge key (pos n) ttl v).0 ≡ o
      → Judged counter p.limit n w
          (finish (counted store (pos n) p key reset d o (store.charge key (pos n) ttl v).1))
  unfolding counted
  finish-counted reset ttl d w v none c e =
      rw closed (inl (refl, omega (arith, c, law.keeps n ttl v)))
  finish-counted reset ttl d w v (some count) c e =
      let (sum, kept) = law.adds n ttl v e in
      finish-enforce count reset d w _ (omega (arith, sum, c)) kept

  finish-judge :
      (reset : ℕ) (d : Decision) (w : W)
      → Judged counter p.limit n w (finish (judge store (pos n) p key reset d w))
  unfolding judge
  finish-judge reset d w = elim (Bool-cases (store.cached && store.blocked_locally key w)) [
    | inl hit ↦ rw hit (inl (refl, omega arith))
    | inr miss ↦ rw miss (finish-counted reset _ d w (store.jitter w).1 _ (law.jitters w) refl)
  ]

module _ {W : Type 0} (store : Store W) (domain : Str) (p : Descriptor) (key : Str)
    (counter : W → ℕ) where
  call-Judged :
      Counts store key counter
      → p.shadow_mode ≡ false
      → p.fail_open ≡ false
      → (c : Call W) (w : W) → policy_matches (extract c.extracted []) p ≡ true
      → window_key domain (extract c.extracted []) p (window_start p (store.now (c.before w))) ≡ key
      → Judged counter p.limit c.cost (c.before w) (call store domain p c w)
  unfolding evaluate evaluate_from apply_policy
  call-Judged law enforced closed c w m k =
      rw (m, k)
        (finish-judge store p key counter law enforced closed domain (extract c.extracted [])
          (store.now (c.before w)) c.cost _ _ (c.before w))

  within_limit :
      Counts store key counter
      → p.shadow_mode ≡ false
      → p.fail_open ≡ false
      → (cs : List (Call W)) (w : W) → InWindow store domain p key counter cs w
      → (admitted store domain p cs w ≡ 0) ⊎ (counter w + admitted store domain p cs w ≤ p.limit)
  unfolding admitted InWindow
  within_limit law enforced closed [] w i = inl refl
  within_limit law enforced closed (c ∷ cs) w (grows, m, k, i) = omega (
    arith,
    within_limit law enforced closed cs (call store domain p c w).1 i,
    call-Judged law enforced closed c w m k,
  )

  -- In one window of an enforcing policy the calls that are not denied cost no more than the limit
  -- together, whatever other clients of Redis add to the counter in between, and however the local
  -- cache, the jitter and failing pipelines fall. The policy is the only one, its calls share one key,
  -- and Redis counts as documented.
  pub admitted-bounds :
      Counts store key counter
      → p.shadow_mode ≡ false
      → p.fail_open ≡ false
      → (cs : List (Call W)) (w : W) → InWindow store domain p key counter cs w
      → admitted store domain p cs w ≤ p.limit
  admitted-bounds law enforced closed cs w i =
      omega (arith, within_limit law enforced closed cs w i)
