-- ===== src/Policy/Clients.antt =====
-- Step 1 of Apply of internal/policy/manager.go: Redis clients are kept where the service is
-- unchanged and dialled where it is not. An entry's `id` stands for its pointer and its client.
pub mod Owned
use hypergate_engine.Prelude.{
  ℕ, suc, ◌≤◌, Bool, true, false, ◌&&◌, ◌||◌, not, List, [], ◌∷◌, ◌++◌, Option, none, some,
  if◌then◌else◌, ◌==◌, nat_eq, list_eq, ℤ, leb, ltb, ◌≡◌, refl, arith, subst, if_ind, Option-cases,
  inl, inr,
}
use hypergate_engine.Prelude.Text.{Str}
use hypergate_engine.Prelude.Maps.{Map, lookup, insert}
use hypergate_engine.Config.Limits.{is_positive}
use hypergate_engine.Config.Redis.{RedisServiceConfig}
use hypergate_engine.Selector.Sets.{member}

pub record Entry : Type 0 where
  pub id : ℕ
  pub cfg : RedisServiceConfig

-- reflect.DeepEqual on services, and the RedisFactory: whether a dial within a timeout succeeds.
pub record Dialer : Type 0 where
  pub deep_equal : RedisServiceConfig → RedisServiceConfig → Bool
  pub new_redis : Option ℤ → Str → RedisServiceConfig → Bool

-- The clients of the next policy so far; `next` is the next pointer.
pub record ClientBuild : Type 0 where
  pub redis : Map Str Entry
  pub next : ℕ
  pub created : List ℕ

abbrev reusable : Dialer → RedisServiceConfig → Option Entry → Option Entry
reusable d cfg none = none
reusable d cfg (some e) = if d.deep_equal e.cfg cfg then some e else none

-- A reload does not wait forever for a service that sets no limit of its own.
abbrev dial_timeout : Bool → ℤ → RedisServiceConfig → Option ℤ
dial_timeout ready reload_dial_timeout cfg =
    if ready
      && not (is_positive cfg.startup_max_elapsed_time_duration)
      && is_positive reload_dial_timeout
    then some reload_dial_timeout
    else none

abbrev kept_client : Str → Entry → ClientBuild → ClientBuild
kept_client name e b = record b { redis = insert name e b.redis }

abbrev new_client : Str → RedisServiceConfig → ClientBuild → ClientBuild
new_client name cfg b =
    let e : Entry = record { id = b.next; cfg = cfg } in
    record { redis = insert name e b.redis; next = suc b.next; created = b.created ++ b.next ∷ [] }

module _ (d : Dialer) (ready : Bool) (reload_dial_timeout : ℤ) (old : Map Str Entry) where
  abbrev dialled : Str → RedisServiceConfig → ClientBuild → Option ClientBuild
  dialled name cfg b =
      if d.new_redis (dial_timeout ready reload_dial_timeout cfg) name cfg
      then some (new_client name cfg b)
      else none

  abbrev kept_or_dialled :
      Option Entry → Str → RedisServiceConfig → ClientBuild → Option ClientBuild
  kept_or_dialled (some e) name cfg b = some (kept_client name e b)
  kept_or_dialled none name cfg b = dialled name cfg b

  -- One service; `none` is a failed dial.
  unfoldable pub obtain_client : Str → RedisServiceConfig → ClientBuild → Option ClientBuild
  obtain_client name cfg b = kept_or_dialled (reusable d cfg (lookup name old)) name cfg b

  -- The loop, and whether it ended without an error.
  unfoldable pub connect : Map Str RedisServiceConfig → ClientBuild → ClientBuild × Bool
  connect [] b = (b, true)
  connect ((name, cfg) ∷ rest) b = elim (obtain_client name cfg b) [
    | none ↦ (b, false)
    | some b' ↦ connect rest b'
  ]

-- The pointers from `start` up to `next` are those that were created.
pub record IsTracked (start next : ℕ) (created : List ℕ) : Type 0 where
  pub grows : start ≤ next
  pub exact : (x : ℕ) → member x created ≡ (leb start x && ltb x next)

pub member-append : (x : ℕ) (xs ys : List ℕ) → member x (xs ++ ys) ≡ member x xs || member x ys
unfolding member
member-append x [] ys = refl
member-append x (y ∷ xs) ys = ground (arith, member-append x xs ys)

member-snoc : (x y : ℕ) (xs : List ℕ) → member x (xs ++ y ∷ []) ≡ (member x xs || x == y)
unfolding member
member-snoc x y [] = ground arith
member-snoc x y (z ∷ xs) = ground (arith, member-snoc x y xs)

pub nothing-IsTracked : (start : ℕ) → IsTracked start start []
unfolding member
nothing-IsTracked start = record { grows = omega arith; exact = λ x. ground arith }

pub snoc-IsTracked :
    (start next : ℕ) (created : List ℕ)
    → IsTracked start next created
    → IsTracked start (suc next) (created ++ next ∷ [])
snoc-IsTracked start next created t = record {
  grows = omega (arith, t.grows);
  exact = λ x. ground (arith, member-snoc x next created, t.exact x, t.grows);
}

module _ (d : Dialer) (ready : Bool) (reload_dial_timeout : ℤ) (old : Map Str Entry) where
  abbrev Tracks : ℕ → ClientBuild → Type 0
  Tracks start b = IsTracked start b.next b.created

  abbrev Keeps : ℕ → Option ClientBuild → Type 0
  Keeps start none = Unit
  Keeps start (some b) = Tracks start b

  kept_or_dialled-Keeps :
      (start : ℕ) (o : Option Entry) (name : Str) (cfg : RedisServiceConfig) (b : ClientBuild)
      → Tracks start b
      → Keeps start (kept_or_dialled d ready reload_dial_timeout old o name cfg b)
  kept_or_dialled-Keeps start (some e) name cfg b t = t
  kept_or_dialled-Keeps start none name cfg b t =
      if_ind (Keeps start) (d.new_redis (dial_timeout ready reload_dial_timeout cfg) name cfg)
        (snoc-IsTracked start b.next b.created t) tt

  obtain_client-Keeps :
      (start : ℕ) (name : Str) (cfg : RedisServiceConfig) (b : ClientBuild)
      → Tracks start b
      → Keeps start (obtain_client d ready reload_dial_timeout old name cfg b)
  unfolding obtain_client
  obtain_client-Keeps start name cfg b t =
      kept_or_dialled-Keeps start (reusable d cfg (lookup name old)) name cfg b t

  pub connect-IsTracked :
      (start : ℕ) (todo : Map Str RedisServiceConfig) (b : ClientBuild)
      → Tracks start b
      → Tracks start (connect d ready reload_dial_timeout old todo b).0
  unfolding connect
  connect-IsTracked start [] b t = t
  connect-IsTracked start ((name, cfg) ∷ rest) b t =
      let kept = obtain_client-Keeps start name cfg b t in
      elim (Option-cases (obtain_client d ready reload_dial_timeout old name cfg b)) [
        | inl e ↦ rw (e, connect) t
        | inr (b', e) ↦
            rw (e, connect) (connect-IsTracked start rest b' (subst (Keeps start) e kept))
      ]
