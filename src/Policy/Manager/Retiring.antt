-- ===== src/Policy/Manager/Retiring.antt =====
-- The Redis clients that Apply retires (internal/policy/manager.go).
use hypergate_engine.Prelude.{
  ℕ, ◌≤◌, Bool, true, false, [], ◌∷◌, Option, none, some, ◌==◌, nat_eq, list_eq, ◌≡◌, ◌≢◌, inl, inr,
  arith, subst, All, Bool-cases,
}
use hypergate_engine.Prelude.Text.{Str}
use hypergate_engine.Prelude.Maps.{Map, lookup}
use hypergate_engine.Config.Parser.{Config}
use hypergate_engine.Engine.Filter.{Chain}
use hypergate_engine.Engine.Registry.{Snapshot}
use hypergate_engine.Selector.Sets.{member}
use hypergate_engine.Policy.Clients.{Dialer, Entry, ClientBuild, connect}
use hypergate_engine.Policy.Clients.Owned.{IsOwned, IsBuilt, connect-IsBuilt, nothing-IsBuilt}
use hypergate_engine.Policy.Filters.{Factory, FilterBuild, build_chains}
use hypergate_engine.Policy.Manager.{
  Manager, Retired, apply, publish, abort, same_entry, unused_redis, finish_filters, finish_clients,
  filters_before, clients_before,
}

-- The old entry behind a retired pointer.
abbrev Behind : Map Str Entry → Map Str Entry → ℕ → Type 0
Behind next old x =
    (n : Str) × (e : Entry) × (lookup n old ≡ some e)
    × (e.id ≡ x)
    × (same_entry e (lookup n next) ≡ false)

unused_redis-Behind :
    (next old l : Map Str Entry) (x : ℕ)
    → All (λ ne. lookup ne.0 old ≡ some ne.1) l
    → member x (unused_redis next l) ≡ true
    → Behind next old x
unfolding unused_redis member
unused_redis-Behind next old [] x a h = cc
unused_redis-Behind next old ((n, e) ∷ l) x (here, a) h =
    elim (Bool-cases (same_entry e (lookup n next))) [
      | inl s ↦ unused_redis-Behind next old l x a (ground arith)
      | inr s ↦ elim (Bool-cases (x == e.id)) [
        | inl q ↦ (n, e, here, ground arith, s)
        | inr q ↦ unused_redis-Behind next old l x a (ground arith)
      ]
    ]

unused_redis-unused :
    (old : Map Str Entry) (start : ℕ) (b : ClientBuild) (x : ℕ) (name : Str) (f : Entry)
    → IsOwned old start
    → IsBuilt old start b
    → member x (unused_redis b.redis old) ≡ true
    → lookup name b.redis ≡ some f
    → f.id ≢ x
unused_redis-unused old start b x name f o i h here = λ q.
    let (n, e, was, id, s) = unused_redis-Behind b.redis old old x o.listed h in
    elim (i.origin name f here) [
      | inl same ↦ ground (arith, o.distinct n name e f was same)
      | inr new ↦ ground (arith, o.bounded n e was)
    ]

weaken-IsOwned :
    (entries : Map Str Entry) (start next : ℕ)
    → IsOwned entries start
    → start ≤ next
    → IsOwned entries next
weaken-IsOwned entries start next o le = record {
  listed = o.listed;
  bounded = λ n e h. omega (arith, o.bounded n e h, le);
  distinct = o.distinct;
}

module _ {W : Type 0} (d : Dialer) (fac : Factory W) (m : Manager W)
    (o : IsOwned m.redis m.resources.next_client) where
  abbrev Unused : Manager W × Option (Snapshot W × Retired) → Type 0
  Unused (m', none) = Unit
  Unused (m', some (previous, retired)) =
      (x : ℕ) (name : Str) (e : Entry)
      → member x retired.retired_redis ≡ true
      → lookup name m'.redis ≡ some e
      → e.id ≢ x

  abbrev Safe : Manager W × Option (Snapshot W × Retired) → Type 0
  Safe r = IsOwned r.0.redis r.0.resources.next_client × Unused r

  finish_filters-Safe :
      (cfg : Config) (cb : ClientBuild) (r : FilterBuild W × Option (Map Str (Chain W)))
      → IsBuilt m.redis m.resources.next_client cb
      → Safe (finish_filters d fac cfg cb m r)
  unfolding abort publish
  finish_filters-Safe cfg cb (fb, none) i =
      (weaken-IsOwned m.redis m.resources.next_client cb.next o i.grows, tt)
  finish_filters-Safe cfg cb (fb, some chains) i =
      (i.owned, λ x name e. unused_redis-unused m.redis m.resources.next_client cb x name e o i)

  finish_clients-Safe :
      (cfg : Config) (r : ClientBuild × Bool)
      → IsBuilt m.redis m.resources.next_client r.0
      → Safe (finish_clients d fac cfg m r)
  unfolding abort
  finish_clients-Safe cfg (cb, false) i =
      (weaken-IsOwned m.redis m.resources.next_client cb.next o i.grows, tt)
  finish_clients-Safe cfg (cb, true) i =
      finish_filters-Safe cfg cb
        (build_chains fac cb.redis m.filters cfg.chains [] (filters_before d fac m)) i

  apply-Safe : (cfg : Config) → Safe (apply d fac m cfg)
  unfolding apply
  apply-Safe cfg =
      finish_clients-Safe cfg
        (connect d m.ready m.reload_dial_timeout m.redis cfg.redis (clients_before d fac m))
        (connect-IsBuilt m.redis m.resources.next_client o d m.ready m.reload_dial_timeout cfg.redis
          (clients_before d fac m) (nothing-IsBuilt m.redis m.resources.next_client))

  -- From a manager whose clients have one name each, whether Apply succeeds or fails, every client of
  -- the manager still has one name and was handed out.
  pub apply-IsOwned :
      (cfg : Config)
      → IsOwned (apply d fac m cfg).0.redis (apply d fac m cfg).0.resources.next_client
  apply-IsOwned cfg = (apply-Safe cfg).0

  -- From a manager whose clients have one name each, a client that the cleanup of the old snapshot
  -- closes is not one that the new policy uses.
  pub apply-retired_unused :
      (cfg : Config) {m' : Manager W} {previous : Snapshot W} {retired : Retired} (x : ℕ)
      (name : Str) (e : Entry)
      → apply d fac m cfg ≡ (m', some (previous, retired))
      → member x retired.retired_redis ≡ true
      → lookup name m'.redis ≡ some e
      → e.id ≢ x
  apply-retired_unused cfg x name e h = subst Unused h (apply-Safe cfg).1 x name e
