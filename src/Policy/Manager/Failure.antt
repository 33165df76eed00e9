-- ===== src/Policy/Manager/Failure.antt =====
-- The two results of Apply (internal/policy/manager.go): an error, or a published policy.
use hypergate_engine.Prelude.{
  ℕ, Bool, true, false, ◌&&◌, ◌||◌, [], Option, none, some, is_none, leb, ltb, nat_eq, ◌≡◌, refl,
  subst,
}
use hypergate_engine.Prelude.Text.{Str}
use hypergate_engine.Prelude.Maps.{Map}
use hypergate_engine.Config.Parser.{Config}
use hypergate_engine.Engine.Filter.{Chain}
use hypergate_engine.Engine.Registry.{Snapshot, swap, new_snapshot}
use hypergate_engine.Selector.Sets.{member}
use hypergate_engine.Policy.Clients.{
  Dialer, ClientBuild, IsTracked, connect, connect-IsTracked, nothing-IsTracked, member-append,
}
use hypergate_engine.Policy.Filters.{Factory, FilterBuild, build_chains, build_chains-IsTracked}
use hypergate_engine.Policy.Manager.{
  Manager, Retired, abort, publish, apply, finish_filters, finish_clients, filters_before,
  clients_before,
}

module _ {W : Type 0} where
  -- The policy of `m`, and beside what was closed before, just the resources that were created
  -- since then are closed.
  pub record IsRolledBack (m m' : Manager W) : Type 0 where
    pub registry : m'.registry ≡ m.registry
    pub active : m'.active ≡ m.active
    pub redis : m'.redis ≡ m.redis
    pub filters : m'.filters ≡ m.filters
    pub ready : m'.ready ≡ m.ready
    pub checked : m'.checked ≡ m.checked
    pub clients_closed :
        (x : ℕ)
        → member x m'.resources.closed_clients ≡ (
            member x m.resources.closed_clients
            || leb m.resources.next_client x && ltb x m'.resources.next_client)
    pub filters_closed :
        (x : ℕ)
        → member x m'.resources.closed_filters ≡ (
            member x m.resources.closed_filters
            || leb m.resources.next_filter x && ltb x m'.resources.next_filter)

module _ {W : Type 0} (d : Dialer) (fac : Factory W) (m : Manager W) where
  ClientsTracked : ClientBuild → Type 0
  ClientsTracked cb = IsTracked m.resources.next_client cb.next cb.created

  FiltersTracked : FilterBuild W → Type 0
  FiltersTracked fb = IsTracked m.resources.next_filter fb.next fb.created

  abort-IsRolledBack :
      (cb : ClientBuild) (fb : FilterBuild W)
      → ClientsTracked cb
      → FiltersTracked fb
      → IsRolledBack m (abort d fac cb fb m)
  unfolding abort ClientsTracked FiltersTracked
  abort-IsRolledBack cb fb tc tf = record {
    registry = refl;
    active = refl;
    redis = refl;
    filters = refl;
    ready = refl;
    checked = refl;
    clients_closed =
        λ x. rw (member-append x m.resources.closed_clients cb.created, tc.exact x) refl;
    filters_closed =
        λ x. rw (member-append x m.resources.closed_filters fb.created, tf.exact x) refl;
  }

  finish_filters-failed :
      (cfg : Config) (cb : ClientBuild) (r : FilterBuild W × Option (Map Str (Chain W)))
      → ClientsTracked cb
      → FiltersTracked r.0
      → is_none (finish_filters d fac cfg cb m r).1 ≡ true
      → IsRolledBack m (finish_filters d fac cfg cb m r).0
  finish_filters-failed cfg cb (fb, none) tc tf h = abort-IsRolledBack cb fb tc tf
  finish_filters-failed cfg cb (fb, some chains) tc tf h = absurd (cc)

  finish_clients-failed :
      (cfg : Config) (r : ClientBuild × Bool)
      → ClientsTracked r.0
      → is_none (finish_clients d fac cfg m r).1 ≡ true
      → IsRolledBack m (finish_clients d fac cfg m r).0
  unfolding FiltersTracked
  finish_clients-failed cfg (cb, false) tc h =
      abort-IsRolledBack cb (filters_before d fac m) tc (nothing-IsTracked m.resources.next_filter)
  finish_clients-failed cfg (cb, true) tc h =
      finish_filters-failed cfg cb
        (build_chains fac cb.redis m.filters cfg.chains [] (filters_before d fac m)) tc
        (build_chains-IsTracked fac cb.redis m.resources.next_filter m.filters cfg.chains []
          (filters_before d fac m) (nothing-IsTracked m.resources.next_filter))
        h

  -- Where Apply returns an error, the registry, the active configuration, the Redis clients, the
  -- filters, the health checks and the readiness are what they were, and the clients and filters that
  -- this call created, and no others, have been closed.
  pub apply-failed :
      (cfg : Config) → is_none (apply d fac m cfg).1 ≡ true → IsRolledBack m (apply d fac m cfg).0
  unfolding apply ClientsTracked
  apply-failed cfg h =
      finish_clients-failed cfg
        (connect d m.ready m.reload_dial_timeout m.redis cfg.redis (clients_before d fac m))
        (connect-IsTracked d m.ready m.reload_dial_timeout m.redis m.resources.next_client cfg.redis
          (clients_before d fac m) (nothing-IsTracked m.resources.next_client))
        h

  -- The published policy, with nothing closed yet.
  abbrev Publishes : Config → Manager W × Option (Snapshot W × Retired) → Type 0
  Publishes cfg (m', none) = Unit
  Publishes cfg (m', some (previous, retired)) =
      (m'.registry.current.config ≡ some cfg)
      × (m'.active ≡ some cfg)
      × (m'.ready ≡ true)
      × (previous ≡ m.registry.current)
      × (m'.resources.closed_clients ≡ m.resources.closed_clients)
      × (m'.resources.closed_filters ≡ m.resources.closed_filters)

  finish_filters-Publishes :
      (cfg : Config) (cb : ClientBuild) (r : FilterBuild W × Option (Map Str (Chain W)))
      → Publishes cfg (finish_filters d fac cfg cb m r)
  unfolding publish swap new_snapshot
  finish_filters-Publishes cfg cb (fb, none) = tt
  finish_filters-Publishes cfg cb (fb, some chains) = (refl, refl, refl, refl, refl, refl)

  finish_clients-Publishes :
      (cfg : Config) (r : ClientBuild × Bool) → Publishes cfg (finish_clients d fac cfg m r)
  finish_clients-Publishes cfg (cb, false) = tt
  finish_clients-Publishes cfg (cb, true) =
      finish_filters-Publishes cfg cb
        (build_chains fac cb.redis m.filters cfg.chains [] (filters_before d fac m))

  apply-Publishes : (cfg : Config) → Publishes cfg (apply d fac m cfg)
  unfolding apply
  apply-Publishes cfg =
      finish_clients-Publishes cfg
        (connect d m.ready m.reload_dial_timeout m.redis cfg.redis (clients_before d fac m))

  -- Where Apply succeeds, the configuration is the active one and that of the registry's snapshot, the
  -- manager is ready, the snapshot to retire is the previous one, and nothing is closed yet: what the
  -- old policy alone used is left to the cleanup of its snapshot.
  pub apply-published :
      (cfg : Config) {m' : Manager W} {previous : Snapshot W} {retired : Retired}
      → apply d fac m cfg ≡ (m', some (previous, retired))
      → (m'.registry.current.config ≡ some cfg)
        × (m'.active ≡ some cfg)
        × (m'.ready ≡ true)
        × (previous ≡ m.registry.current)
        × (m'.resources.closed_clients ≡ m.resources.closed_clients)
        × (m'.resources.closed_filters ≡ m.resources.closed_filters)
  apply-published cfg h = subst (Publishes cfg) h (apply-Publishes cfg)
