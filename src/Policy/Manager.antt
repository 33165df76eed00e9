-- ===== src/Policy/Manager.antt =====
-- The Manager of internal/policy/manager.go: Apply and Close. What is closed is kept in a record of
-- resources; a retired resource is closed by the cleanup that Apply hands to the registry. Logs are
-- left out, and so is the mutex, under which Apply and Close run one at a time.
pub mod Failure
pub mod Retiring
use hypergate_engine.Prelude.{
  ℕ, suc, Bool, true, false, ◌&&◌, not, List, [], ◌∷◌, ◌++◌, Option, none, some, if◌then◌else◌,
  ◌==◌, nat_eq, list_eq, ℤ, pos,
}
use hypergate_engine.Prelude.Text.{Str}
use hypergate_engine.Prelude.Maps.{Map, lookup}
use hypergate_engine.Config.Parser.{Config}
use hypergate_engine.Engine.Filter.{Chain}
use hypergate_engine.Engine.Registry.{Snapshot, ChainRegistry, new_snapshot, swap}
use hypergate_engine.Selector.Sets.{member}
use hypergate_engine.Policy.Clients.{Dialer, Entry, ClientBuild, connect}
use hypergate_engine.Policy.Filters.{Factory, FilterRef, FilterBuild, build_chains}

-- The pointers that were handed out, and what was closed.
pub record Resources : Type 0 where
  pub next_client : ℕ
  pub next_filter : ℕ
  pub closed_clients : List ℕ
  pub closed_filters : List ℕ

pub record Manager (W : Type 0) : Type 0 where
  pub registry : ChainRegistry W
  -- config.GlobalConfig
  pub active : Option Config
  pub reload_dial_timeout : ℤ
  pub redis : Map Str Entry
  pub filters : Map Str (FilterRef W)
  pub ready : Bool
  -- the clients with a running health check: those whose `stopHealth` is set
  pub checked : List ℕ
  pub resources : Resources

-- What the cleanup of the previous snapshot closes.
pub record Retired : Type 0 where
  pub retired_filters : List ℕ
  pub retired_redis : List ℕ

-- closeFilters and the Close of clients.
unfoldable pub close_all : List ℕ → List ℕ → Resources → Resources
close_all filters clients r = record r {
  closed_filters = r.closed_filters ++ filters;
  closed_clients = r.closed_clients ++ clients;
}

module _ {W : Type 0} where
  -- Instances whose definition the next policy does not have.
  unfoldable pub unused_filters : Map Str (FilterRef W) → Map Str (FilterRef W) → List ℕ
  unused_filters next [] = []
  unused_filters next ((key, r) ∷ old) =
      let rest = unused_filters next old in
      elim (lookup key next) [ none ↦ r.id ∷ rest | some _ ↦ rest ]

abbrev same_entry : Entry → Option Entry → Bool
same_entry e none = false
same_entry e (some e') = e'.id == e.id

-- Entries that the next policy does not have under their name.
unfoldable pub unused_redis : Map Str Entry → Map Str Entry → List ℕ
unused_redis next [] = []
unused_redis next ((name, e) ∷ old) =
    let rest = unused_redis next old in
    if same_entry e (lookup name next) then rest else e.id ∷ rest

-- Step 5: checks stop with their clients, and start for new clients that want one.
unfoldable pub stop_checks : List ℕ → List ℕ → List ℕ
stop_checks gone [] = []
stop_checks gone (id ∷ ids) =
    let rest = stop_checks gone ids in if member id gone then rest else id ∷ rest

unfoldable pub start_checks : Map Str Entry → List ℕ → List ℕ
start_checks [] checked = checked
start_checks ((_, e) ∷ entries) checked = start_checks entries (
    if e.cfg.active_conn_health_check && not (member e.id checked)
    then checked ++ e.id ∷ []
    else checked)

module _ {W : Type 0} (d : Dialer) (fac : Factory W) where
  abbrev clients_before : Manager W → ClientBuild
  clients_before m = record { redis = []; next = m.resources.next_client; created = [] }

  abbrev filters_before : Manager W → FilterBuild W
  filters_before m = record { filters = []; next = m.resources.next_filter; created = [] }

  abbrev handed_out : ClientBuild → FilterBuild W → Manager W → Resources
  handed_out cb fb m = record m.resources { next_client = cb.next; next_filter = fb.next }

  -- `abort`: what this call created is closed, and nothing else changes.
  unfoldable pub abort : ClientBuild → FilterBuild W → Manager W → Manager W
  unfolding close_all
  abort cb fb m = record m { resources = close_all fb.created cb.created (handed_out cb fb m) }

  -- Steps 3 to 5. The previous snapshot is returned with its cleanup.
  unfoldable pub publish :
      Config
      → Map Str (Chain W)
      → ClientBuild
      → FilterBuild W
      → Manager W
      → Manager W × Snapshot W × Retired
  publish cfg chains cb fb m =
      let gone = unused_redis cb.redis m.redis in
      let (registry, previous) = swap (new_snapshot (some cfg) chains) m.registry in
      (
        record m {
          registry = registry;
          active = some cfg;
          redis = cb.redis;
          filters = fb.filters;
          ready = true;
          checked = start_checks cb.redis (stop_checks gone m.checked);
          resources = handed_out cb fb m;
        },
        previous,
        record { retired_filters = unused_filters fb.filters m.filters; retired_redis = gone },
      )

  abbrev retiring : Manager W × Snapshot W × Retired → Manager W × Option (Snapshot W × Retired)
  retiring (m, previous, retired) = (m, some (previous, retired))

  abbrev finish_filters :
      Config
      → ClientBuild
      → Manager W
      → FilterBuild W × Option (Map Str (Chain W))
      → Manager W × Option (Snapshot W × Retired)
  finish_filters cfg cb m (fb, none) = (abort cb fb m, none)
  finish_filters cfg cb m (fb, some chains) = retiring (publish cfg chains cb fb m)

  abbrev finish_clients :
      Config → Manager W → ClientBuild × Bool → Manager W × Option (Snapshot W × Retired)
  finish_clients cfg m (cb, false) = (abort cb (filters_before m) m, none)
  finish_clients cfg m (cb, true) =
      finish_filters cfg cb m (build_chains fac cb.redis m.filters cfg.chains [] (filters_before m))

  -- The snapshot to retire with its cleanup, or none where Apply returns an error.
  unfoldable pub apply : Manager W → Config → Manager W × Option (Snapshot W × Retired)
  unfolding connect build_chains abort publish
  apply m cfg =
      finish_clients cfg m
        (connect d m.ready m.reload_dial_timeout m.redis cfg.redis (clients_before m))

  abbrev filter_ids : Map Str (FilterRef W) → List ℕ
  filter_ids [] = []
  filter_ids ((_, r) ∷ rs) = r.id ∷ filter_ids rs

  abbrev client_ids : Map Str Entry → List ℕ
  client_ids [] = []
  client_ids ((_, e) ∷ es) = e.id ∷ client_ids es

  unfoldable pub close : Manager W → Manager W
  unfolding close_all
  close m = record m {
    filters = [];
    redis = [];
    checked = stop_checks (client_ids m.redis) m.checked;
    resources = close_all (filter_ids m.filters) (client_ids m.redis) m.resources;
  }
