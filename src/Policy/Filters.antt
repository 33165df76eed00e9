-- ===== src/Policy/Filters.antt =====
-- Step 2 of Apply of internal/policy/manager.go: filters with the same definition share one instance,
-- within a configuration and with the previous one. `id` tells the instances apart.
use hypergate_engine.Prelude.{
  ℕ, suc, List, [], ◌∷◌, ◌++◌, Option, none, some, if◌then◌else◌, nat_eq, list_eq, subst,
  Option-cases, inl, inr,
}
use hypergate_engine.Prelude.Text.{Str, lit}
use hypergate_engine.Prelude.Maps.{Map, lookup, insert}
use hypergate_engine.Config.Limits.{FilterConfig, Yaml}
use hypergate_engine.Engine.Filter.{Filter, Chain, audit}
use hypergate_engine.Engine.Registry.{itoa}
use hypergate_engine.Policy.Clients.{Entry, IsTracked, snoc-IsTracked}

pub record FilterRef (W : Type 0) : Type 0 where
  pub id : ℕ
  pub filter : Filter W

-- yaml.Marshal, and the FilterFactory, which is given the clients by service name.
pub record Factory (W : Type 0) : Type 0 where
  pub marshal : Map Str Yaml → Option Str
  pub new_filter : Str → Map Str Yaml → (Str → Option ℕ) → Option (Filter W)

-- The filters of the next policy so far.
pub record FilterBuild (W : Type 0) : Type 0 where
  pub filters : Map Str (FilterRef W)
  pub next : ℕ
  pub created : List ℕ

abbrev separator : Str
separator = 0 ∷ []

abbrev pointer_suffix : Option Entry → Str
pointer_suffix none = []
pointer_suffix (some e) = separator ++ itoa e.id

-- The service that the options name, if they name one by a string.
abbrev service_option : Map Str Entry → Option Yaml → Option Entry
service_option redis (some (Yaml.text svc)) = lookup svc redis
service_option redis _ = none

abbrev client_id : Option Entry → Option ℕ
client_id none = none
client_id (some e) = some e.id

module _ {W : Type 0} (fac : Factory W) (redis : Map Str Entry) where
  -- filterKey. A pointer is written by its number.
  unfoldable pub filter_key : FilterConfig → Option Str
  filter_key fc = elim (fac.marshal fc.options) [
    | none ↦ none
    | some opts ↦ some (
        fc.type
        ++ separator
        ++ opts
        ++ pointer_suffix (service_option redis (lookup (lit "redis_service") fc.options)))
  ]

  abbrev find_client : Str → Option ℕ
  find_client service = client_id (lookup service redis)

  abbrev positioned : FilterConfig → Filter W → Filter W
  positioned fc f = if fc.audit then audit f else f

  abbrev kept_filter : FilterConfig → Str → FilterRef W → FilterBuild W → Filter W × FilterBuild W
  kept_filter fc key r b = (positioned fc r.filter, record b { filters = insert key r b.filters })

  abbrev new_filter :
      FilterConfig → Str → Option (Filter W) → FilterBuild W → Option (Filter W × FilterBuild W)
  new_filter fc key none b = none
  new_filter fc key (some f) b =
      let r : FilterRef W = record { id = b.next; filter = f } in
      some (
        positioned fc f,
        record {
          filters = insert key r b.filters;
          next = suc b.next;
          created = b.created ++ b.next ∷ [];
        },
      )

  -- The instance of this configuration, else that of the previous one, else a new one.
  abbrev shared_or_new :
      Option (FilterRef W)
      → Option (FilterRef W)
      → FilterConfig
      → Str
      → FilterBuild W
      → Option (Filter W × FilterBuild W)
  shared_or_new (some r) previous fc key b = some (kept_filter fc key r b)
  shared_or_new none (some r) fc key b = some (kept_filter fc key r b)
  shared_or_new none none fc key b =
      new_filter fc key (fac.new_filter fc.type fc.options find_client) b

  abbrev place_keyed :
      Map Str (FilterRef W)
      → FilterConfig
      → Option Str
      → FilterBuild W
      → Option (Filter W × FilterBuild W)
  place_keyed old fc none b = none
  place_keyed old fc (some key) b = shared_or_new (lookup key b.filters) (lookup key old) fc key b

  -- One position of a chain; `none` is an error.
  unfoldable pub place :
      Map Str (FilterRef W) → FilterConfig → FilterBuild W → Option (Filter W × FilterBuild W)
  unfolding filter_key
  place old fc b = place_keyed old fc (filter_key fc) b

  unfoldable pub build_chain :
      Map Str (FilterRef W)
      → List FilterConfig
      → Chain W
      → FilterBuild W
      → FilterBuild W × Option (Chain W)
  build_chain old [] chain b = (b, some chain)
  build_chain old (fc ∷ fcs) chain b = elim (place old fc b) [
    | none ↦ (b, none)
    | some r ↦ build_chain old fcs (chain ++ r.0 ∷ []) r.1
  ]

  abbrev and_next :
      (Chain W → FilterBuild W → FilterBuild W × Option (Map Str (Chain W)))
      → FilterBuild W × Option (Chain W)
      → FilterBuild W × Option (Map Str (Chain W))
  and_next rest (b, none) = (b, none)
  and_next rest (b, some chain) = rest chain b

  unfoldable pub build_chains :
      Map Str (FilterRef W)
      → Map Str (List FilterConfig)
      → Map Str (Chain W)
      → FilterBuild W
      → FilterBuild W × Option (Map Str (Chain W))
  build_chains old [] chains b = (b, some chains)
  build_chains old ((name, fcs) ∷ rest) chains b =
      and_next (λ chain b'. build_chains old rest (insert name chain chains) b')
        (build_chain old fcs [] b)

  abbrev Tracks : ℕ → FilterBuild W → Type 0
  Tracks start b = IsTracked start b.next b.created

  abbrev Keeps : ℕ → Option (Filter W × FilterBuild W) → Type 0
  Keeps start none = Unit
  Keeps start (some (f, b)) = Tracks start b

  shared_or_new-Keeps :
      (start : ℕ) (here there : Option (FilterRef W)) (fc : FilterConfig) (key : Str)
      (b : FilterBuild W)
      → Tracks start b
      → Keeps start (shared_or_new here there fc key b)
  shared_or_new-Keeps start (some r) there fc key b t = t
  shared_or_new-Keeps start none (some r) fc key b t = t
  shared_or_new-Keeps start none none fc key b t =
      elim (fac.new_filter fc.type fc.options find_client)
        as (λ o. Keeps start (new_filter fc key o b)) [
          | none ↦ tt
          | some f ↦ snoc-IsTracked start b.next b.created t
        ]

  place-Keeps :
      (start : ℕ) (old : Map Str (FilterRef W)) (fc : FilterConfig) (b : FilterBuild W)
      → Tracks start b
      → Keeps start (place old fc b)
  unfolding place
  place-Keeps start old fc b t =
      elim (filter_key fc) as (λ o. Keeps start (place_keyed old fc o b)) [
        | none ↦ tt
        | some key ↦ shared_or_new-Keeps start (lookup key b.filters) (lookup key old) fc key b t
      ]

  build_chain-IsTracked :
      (start : ℕ) (old : Map Str (FilterRef W)) (fcs : List FilterConfig) (chain : Chain W)
      (b : FilterBuild W)
      → Tracks start b
      → Tracks start (build_chain old fcs chain b).0
  unfolding build_chain
  build_chain-IsTracked start old [] chain b t = t
  build_chain-IsTracked start old (fc ∷ fcs) chain b t =
      let kept = place-Keeps start old fc b t in
      elim (Option-cases (place old fc b)) [
        | inl e ↦ rw (e, build_chain) t
        | inr (r, e) ↦
            rw (e, build_chain)
              (build_chain-IsTracked start old fcs (chain ++ r.0 ∷ []) r.1
                (subst (Keeps start) e kept))
      ]

  and_next-IsTracked :
      (start : ℕ) (rest : Chain W → FilterBuild W → FilterBuild W × Option (Map Str (Chain W)))
      → ((chain : Chain W) (b : FilterBuild W) → Tracks start b → Tracks start (rest chain b).0)
      → (r : FilterBuild W × Option (Chain W)) → Tracks start r.0
      → Tracks start (and_next rest r).0
  and_next-IsTracked start rest keeps (b, none) t = t
  and_next-IsTracked start rest keeps (b, some chain) t = keeps chain b t

  pub build_chains-IsTracked :
      (start : ℕ) (old : Map Str (FilterRef W)) (todo : Map Str (List FilterConfig))
      (chains : Map Str (Chain W)) (b : FilterBuild W)
      → IsTracked start b.next b.created
      → IsTracked start
          (build_chains old todo chains b).0.next
          (build_chains old todo chains b).0.created
  unfolding build_chains
  build_chains-IsTracked start old [] chains b t = t
  build_chains-IsTracked start old ((name, fcs) ∷ rest) chains b t =
      and_next-IsTracked start (λ chain b'. build_chains old rest (insert name chain chains) b')
        (λ chain b' u. build_chains-IsTracked start old rest (insert name chain chains) b' u)
        (build_chain old fcs [] b) (build_chain-IsTracked start old fcs [] b t)
