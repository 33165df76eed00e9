-- ===== src/Grpc/Routing/Laws.antt =====
-- The state of a stream across resolve (internal/grpc/handlers.go).
use hypergate_engine.Prelude.{
  true, false, [], Option, none, some, nat_eq, list_eq, eq_iff, ◌≡◌, ◌⊎◌, inl, inr, refl, arith,
  Bool-cases, if_ind, if_cases,
}
use hypergate_engine.Prelude.Text.{Str, lit}
use hypergate_engine.Prelude.Maps.{lookup}
use hypergate_engine.Identity.Index.{Index}
use hypergate_engine.Selector.Traffic.{traffic_eq}
use hypergate_engine.Config.Parser.{Config}
use hypergate_engine.Engine.Context.{RequestContext}
use hypergate_engine.Router.{route_with}
use hypergate_engine.Grpc.Routing.{
  StreamState, resolve, resolve_config, resolve_identity, choose, unknown_caller,
}

module _ {W : Type 0} where
  -- Two states of one stream, with the same snapshot and the same memory of being resolved.
  abbrev IsSameStream : StreamState W → StreamState W → Type 0
  IsSameStream s t = (s.resolved ≡ t.resolved) × (s.snap ≡ t.snap)

  choose-same : (st : StreamState W) (r : RequestContext × Str) → IsSameStream (choose st r).0 st
  unfolding choose
  choose-same st r = ground (arith)

  resolve_config-same :
      (identity : Option Index) (cfg : Option Config) (st : StreamState W) (ctx : RequestContext)
      → IsSameStream (resolve_config identity cfg st ctx).0 st
  unfolding resolve_config
  resolve_config-same identity none st ctx = (refl, refl)
  resolve_config-same identity (some cfg) st ctx =
      let known = resolve_identity identity ctx in
      if_ind (λ (r : StreamState W × RequestContext). IsSameStream r.0 st)
        (unknown_caller identity cfg known) (refl, refl)
        (choose-same st (route_with cfg.router known))

module _ {W : Type 0} (identity : Option Index) where
  pub resolve-resolved :
      (st : StreamState W) (c : RequestContext)
      → st.resolved ≡ true
      → resolve identity st c ≡ (st, c)
  unfolding resolve
  resolve-resolved st c h = ground (arith)

  pub resolve-same :
      (st : StreamState W) (ctx : RequestContext)
      → ((resolve identity st ctx).0.resolved ≡ true) × ((resolve identity st ctx).0.snap ≡ st.snap)
  unfolding resolve
  resolve-same st ctx = elim (Bool-cases st.resolved) [
    | inl h ↦ ground (arith)
    | inr h ↦
        let same =
          resolve_config-same identity st.snap.config (record st { resolved = true }) ctx in
        ground (arith)
  ]

  -- A stream that has handled a message is resolved and holds the snapshot that it was opened with,
  -- and the next message, whatever its context, changes neither its state nor the context.
  pub resolve_once :
      (st : StreamState W) (ctx c : RequestContext)
      → ((resolve identity st ctx).0.resolved ≡ true)
        × ((resolve identity st ctx).0.snap ≡ st.snap)
        × (resolve identity (resolve identity st ctx).0 c ≡ ((resolve identity st ctx).0, c))
  resolve_once st ctx c =
      let (done, kept) = resolve-same st ctx in
      (done, kept, resolve-resolved (resolve identity st ctx).0 c done)

  -- The stream has the chain that its snapshot holds under `name`, or its old chain for no name.
  abbrev Takes : StreamState W → Str → StreamState W → Type 0
  Takes st name r =
      (r.name ≡ name)
      × (((name ≡ []) × (r.chain ≡ st.chain)) ⊎ (lookup name st.snap.chains ≡ some r.chain))

  -- What the router of the stream's snapshot says of the identified request, taken at its word.
  pub record FollowsRouter (st : StreamState W) (ctx : RequestContext)
      (r : StreamState W × RequestContext) : Type 0 where
    pub config : Config
    pub loaded : st.snap.config ≡ some config
    pub known : unknown_caller identity config (resolve_identity identity ctx) ≡ false
    pub taken : Takes st (route_with config.router (resolve_identity identity ctx)).1 r.0
    pub passed : r.1 ≡ (route_with config.router (resolve_identity identity ctx)).0

  choose-Takes :
      (st : StreamState W) (ctx : RequestContext) (name : Str)
      → (choose st (ctx, name)).1.blocked ≡ false
      → Takes st name (choose st (ctx, name)).0 × ((choose st (ctx, name)).1 ≡ ctx)
  unfolding choose
  choose-Takes st ctx name h = ground (arith, eq_iff name (lit ""))

  abbrev IsClosed : StreamState W → RequestContext → StreamState W × RequestContext → Type 0
  IsClosed st ctx r = r.1.blocked ≡ false → FollowsRouter st ctx r

  resolve_config-IsClosed :
      (o : Option Config) (st : StreamState W) (ctx : RequestContext)
      → st.snap.config ≡ o
      → IsClosed st ctx (resolve_config identity o st ctx)
  unfolding resolve_config
  resolve_config-IsClosed none st ctx e = λ h. cc
  resolve_config-IsClosed (some cfg) st ctx e =
      let known = resolve_identity identity ctx in
      let (ctx', name) = route_with cfg.router known in
      if_cases (IsClosed st ctx) (unknown_caller identity cfg known) (λ _ h. cc)
        (λ k h.
          let (taken, passed) = choose-Takes st ctx' name h in
          record { config = cfg; loaded = e; known = k; taken = taken; passed = passed })

  -- Where a stream has not been routed and the first message leaves it unblocked, its snapshot has a
  -- configuration, the caller is not an unknown one, and the stream goes by what the router says of the
  -- request: it has the chain that the snapshot holds under the name that the router gives, or the chain
  -- that it had where the router gives no name.
  pub resolve-fails_closed :
      (st : StreamState W) (ctx : RequestContext)
      → st.resolved ≡ false
      → (resolve identity st ctx).1.blocked ≡ false
      → FollowsRouter st ctx (resolve identity st ctx)
  unfolding resolve
  resolve-fails_closed st ctx h =
      if_cases (IsClosed st ctx) st.resolved (λ t. cc)
        (λ _ b.
          let f =
            resolve_config-IsClosed st.snap.config (record st { resolved = true }) ctx refl b in
          record {
            config = f.config;
            loaded = f.loaded;
            known = f.known;
            taken = f.taken;
            passed = f.passed;
          })
