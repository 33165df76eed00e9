-- ===== src/Config/Parser/Laws.antt =====
-- Chain references and chain limits after ParseBytes (internal/config/parser.go).
use hypergate_engine.Prelude.{
  Bool, true, false, ◌&&◌, not, List, [], ◌∷◌, Option, some, ℤ, ◌==◌, eq_iff, nat_eq, list_eq, all,
  is_some, ◌≡◌, ◌⊎◌, inl, inr, arith, Bool-cases, Option-cases,
}
use hypergate_engine.Prelude.Text.{Str, lit}
use hypergate_engine.Prelude.Maps.{Map, lookup}
use hypergate_engine.Selector.Traffic.{Traffic}
use hypergate_engine.Config.Limits.{
  FilterConfig, ChainSettings, validate, is_positive, is_negative, limit_action_deny,
  limit_action_allow,
}
use hypergate_engine.Config.Routing.{RouteConfig}
use hypergate_engine.Config.Parser.{
  Config, Platform, prepare, validate_chain_references, defined_or_empty, check_settings,
}
use hypergate_engine.Engine.Context.{RequestContext}
use hypergate_engine.Router.{route_with, first_route, default_chain}

prepare-references :
    (os : Platform) (cfg : Config) {c : Config}
    → prepare os cfg ≡ some c
    → validate_chain_references c ≡ true
unfolding prepare
prepare-references os cfg {c} h = ground arith

prepare-settings :
    (os : Platform) (cfg : Config) {c : Config}
    → prepare os cfg ≡ some c
    → check_settings os.parse_duration c.chains cfg.chain_settings ≡ some c.chain_settings
unfolding prepare
prepare-settings os cfg {c} h = ground arith

-- No name, or that of a chain that the configuration defines.
abbrev pub IsDefined : Config → Str → Type 0
IsDefined c name = defined_or_empty c.chains name ≡ true

default_chain-IsDefined :
    (c : Config) (t : Traffic)
    → validate_chain_references c ≡ true
    → IsDefined c (default_chain c.router t)
unfolding validate_chain_references default_chain
default_chain-IsDefined c t h = ground arith

abbrev target_ok : Map Str (List FilterConfig) → RouteConfig → Bool
target_ok chains r = not (r.target_chain == []) && is_some (lookup r.target_chain chains)

-- The route that is chosen is one of the configuration's.
first_route-target :
    (chains : Map Str (List FilterConfig)) (rs : List RouteConfig) (ctx : RequestContext)
    {r : RouteConfig}
    → all (target_ok chains) rs ≡ true
    → first_route rs ctx ≡ some r
    → is_some (lookup r.target_chain chains) ≡ true
unfolding first_route
first_route-target chains [] ctx h e = cc
first_route-target chains (q ∷ qs) ctx {r} h e =
    ground (arith, first_route-target chains qs ctx {r = r})

routes_ok :
    (c : Config)
    → validate_chain_references c ≡ true
    → all (target_ok c.chains) c.router.routes ≡ true
unfolding validate_chain_references
routes_ok c h = ground arith

-- A configuration that loads sends no request to a chain that it does not define: whatever the
-- request, the router answers with a defined chain, or with none at all.
pub prepare-route_with :
    (os : Platform) (cfg : Config) (ctx : RequestContext) {c : Config}
    → prepare os cfg ≡ some c
    → IsDefined c (route_with c.router ctx).1
unfolding route_with
prepare-route_with os cfg ctx {c} h =
    let valid = prepare-references os cfg h in
    elim (Option-cases (first_route c.router.routes ctx)) [
      | inl e ↦ rw e (default_chain-IsDefined c ctx.traffic valid)
      | inr (r, e) ↦
          rw e
            (ground (arith, first_route-target c.chains c.router.routes ctx (routes_ok c valid) e))
    ]

-- The limits of a chain that the engine acts on.
pub record IsValidSettings (s : ChainSettings) : Type 0 where
  pub on_timeout : (s.on_timeout ≡ limit_action_deny) ⊎ (s.on_timeout ≡ limit_action_allow)
  pub on_overload : (s.on_overload ≡ limit_action_deny) ⊎ (s.on_overload ≡ limit_action_allow)
  pub concurrency : is_negative s.max_concurrency ≡ false
  pub timeout : (s.timeout ≡ []) ⊎ (is_positive s.timeout_duration ≡ true)

validate-IsValidSettings :
    (parse_duration : Str → Option ℤ) (cs : ChainSettings) {s : ChainSettings}
    → validate parse_duration cs ≡ some s
    → IsValidSettings s
unfolding validate
validate-IsValidSettings parse_duration cs {s} h = ground (
  arith,
  eq_iff cs.timeout (lit ""),
  eq_iff cs.on_timeout limit_action_deny,
  eq_iff cs.on_timeout limit_action_allow,
  eq_iff cs.on_overload limit_action_deny,
  eq_iff cs.on_overload limit_action_allow,
)

check_settings-parts :
    (parse_duration : Str → Option ℤ) (chains : Map Str (List FilterConfig)) (k : Str)
    (cs : ChainSettings) (ms : Map Str ChainSettings) {rs : Map Str ChainSettings}
    → check_settings parse_duration chains ((k, cs) ∷ ms) ≡ some rs
    → (cs' : ChainSettings) × (rest : Map Str ChainSettings) × (validate parse_duration cs
        ≡ some cs')
      × (check_settings parse_duration chains ms ≡ some rest)
      × (rs ≡ (k, cs') ∷ rest)
unfolding check_settings
check_settings-parts parse_duration chains k cs ms h =
    elim (Option-cases (validate parse_duration cs)) [
      | inl e ↦ absurd (ground arith)
      | inr (cs', e) ↦ elim (Option-cases (check_settings parse_duration chains ms)) [
        | inl f ↦ absurd (ground arith)
        | inr (rest, f) ↦ (cs', rest, e, f, ground arith)
      ]
    ]

check_settings-valid :
    (parse_duration : Str → Option ℤ) (chains : Map Str (List FilterConfig))
    (ms : Map Str ChainSettings) (name : Str) {rs : Map Str ChainSettings} {s : ChainSettings}
    → check_settings parse_duration chains ms ≡ some rs
    → lookup name rs ≡ some s
    → IsValidSettings s
unfolding lookup check_settings
check_settings-valid parse_duration chains [] name h e = absurd (ground arith)
check_settings-valid parse_duration chains ((k, cs) ∷ ms) name {rs} {s} h e =
    let (cs', rest, v, r, q) = check_settings-parts parse_duration chains k cs ms h in
    elim (Bool-cases (k == name)) [
      | inl here ↦
          let same : cs' ≡ s = ground arith in
          rw same at (validate-IsValidSettings parse_duration cs v)
      | inr there ↦
          check_settings-valid parse_duration chains ms name {rs = rest} {s = s} r (ground arith)
    ]

-- In a configuration that loads, the limits of every chain name one of the two actions for a timeout
-- and for overload, do not bound the concurrency below 0, and have a positive timeout or none.
pub prepare-IsValidSettings :
    (os : Platform) (cfg : Config) (name : Str) {c : Config} {s : ChainSettings}
    → prepare os cfg ≡ some c
    → lookup name c.chain_settings ≡ some s
    → IsValidSettings s
prepare-IsValidSettings os cfg name {c} {s} h e =
    check_settings-valid os.parse_duration c.chains cfg.chain_settings name {rs = c.chain_settings}
      {s = s} (prepare-settings os cfg h) e
