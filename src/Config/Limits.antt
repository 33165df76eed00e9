-- ===== src/Config/Limits.antt =====
-- Filter definitions and the bounds on a chain's work (internal/config/chain.go).
use hypergate_engine.Prelude.{
  zero, suc, Bool, true, false, ◌||◌, [], Option, none, some, ℤ, pos, negsuc, if◌then◌else◌, ◌==◌,
  nat_eq, list_eq,
}
use hypergate_engine.Prelude.Text.{Str, lit}
use hypergate_engine.Prelude.Maps.{Map}

-- The values that YAML decodes into `interface{}`.
mutual
  pub data Yaml : Type 0 where
    null : Yaml
    bool : Bool → Yaml
    num : ℤ → Yaml
    text : Str → Yaml
    seq : Items → Yaml
    mapping : Fields → Yaml

  pub data Items : Type 0 where
    nil : Items
    cons : Yaml → Items → Items

  pub data Fields : Type 0 where
    end : Fields
    field : Str → Yaml → Fields → Fields

pub record FilterConfig : Type 0 where
  pub name : Str
  pub audit : Bool
  pub type : Str
  pub options : Map Str Yaml

abbrev pub limit_action_deny : Str
limit_action_deny = lit "deny"

abbrev pub limit_action_allow : Str
limit_action_allow = lit "allow"

pub record ChainSettings : Type 0 where
  pub timeout : Str
  pub max_concurrency : ℤ
  pub on_timeout : Str
  pub on_overload : Str
  pub timeout_duration : ℤ

abbrev pub no_settings : ChainSettings
no_settings = record {
  timeout = [];
  max_concurrency = pos 0;
  on_timeout = [];
  on_overload = [];
  timeout_duration = pos 0;
}

abbrev pub is_positive : ℤ → Bool
is_positive (pos n) = elim n [ zero ↦ false | suc _ ↦ true ]
is_positive (negsuc n) = false

abbrev pub is_negative : ℤ → Bool
is_negative (pos n) = false
is_negative (negsuc n) = true

-- One of the two action fields: empty means deny, and only the two actions are allowed.
unfoldable pub validate_action : Str → Option Str
validate_action v =
    if v == []
    then some limit_action_deny
    else if v == limit_action_deny || v == limit_action_allow
    then some v
    else none

abbrev with_actions : ChainSettings → Option Str → Option Str → Option ChainSettings
with_actions c (some on_timeout) (some on_overload) =
    some (record c { on_timeout = on_timeout; on_overload = on_overload })
with_actions c _ _ = none

abbrev check_concurrency : ChainSettings → Option ChainSettings
check_concurrency c =
    if is_negative c.max_concurrency
    then none
    else with_actions c (validate_action c.on_timeout) (validate_action c.on_overload)

-- ChainSettings.validate, with time.ParseDuration given; `none` is its error.
unfoldable pub validate : (Str → Option ℤ) → ChainSettings → Option ChainSettings
unfolding validate_action
validate parse_duration c =
    if c.timeout == [] then check_concurrency c else elim (parse_duration c.timeout) [
      | none ↦ none
      | some d ↦
          if is_positive d then check_concurrency (record c { timeout_duration = d }) else none
    ]

abbrev pub is_zero : ℤ → Bool
is_zero (pos n) = n == 0
is_zero (negsuc n) = false
