-- ===== src/Engine/Registry.antt =====
-- Snapshots of the policy and the registry that holds the current one (internal/engine/registry.go):
-- their contents. The counting of references is in Lifecycle.
use hypergate_engine.Prelude.{
  ℕ, zero, suc, ◌+◌, ◌/◌, ◌%◌, List, [], ◌∷◌, ◌++◌, Option, none, some, ℤ, pos, negsuc,
  if◌then◌else◌, ◌==◌, nat_eq, list_eq, get_elem?, ltb, ◌≡◌, refl, is_some,
}
use hypergate_engine.Prelude.Text.{Str, lit}
use hypergate_engine.Prelude.Maps.{Map, lookup, insert, lookup-insert}
use hypergate_engine.Config.Limits.{FilterConfig}
use hypergate_engine.Config.Parser.{Config}
use hypergate_engine.Engine.Filter.{Chain}

-- strconv.Itoa, by the digits from the last one on.
itoa_from : ℕ → ℕ → Str → Str
itoa_from zero n rest = rest
itoa_from (suc fuel) n rest =
    let digits = (48 + n % 10) ∷ rest in
    let longer = itoa_from fuel (n / 10) digits in if ltb n 10 then digits else longer

unfoldable pub itoa : ℕ → Str
unfolding itoa_from
itoa n = itoa_from (suc n) n []

pub record Snapshot (W : Type 0) : Type 0 where
  pub config : Option Config
  pub chains : Map Str (Chain W)
  pub filter_names : Map Str (List Str)

unfoldable pub labels : ℕ → List FilterConfig → List Str
labels i [] = []
labels i (f ∷ fs) =
    (if f.name == [] then itoa i ++ lit ":" ++ f.type else f.name) ∷ labels (suc i) fs

unfoldable pub label_chains : Map Str (List FilterConfig) → Map Str (List Str)
unfolding labels
label_chains [] = []
label_chains ((chain, filters) ∷ rest) = (chain, labels 0 filters) ∷ label_chains rest

abbrev names_of : Option Config → Map Str (List Str)
names_of none = []
names_of (some c) = label_chains c.chains

abbrev name_at : ℕ → List Str → Str
name_at index names = elim (get_elem? names index) [ none ↦ itoa index | some name ↦ name ]

abbrev or_no_names : Option (List Str) → List Str
or_no_names none = []
or_no_names (some names) = names

module _ {W : Type 0} where
  unfoldable pub new_snapshot : Option Config → Map Str (Chain W) → Snapshot W
  unfolding label_chains
  new_snapshot cfg chains = record { config = cfg; chains = chains; filter_names = names_of cfg }

  unfoldable pub filter_name : Snapshot W → Str → ℤ → Str
  unfolding itoa
  filter_name s chain (negsuc n) = lit "engine"
  filter_name s chain (pos index) = name_at index (or_no_names (lookup chain s.filter_names))

-- The registry: the snapshot that new streams acquire.
pub record ChainRegistry (W : Type 0) : Type 0 where
  pub current : Snapshot W

module _ {W : Type 0} where
  unfoldable pub new_chain_registry : ChainRegistry W
  unfolding new_snapshot
  new_chain_registry = record { current = new_snapshot none [] }

  -- Swap returns the snapshot to retire beside the new registry.
  unfoldable pub swap : Snapshot W → ChainRegistry W → ChainRegistry W × Snapshot W
  swap next r = (record { current = next }, r.current)

  unfoldable pub register : Str → Chain W → ChainRegistry W → ChainRegistry W × Snapshot W
  register name chain r = (
    record { current = new_snapshot r.current.config (insert name chain r.current.chains) },
    r.current,
  )

  unfoldable pub get : ChainRegistry W → Str → Option (Chain W)
  get r name = lookup name r.current.chains

  unfoldable pub replace_all : Map Str (Chain W) → ChainRegistry W → ChainRegistry W × Snapshot W
  unfolding swap
  replace_all chains r = swap (new_snapshot r.current.config chains) r

  -- A registered chain is found under its name, and the other chains and the configuration stay.
  pub get-register :
      (name : Str) (chain : Chain W) (r : ChainRegistry W) (other : Str)
      → (get (register name chain r).0 other ≡ (if name == other then some chain else get r other))
        × ((register name chain r).0.current.config ≡ r.current.config)
        × ((register name chain r).1 ≡ r.current)
  unfolding get register new_snapshot
  get-register name chain r other = (lookup-insert name other chain r.current.chains, refl, refl)

-- A position has a label exactly where it has a filter.
length-labels :
    (i : ℕ) (fs : List FilterConfig) (j : ℕ)
    → is_some (get_elem? (labels i fs) j) ≡ is_some (get_elem? fs j)
unfolding labels
length-labels i [] j = refl
length-labels i (f ∷ fs) zero = refl
length-labels i (f ∷ fs) (suc j) = length-labels (suc i) fs j
