-- ===== src/Selector/Sets.antt =====
-- Compiled selector lists and how they match (Set, Compile, MatchSource, MatchDestination and Match
-- of internal/selector/selector.go). A map to struct{} is the list of its keys; a nil Set is `none`.
pub mod Meaning
pub mod Laws
pub mod Compiled
use hypergate_engine.Prelude.{
  ℕ, suc, Bool, true, false, ◌&&◌, ◌||◌, not, List, [], ◌∷◌, ◌++◌, Option, none, some,
  if◌then◌else◌, ◌==◌, nat_eq, list_eq, any, all, length, ltb, Eq, is_some,
}
use hypergate_engine.Prelude.Text.{Str, lit, has_suffix, cut, join}
use hypergate_engine.Prelude.Maps.{Map, lookup}
use hypergate_engine.Net.{Addr, Prefix, contains, addr_eq, is_valid}
use hypergate_engine.Identity.Workload.{Workload, is_pod}
use hypergate_engine.Selector.Kinds.{Kind, Side, info}
use hypergate_engine.Selector.Parse.{Netip, Selector, parse, selector_string}

pub record LabelSelector : Type 0 where
  pub namespace : Str
  pub kv : Map Str Str

pub record Set : Type 0 where
  pub any_entry : Bool
  pub addrs : List Addr
  pub prefixes : List Prefix
  pub hosts : List Str
  pub suffixes : List Str
  pub services : List Str
  pub namespaces : List Str
  pub sas : List Str
  pub spiffe : List Str
  pub labels : List LabelSelector
  pub external : Bool
  pub raw : List Str

abbrev pub empty_set : Set
empty_set = record {
  any_entry = false;
  addrs = [];
  prefixes = [];
  hosts = [];
  suffixes = [];
  services = [];
  namespaces = [];
  sas = [];
  spiffe = [];
  labels = [];
  external = false;
  raw = [];
}

unfoldable pub member {ℓ} : {A : Type ℓ} ⦃e : Eq A⦄ → A → List A → Bool
member a [] = false
member a (x ∷ xs) = a == x || member a xs

unfoldable pub uses_workloads : Option Set → Bool
uses_workloads none = false
uses_workloads (some s) =
    s.external
    || not (length s.services == 0)
    || not (length s.namespaces == 0)
    || not (length s.sas == 0)
    || not (length s.spiffe == 0)
    || not (length s.labels == 0)

unfoldable pub add_key {ℓ} : {A : Type ℓ} ⦃e : Eq A⦄ → List A → A → List A
unfolding member
add_key m k = if member k m then m else k ∷ m

abbrev add_kind : Kind → Selector → Set → Set
add_kind Kind.any sel set = record set { any_entry = true }
add_kind Kind.ip sel set = record set { addrs = add_key set.addrs sel.addr }
add_kind Kind.cidr sel set = record set { prefixes = set.prefixes ++ sel.prefix ∷ [] }
add_kind Kind.host sel set =
    if sel.wildcard
    then record set { suffixes = set.suffixes ++ sel.host ∷ [] }
    else record set { hosts = add_key set.hosts sel.host }
add_kind Kind.service sel set = record set { services = add_key set.services sel.value }
add_kind Kind.namespace sel set = record set { namespaces = add_key set.namespaces sel.value }
add_kind Kind.sa sel set = record set { sas = add_key set.sas sel.value }
add_kind Kind.spiffe sel set = record set {
  spiffe = add_key set.spiffe (lit "spiffe:" ++ sel.value);
}
add_kind Kind.labels sel set = record set {
  labels = set.labels ++ record { namespace = sel.label_ns; kv = sel.label_kv } ∷ [];
}
add_kind Kind.external sel set = record set { external = true }

-- One selector that was parsed, added to the set.
unfoldable pub add_selector : Selector → Set → Set
unfolding add_key
add_selector sel set =
    add_kind sel.kind sel (record set { raw = set.raw ++ selector_string sel ∷ [] })

module _ (net : Netip) where
  -- The loop of Compile; `none` is its error.
  unfoldable pub compile_from : List Str → Side → Bool → Set → Option Set
  unfolding info
  compile_from [] side allow_workloads set = some set
  compile_from (raw ∷ list) side allow_workloads set = elim (parse net raw side) [
    | none ↦ none
    | some sel ↦
        if (info sel.kind).workload && not allow_workloads
        then none
        else compile_from list side allow_workloads (add_selector sel set)
  ]

  unfoldable pub compile : List Str → Side → Bool → Option (Option Set)
  unfolding compile_from
  compile list side allow_workloads =
      if length list == 0
      then some none
      else elim (compile_from list side allow_workloads empty_set) [
        | none ↦ none
        | some set ↦ some (some set)
      ]

unfoldable pub label_matches : LabelSelector → Workload → Bool
label_matches l w =
    not (not (l.namespace == []) && not (l.namespace == w.namespace))
    && all (λ kv. elim (lookup kv.0 w.labels) [ none ↦ false | some got ↦ got == kv.1 ]) l.kv

unfoldable pub match : Option Set → Addr → Str → Bool
unfolding member
match none addr host = true
match (some s) addr host =
    s.any_entry
    || is_valid addr && (member addr s.addrs || any (λ p. contains p addr) s.prefixes)
    || not (host == [])
      && (member host s.hosts
          || any (λ suffix. ltb (length suffix) (length host) && has_suffix host suffix) s.suffixes)

abbrev workload_matches : Set → Workload → Bool
workload_matches s w =
    member w.namespace s.namespaces
    || member (w.namespace ++ lit "/" ++ w.service_account) s.sas
    || member w.spiffe_id s.spiffe && not (w.spiffe_id == [])
    || any (λ svc. member svc s.services) w.services
    || any (λ l. label_matches l w) s.labels

abbrev caller_matches : Set → Option Workload → Bool → Bool
caller_matches s none external_allowed = s.external && external_allowed
caller_matches s (some w) external_allowed =
    if not (is_pod (some w)) then false else workload_matches s w

unfoldable pub match_source : Option Set → Addr → Option Workload → Bool → Bool
unfolding match member label_matches is_pod
match_source none addr w external_allowed = true
match_source (some s) addr w external_allowed =
    if s.any_entry || match (some s) addr [] then true else caller_matches s w external_allowed

unfoldable pub match_destination : Option Set → Addr → Str → List Str → Bool
unfolding match member
match_destination none addr host services = true
match_destination (some s) addr host services =
    if s.any_entry || match (some s) addr host
    then true
    else any (λ svc. member svc s.services || member (cut b'/' svc).0 s.namespaces) services

unfoldable pub set_string : Option Set → Str
set_string none = []
set_string (some s) = join (lit ",") s.raw
