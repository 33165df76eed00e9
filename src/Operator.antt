-- ===== src/Operator.antt =====
-- The operator's identity index (Index of hyper-operator/internal/identity/index.go): its records, its
-- state and the loops that its operations share. A time is its number of nanoseconds; the lock is left
-- out, since every operation runs under it.
pub mod Strings
pub mod Ownership
pub mod Pods
pub mod Services
pub mod Slices
pub mod Workloads
pub mod Frames
pub mod Histories
pub mod Lookups
pub mod Routes
use hypergate_engine.Prelude.{
  ℕ, zero, suc, ◌+◌, ◌%◌, ◌^◌, Bool, true, false, ◌&&◌, ◌||◌, not, List, [], ◌∷◌, ◌++◌, Option,
  none, some, if◌then◌else◌, ◌==◌, Eq, eq_iff, nat_eq, list_eq, ◌≡◌, ◌↔◌, arith,
}
use hypergate_engine.Prelude.Text.{Str, lit}
use hypergate_engine.Prelude.Maps.{Map, insert}
use hypergate_engine.Net.{Addr, unmap, addr_eq, is_valid}
use hypergate_engine.Selector.Sets.{member}

pub record ServiceRef : Type 0 where
  pub namespace : Str
  pub name : Str

unfoldable pub ref_beq : ServiceRef → ServiceRef → Bool
ref_beq a b = a.namespace == b.namespace && a.name == b.name

pub ref_beq_iff : (a b : ServiceRef) → (ref_beq a b ≡ true) ↔ (a ≡ b)
unfolding ref_beq
ref_beq_iff a b = ground (arith, eq_iff a.namespace b.namespace, eq_iff a.name b.name)

instance abbrev pub ref_eq : Eq ServiceRef
ref_eq = record { same = ref_beq; same_iff = ref_beq_iff }

pub record Service : Type 0 where
  pub namespace : Str
  pub name : Str
  pub cluster_ips : List Addr
  pub ports : List ℕ

pub record PodRecord : Type 0 where
  pub uid : Str
  pub namespace : Str
  pub name : Str
  pub service_account : Str
  pub node : Str
  pub labels : Map Str Str
  pub ips : List Addr
  pub host_network : Bool
  pub finished : Bool
  pub created : ℕ

pub record SliceRecord : Type 0 where
  pub namespace : Str
  pub name : Str
  pub service : Str
  pub pod_uids : List Str
  pub ips : List Addr

pub record CiliumRecord : Type 0 where
  pub namespace : Str
  pub name : Str
  pub identity : ℕ
  pub labels : List Str

pub record NodeRecord : Type 0 where
  pub name : Str
  pub ips : List Addr

pub record Options : Type 0 where
  pub trust_domain : Str
  pub label_keys : List Str

-- The pairs sliceKey and nsName are ServiceRef again: a namespace and a name.
pub record Index : Type 0 where
  pub trust_domain : Str
  pub label_keys : List Str
  pub pods : Map Str PodRecord
  pub claims : Map Addr (List Str)
  pub slices : Map ServiceRef SliceRecord
  pub pod_services : Map Str (Map ServiceRef ℕ)
  pub ip_services : Map Addr (Map ServiceRef ℕ)
  pub services : Map ServiceRef Service
  pub by_cluster_ip : Map Addr ServiceRef
  pub cilium : Map ServiceRef CiliumRecord
  pub nodes : Map Str NodeRecord
  pub node_ip : Map Addr Str
  pub generation : ℕ
  -- whether the channel holds a value
  pub changed : Bool

abbrev default_label_keys : List Str
default_label_keys =
    lit "app"
    ∷ lit "version"
    ∷ lit "app.kubernetes.io/name"
    ∷ lit "app.kubernetes.io/instance"
    ∷ lit "app.kubernetes.io/component"
    ∷ lit "app.kubernetes.io/version"
    ∷ []

unfoldable pub new_index : Options → Index
new_index opts = record {
  trust_domain = if opts.trust_domain == [] then lit "cluster.local" else opts.trust_domain;
  label_keys = if opts.label_keys == [] then default_label_keys else opts.label_keys;
  pods = [];
  claims = [];
  slices = [];
  pod_services = [];
  ip_services = [];
  services = [];
  by_cluster_ip = [];
  cilium = [];
  nodes = [];
  node_ip = [];
  generation = 0;
  changed = false;
}

abbrev pub bump : Index → Index
bump x = record x { generation = (x.generation + 1) % 2 ^ 64; changed = true }

unfoldable pub label_allowed : Str → Index → Bool
unfolding member
label_allowed key x = member key x.label_keys

unfoldable pub filter_labels : Map Str Str → Index → Map Str Str
unfolding label_allowed
filter_labels [] x = []
filter_labels ((k, v) ∷ m) x =
    let rest = filter_labels m x in if label_allowed k x then (k, v) ∷ rest else rest

-- The loops of uniqueAddrs and uniqueStrings, on what they have collected.
unfoldable pub collect_addrs : List Addr → List Addr → List Addr
unfolding member
collect_addrs [] out = out
collect_addrs (a ∷ rest) out =
    collect_addrs rest
      (if not (is_valid a) || member (unmap a) out then out else out ++ unmap a ∷ [])

abbrev pub unique_addrs : List Addr → List Addr
unique_addrs ips = collect_addrs ips []

unfoldable pub collect_strings : List Str → List Str → List Str
unfolding member
collect_strings [] out = out
collect_strings (s ∷ ss) out =
    collect_strings ss (if s == [] || member s out then out else out ++ s ∷ [])

abbrev pub unique_strings : List Str → List Str
unique_strings ss = collect_strings ss []
