-- ===== src/Operator/Workloads.antt =====
-- What the operator's index answers (Lookup, ServiceByClusterIP, Service, Workloads, Services, Counts
-- and podWorkloadLocked of hyper-operator/internal/identity/index.go). `sort.Slice` on values without
-- equals is an insertion sort.
use hypergate_engine.Prelude.{
  ℕ, Bool, true, false, ◌&&◌, ◌||◌, List, [], ◌∷◌, ◌++◌, Option, none, some, if◌then◌else◌, ◌==◌,
  nat_eq, list_eq, ltb, length, is_some,
}
use hypergate_engine.Prelude.Text.{Str, lit}
use hypergate_engine.Prelude.Maps.{Map, lookup}
use hypergate_engine.Net.{Addr, v4, v6, invalid, unmap, addr_eq}
use hypergate_engine.Selector.Sets.{member}
use hypergate_engine.Operator.{ServiceRef, ref_eq, Service, PodRecord, CiliumRecord, Index}
use hypergate_engine.Operator.Strings.{above}
use hypergate_engine.Operator.Pods.{owner}
use hypergate_engine.Operator.Slices.{refs_of}

pub data Kind : Type 0 where
  pod node : Kind

pub record Workload : Type 0 where
  pub kind : Kind
  pub ip : Addr
  pub node : Str
  pub pod_uid : Str
  pub namespace : Str
  pub pod : Str
  pub service_account : Str
  pub spiffe_id : Str
  pub labels : Map Str Str
  pub services : List ServiceRef
  pub security_identity : ℕ
  pub cilium_labels : List Str

-- compareServiceRef(a, b) > 0.
unfoldable pub ref_above : ServiceRef → ServiceRef → Bool
unfolding above
ref_above a b = above a.namespace b.namespace || a.namespace == b.namespace && above a.name b.name

unfoldable pub insert_ref : ServiceRef → List ServiceRef → List ServiceRef
unfolding ref_above
insert_ref r [] = r ∷ []
insert_ref r (q ∷ qs) = let rest = insert_ref r qs in if ref_above r q then q ∷ rest else r ∷ q ∷ qs

-- The keys of a map to counts are added to the set, which is kept sorted.
unfoldable pub add_keys : Map ServiceRef ℕ → List ServiceRef → List ServiceRef
unfolding insert_ref member
add_keys [] out = out
add_keys ((r, n) ∷ refs) out = add_keys refs (if member r out then out else insert_ref r out)

abbrev security_of : Option CiliumRecord → ℕ
security_of none = 0
security_of (some c) = c.identity

abbrev cilium_labels_of : Option CiliumRecord → List Str
cilium_labels_of none = []
cilium_labels_of (some c) = c.labels

unfoldable pub pod_workload_locked : PodRecord → Addr → Index → Workload
unfolding add_keys lookup
pod_workload_locked p ip x =
    let sa = if p.service_account == [] then lit "default" else p.service_account in
    let c = lookup (record { namespace = p.namespace; name = p.name }) x.cilium in
    record {
      kind = pod;
      ip = ip;
      node = p.node;
      pod_uid = p.uid;
      namespace = p.namespace;
      pod = p.name;
      service_account = sa;
      spiffe_id =
          lit "spiffe://" ++ x.trust_domain ++ lit "/ns/" ++ p.namespace ++ lit "/sa/" ++ sa;
      labels = p.labels;
      services =
          add_keys (refs_of (lookup ip x.ip_services))
            (add_keys (refs_of (lookup p.uid x.pod_services)) []);
      security_identity = security_of c;
      cilium_labels = cilium_labels_of c;
    }

abbrev pub node_workload : Str → Addr → Workload
node_workload name ip = record {
  kind = node;
  ip = ip;
  node = name;
  pod_uid = [];
  namespace = [];
  pod = [];
  service_account = [];
  spiffe_id = [];
  labels = [];
  services = [];
  security_identity = 0;
  cilium_labels = [];
}

abbrev node_answer : Option Str → Addr → Option Workload
node_answer none ip = none
node_answer (some name) ip = some (node_workload name ip)

abbrev answer : Option PodRecord → Addr → Index → Option Workload
answer none ip x = node_answer (lookup ip x.node_ip) ip
answer (some p) ip x = some (pod_workload_locked p ip x)

unfoldable pub lookup_ip : Addr → Index → Option Workload
unfolding owner pod_workload_locked lookup unmap
lookup_ip a x = answer (owner (unmap a) x) (unmap a) x

abbrev service_behind : Option ServiceRef → Index → Option ServiceRef × Option Service
service_behind none x = (none, none)
service_behind (some ref) x = (some ref, lookup ref x.services)

-- The reference and the Service stored under it, of which the source reads the zero value where it is
-- missing.
unfoldable pub service_by_cluster_ip : Addr → Index → Option ServiceRef × Option Service
unfolding lookup unmap
service_by_cluster_ip a x = service_behind (lookup (unmap a) x.by_cluster_ip) x

unfoldable pub service : Str → Str → Index → Option Service
unfolding lookup
service namespace name x = lookup (record { namespace = namespace; name = name }) x.services

-- netip.Addr.Less(b, a).
abbrev addr_above : Addr → Addr → Bool
addr_above (v4 n) (v4 m) = ltb m n
addr_above (v6 n z) (v6 m y) = ltb m n || n == m && above z y
addr_above (v6 n z) _ = true
addr_above (v4 n) invalid = true
addr_above _ _ = false

unfoldable pub insert_workload : Workload → List Workload → List Workload
unfolding above
insert_workload w [] = w ∷ []
insert_workload w (v ∷ vs) =
    let rest = insert_workload w vs in if addr_above w.ip v.ip then v ∷ rest else w ∷ v ∷ vs

abbrev add_pod : Option PodRecord → Addr → Index → List Workload → List Workload
add_pod none ip x out = out
add_pod (some p) ip x out = insert_workload (pod_workload_locked p ip x) out

unfoldable pub pod_workloads : Map Addr (List Str) → Index → List Workload
unfolding owner pod_workload_locked insert_workload
pod_workloads [] x = []
pod_workloads ((ip, uids) ∷ m) x = add_pod (owner ip x) ip x (pod_workloads m x)

unfoldable pub node_workloads : Map Addr Str → Index → List Workload → List Workload
unfolding insert_workload lookup
node_workloads [] x out = out
node_workloads ((ip, name) ∷ m) x out =
    let rest = node_workloads m x out in
    if is_some (lookup ip x.claims) then rest else insert_workload (node_workload name ip) rest

unfoldable pub workloads : Index → List Workload
unfolding pod_workloads node_workloads
workloads x = node_workloads x.node_ip x (pod_workloads x.claims x)

abbrev pub named : Service → ServiceRef
named s = record { namespace = s.namespace; name = s.name }

unfoldable pub insert_service : Service → List Service → List Service
unfolding ref_above
insert_service s [] = s ∷ []
insert_service s (t ∷ ts) =
    let rest = insert_service s ts in if ref_above (named s) (named t) then t ∷ rest else s ∷ t ∷ ts

unfoldable pub sort_services : Map ServiceRef Service → List Service
unfolding insert_service
sort_services [] = []
sort_services ((ref, s) ∷ m) = insert_service s (sort_services m)

unfoldable pub services : Index → List Service
unfolding sort_services
services x = sort_services x.services

unfoldable pub counts : Index → ℕ × ℕ × ℕ
counts x = (length x.claims, length x.node_ip, length x.services)
