-- ===== src/Operator/Lookups.antt =====
-- What a lookup in the operator's index returns (Lookup, ServiceByClusterIP and podWorkloadLocked of
-- hyper-operator/internal/identity/index.go).
use hypergate_engine.Prelude.{
  ℕ, true, ◌||◌, List, [], ◌∷◌, Option, some, ◌==◌, eq_iff, nat_eq, list_eq, ◌≡◌, arith, refl,
  is_some, Option-cases, inl, inr, ap,
}
use hypergate_engine.Prelude.Maps.{Map, lookup}
use hypergate_engine.Net.{Addr, unmap, addr_eq}
use hypergate_engine.Selector.Sets.{member}
use hypergate_engine.Operator.{ServiceRef, ref_eq, PodRecord, Index, Service}
use hypergate_engine.Operator.Pods.Owner.{IsLatest, owner-iff_IsLatest}
use hypergate_engine.Operator.Slices.{refs_of}
use hypergate_engine.Operator.Slices.Tally.{contributed, contributed-IsCounted}
use hypergate_engine.Operator.Histories.{IsConsistent}
use hypergate_engine.Operator.Workloads.{
  insert_ref, add_keys, pod_workload_locked, lookup_ip, service_by_cluster_ip,
}

member-insert_ref :
    (a r : ServiceRef) (qs : List ServiceRef) → member a (insert_ref r qs) ≡ (a == r || member a qs)
unfolding member insert_ref
member-insert_ref a r [] = refl
member-insert_ref a r (q ∷ qs) = ground (arith, member-insert_ref a r qs)

member-add_keys :
    (a : ServiceRef) (refs : Map ServiceRef ℕ) (out : List ServiceRef)
    → member a (add_keys refs out) ≡ (is_some (lookup a refs) || member a out)
unfolding add_keys lookup
member-add_keys a [] out = refl
member-add_keys a ((r, n) ∷ refs) out = ground (
  arith,
  member-add_keys a refs out,
  member-add_keys a refs (insert_ref r out),
  member-insert_ref a r out,
  eq_iff a r,
  eq_iff r a,
  ap (λ k. member k out) {x = a} {y = r},
)

-- In a consistent index a pod's workload lists a Service exactly where a stored slice of that Service
-- has the pod or the address as an endpoint.
pub services-pod_workload :
    (x : Index)
    → IsConsistent x
    → (p : PodRecord) (ip : Addr) (r : ServiceRef)
    → member r (pod_workload_locked p ip x).services ≡ contributed p.uid ip r x.slices
unfolding pod_workload_locked member
services-pod_workload x c p ip r = ground (
  arith,
  member-add_keys r (refs_of (lookup ip x.ip_services))
      (add_keys (refs_of (lookup p.uid x.pod_services)) []),
  member-add_keys r (refs_of (lookup p.uid x.pod_services)) [],
  contributed-IsCounted x c.counted p.uid ip r,
)

-- In a consistent index the latest of the pods that have an address answers for it.
pub lookup_ip-IsLatest :
    (x : Index)
    → IsConsistent x
    → (a : Addr) (p : PodRecord) → IsLatest (unmap a) x p
    → lookup_ip a x ≡ some (pod_workload_locked p (unmap a) x)
unfolding lookup_ip
lookup_ip-IsLatest x c a p h = rw ((owner-iff_IsLatest x c.claimed (unmap a) p).1 h) refl

-- In a consistent index a cluster IP that is found leads to a stored Service that lists it.
pub service_by_cluster_ip-found :
    (x : Index)
    → IsConsistent x
    → (a : Addr) (r : ServiceRef) (o : Option Service) → service_by_cluster_ip a x ≡ (some r, o)
    → (s : Service) × (o ≡ some s) × (member (unmap a) s.cluster_ips ≡ true)
unfolding service_by_cluster_ip
service_by_cluster_ip-found x c a r o h = elim (Option-cases (lookup (unmap a) x.by_cluster_ip)) [
  | inl e ↦ absurd (ground (arith, h, e))
  | inr (q, e) ↦ elim (Option-cases (lookup q x.services)) [
    | inl f ↦ absurd (ground (arith, c.backed.0 (unmap a) q e, f))
    | inr (s, f) ↦ (s, ground (arith, h, e, f), ground (arith, c.backed.0 (unmap a) q e, f))
  ]
]
