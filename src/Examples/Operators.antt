-- ===== src/Examples/Operators.antt =====
-- Two pods that had one address, and a slice of the Service in front of them.
use hypergate_engine.Prelude.{
  ℕ, [], ◌∷◌, some, false, List, ◌≡◌, ◌↔◌, refl, list_beq, nat_eq, list_eq, eq_false_ne,
}
use hypergate_engine.Prelude.Text.{lit}
use hypergate_engine.Prelude.Maps.{lookup, insert, delete}
use hypergate_engine.Net.{Addr, v4, unmap, addr_beq}
use hypergate_engine.Selector.Sets.{member}
use hypergate_engine.Operator.{
  ServiceRef, ref_eq, PodRecord, SliceRecord, Options, Index, new_index, collect_addrs,
  filter_labels,
}
use hypergate_engine.Operator.Strings.{above}
use hypergate_engine.Operator.Pods.{
  without, drop_claims, add_claims, remove_pod_locked, store_pod, upsert_pod, delete_pod, best_of,
  owner,
}
use hypergate_engine.Operator.Pods.Claims.{IsClaimed, upsert_pod-IsClaimed}
use hypergate_engine.Operator.Pods.Owner.{IsLatest, owner-iff_IsLatest, owner-delete_pod}
use hypergate_engine.Operator.Slices.Tally.{contributed}
use hypergate_engine.Operator.Workloads.{pod_workload_locked}
use hypergate_engine.Operator.Histories.{
  Update, put_pod, drop_pod, put_slice, run, IsConsistent, new_index-IsConsistent, run-IsConsistent,
}
use hypergate_engine.Operator.Lookups.{services-pod_workload}

abbrev shared_ip : Addr
shared_ip = v4 167772161

abbrev pod_at : ℕ → ℕ → PodRecord
pod_at id time = record {
  uid = id ∷ [];
  namespace = lit "shop";
  name = lit "web";
  service_account = [];
  node = lit "n1";
  labels = [];
  ips = shared_ip ∷ [];
  host_network = false;
  finished = false;
  created = time;
}

abbrev old_pod : PodRecord
old_pod = pod_at 97 5

abbrev new_pod : PodRecord
new_pod = pod_at 98 7

abbrev web_slice : SliceRecord
web_slice = record {
  namespace = lit "shop";
  name = lit "web-1";
  service = lit "web";
  pod_uids = (98 ∷ []) ∷ [];
  ips = [];
}

abbrev no_options : Options
no_options = record { trust_domain = []; label_keys = [] }

-- The new pod came before the delete of the old one.
abbrev reused : Index
reused = upsert_pod new_pod (upsert_pod old_pod (new_index no_options))

reused-IsClaimed : IsClaimed reused
reused-IsClaimed = upsert_pod-IsClaimed new_pod (upsert_pod old_pod (new_index no_options)) (
    upsert_pod-IsClaimed old_pod (new_index no_options) (new_index-IsConsistent no_options).claimed)

owner-reused : owner shared_ip reused ≡ some new_pod
unfolding owner best_of upsert_pod store_pod remove_pod_locked drop_claims add_claims new_index
    filter_labels collect_addrs lookup insert delete without member list_beq addr_beq unmap above
owner-reused = refl

owner-iff_IsLatest_example :
    (owner shared_ip reused ≡ some new_pod) ↔ IsLatest shared_ip reused new_pod
owner-iff_IsLatest_example = owner-iff_IsLatest reused reused-IsClaimed shared_ip new_pod

owner-delete_pod_example : owner shared_ip (delete_pod (97 ∷ []) reused) ≡ some new_pod
unfolding list_beq
owner-delete_pod_example =
    owner-delete_pod reused reused-IsClaimed shared_ip (97 ∷ []) new_pod owner-reused
      (eq_false_ne (98 ∷ []) (97 ∷ []) refl)

abbrev history_of_reuse : List Update
history_of_reuse =
    put_pod old_pod
    ∷ put_slice web_slice
    ∷ put_pod new_pod
    ∷ put_slice web_slice
    ∷ drop_pod (97 ∷ [])
    ∷ []

run-IsConsistent_example :
    (y : Index) × (run history_of_reuse (new_index no_options) ≡ some y) × IsConsistent y
run-IsConsistent_example = run-IsConsistent no_options history_of_reuse

abbrev after_reuse : Index
after_reuse = (run-IsConsistent no_options history_of_reuse).0

abbrev web_ref : ServiceRef
web_ref = record { namespace = lit "shop"; name = lit "web" }

services-pod_workload_example :
    member web_ref (pod_workload_locked new_pod shared_ip after_reuse).services
    ≡ contributed (98 ∷ []) shared_ip web_ref after_reuse.slices
services-pod_workload_example =
    services-pod_workload after_reuse (run-IsConsistent no_options history_of_reuse).2 new_pod
      shared_ip web_ref
