-- ===== src/Operator/Pods/Claims.antt =====
-- The claims of pods on addresses (the field `claims` of hyper-operator/internal/identity/index.go).
use hypergate_engine.Prelude.{
  ℕ, Bool, false, ◌&&◌, ◌||◌, List, [], ◌∷◌, ◌++◌, Option, none, some, if◌then◌else◌, ◌==◌, eq_iff,
  nat_eq, list_eq, ◌≡◌, arith, Option-cases, inl, inr, ap, eq_refl, if_ind,
}
use hypergate_engine.Prelude.Text.{Str}
use hypergate_engine.Prelude.Maps.{Map, lookup, insert, lookup-insert, lookup-delete}
use hypergate_engine.Net.{Addr, addr_eq}
use hypergate_engine.Selector.Sets.{member}
use hypergate_engine.Operator.{
  Service, ServiceRef, CiliumRecord, NodeRecord, SliceRecord, PodRecord, Index, unique_addrs,
  filter_labels,
}
use hypergate_engine.Operator.Pods.{
  uids_of, without, put_claims, drop_claims, add_claims, remove_pod_locked, store_pod, upsert_pod,
  delete_pod,
}

abbrev pub has_ip : Addr → Option PodRecord → Bool
has_ip ip none = false
has_ip ip (some p) = member ip p.ips

abbrev pub claimants : Addr → Map Addr (List Str) → List Str
claimants ip m = uids_of (lookup ip m)

pub record IsClaimed (x : Index) : Type 0 where
  -- the claimants of an address are the stored pods that have it
  pub claimed :
      (ip : Addr) (uid : Str) → member uid (claimants ip x.claims) ≡ has_ip ip (lookup uid x.pods)
  -- and a pod is stored under its UID
  pub named : (uid : Str) (p : PodRecord) → lookup uid x.pods ≡ some p → p.uid ≡ uid

-- Only the pods and the claims matter.
pub reclaimed :
    {x : Index} {slices : Map ServiceRef SliceRecord} {pod_services : Map Str (Map ServiceRef ℕ)}
    {ip_services : Map Addr (Map ServiceRef ℕ)} {services : Map ServiceRef Service}
    {by_cluster_ip : Map Addr ServiceRef} {cilium : Map ServiceRef CiliumRecord}
    {nodes : Map Str NodeRecord} {node_ip : Map Addr Str} {generation : ℕ} {changed : Bool}
    → IsClaimed x
    → IsClaimed (record x {
      slices = slices;
      pod_services = pod_services;
      ip_services = ip_services;
      services = services;
      by_cluster_ip = by_cluster_ip;
      cilium = cilium;
      nodes = nodes;
      node_ip = node_ip;
      generation = generation;
      changed = changed;
    })
reclaimed c = record { claimed = c.claimed; named = c.named }

member-without :
    (u uid : Str) (us : List Str)
    → member u (without uid us) ≡ (if uid == u then false else member u us)
unfolding member without
member-without u uid [] = ground arith
member-without u uid (v ∷ us) =
    ground (arith, member-without u uid us, eq_iff v uid, eq_iff u v, eq_iff uid u)

member-append : (u v : Str) (us : List Str) → member u (us ++ v ∷ []) ≡ (member u us || u == v)
unfolding member
member-append u v [] = ground arith
member-append u v (w ∷ us) = ground (arith, member-append u v us)

claimants-put_claims :
    (ip q : Addr) (us : List Str) (m : Map Addr (List Str))
    → claimants ip (put_claims q us m) ≡ (if q == ip then us else claimants ip m)
claimants-put_claims ip q [] m = ground (arith, lookup-delete q ip m)
claimants-put_claims ip q (u ∷ us) m = ground (arith, lookup-insert q ip (u ∷ us) m)

member-drop_claims :
    (u uid : Str) (ips : List Addr) (m : Map Addr (List Str)) (ip : Addr)
    → member u (claimants ip (drop_claims uid ips m))
      ≡ (if uid == u && member ip ips then false else member u (claimants ip m))
unfolding drop_claims member
member-drop_claims u uid [] m ip = ground arith
member-drop_claims u uid (q ∷ ips) m ip =
    let us = without uid (claimants q m) in
    ground (
      arith,
      member-drop_claims u uid ips (put_claims q us m) ip,
      claimants-put_claims ip q us m,
      member-without u uid (claimants q m),
      eq_iff q ip,
      eq_iff ip q,
    )

member-add_claims :
    (u uid : Str) (ips : List Addr) (m : Map Addr (List Str)) (ip : Addr)
    → member u (claimants ip (add_claims uid ips m))
      ≡ (member u (claimants ip m) || u == uid && member ip ips)
unfolding add_claims member
member-add_claims u uid [] m ip = ground arith
member-add_claims u uid (q ∷ ips) m ip =
    let us = claimants q m in
    ground (
      arith,
      member-add_claims u uid ips (insert q (us ++ uid ∷ []) m) ip,
      lookup-insert q ip (us ++ uid ∷ []) m,
      member-append u uid us,
      eq_iff q ip,
      eq_iff ip q,
    )

module _ (uid : Str) (x : Index) (c : IsClaimed x) where
  pub pods-remove_pod :
      (u : Str)
      → lookup u (remove_pod_locked uid x).pods ≡ (if uid == u then none else lookup u x.pods)
  unfolding remove_pod_locked
  pods-remove_pod u =
      ground (
        arith,
        lookup-delete uid u x.pods,
        eq_iff uid u,
        ap (λ k. lookup k x.pods) {x = uid} {y = u},
      )

  remove_pod-claimed :
      (ip : Addr) (u : Str)
      → member u (claimants ip (remove_pod_locked uid x).claims)
        ≡ (if uid == u then false else member u (claimants ip x.claims))
  unfolding remove_pod_locked
  remove_pod-claimed ip u = elim (Option-cases (lookup uid x.pods)) [
    | inl e ↦ rw e (
        ground (
          arith,
          c.claimed ip u,
          eq_iff uid u,
          e,
          ap (λ k. has_ip ip (lookup k x.pods)) {x = uid} {y = u},
        ))
    | inr (old, e) ↦ rw e (
        ground (
          arith,
          member-drop_claims u uid old.ips x.claims ip,
          c.claimed ip u,
          e,
          eq_iff uid u,
          ap (λ k. has_ip ip (lookup k x.pods)) {x = uid} {y = u},
        ))
  ]

  pub remove_pod_locked-IsClaimed : IsClaimed (remove_pod_locked uid x)
  remove_pod_locked-IsClaimed = record {
    claimed = λ ip u. ground (arith, remove_pod-claimed ip u, pods-remove_pod u, c.claimed ip u);
    named = λ u p h. c.named u p (ground (arith, pods-remove_pod u));
  }

  -- A removed pod is gone.
  pub pods-removed : lookup uid (remove_pod_locked uid x).pods ≡ none
  pods-removed = ground (arith, pods-remove_pod uid, eq_refl uid)

store_pod-IsClaimed :
    (p : PodRecord) (x : Index)
    → IsClaimed x
    → lookup p.uid x.pods ≡ none
    → IsClaimed (store_pod p x)
unfolding store_pod
store_pod-IsClaimed p x c free =
    let ips = unique_addrs p.ips in
    let rec : PodRecord = record p { ips = ips; labels = filter_labels p.labels x } in
    record {
      claimed = λ ip u. ground (
        arith,
        member-add_claims u p.uid ips x.claims ip,
        lookup-insert p.uid u rec x.pods,
        c.claimed ip u,
        free,
        eq_iff u p.uid,
        eq_iff p.uid u,
        ap (λ k. has_ip ip (lookup k x.pods)) {x = p.uid} {y = u},
      );
      named =
          λ u q h. ground (arith, lookup-insert p.uid u rec x.pods, c.named u q, eq_iff p.uid u);
    }

pub upsert_pod-IsClaimed : (p : PodRecord) (x : Index) → IsClaimed x → IsClaimed (upsert_pod p x)
unfolding upsert_pod
upsert_pod-IsClaimed p x c =
    let y = remove_pod_locked p.uid x in
    let d = remove_pod_locked-IsClaimed p.uid x c in
    if_ind IsClaimed (p.host_network || p.finished || p.uid == []) (reclaimed d)
      (let s = store_pod-IsClaimed p y d (pods-removed p.uid x c) in (reclaimed s))

pub delete_pod-IsClaimed : (uid : Str) (x : Index) → IsClaimed x → IsClaimed (delete_pod uid x)
unfolding delete_pod
delete_pod-IsClaimed uid x c = let d = remove_pod_locked-IsClaimed uid x c in (reclaimed d)
