-- ===== src/Operator/Slices/Tally.antt =====
-- The reference counts are what the stored EndpointSlices contribute, so that removing a slice never
-- writes to a nil map (UpsertSlice, DeleteSlice and removeSliceLocked of
-- hyper-operator/internal/identity/index.go).
use hypergate_engine.Prelude.{
  ℕ, List, ltb, is_some, ◌||◌, ◌&&◌, ◌+◌, Bool, false, [], ◌∷◌, none, some, if◌then◌else◌, ◌==◌,
  eq_iff, eq_refl, nat_eq, list_eq, ◌≡◌, arith, refl, Option-cases, inl, inr, ap, if_ind,
}
use hypergate_engine.Prelude.Text.{Str}
use hypergate_engine.Prelude.Maps.{Map, lookup, insert, delete, lookup-delete}
use hypergate_engine.Net.{Addr, addr_eq}
use hypergate_engine.Selector.Sets.{member}
use hypergate_engine.Operator.{
  ServiceRef, ref_eq, Service, PodRecord, CiliumRecord, NodeRecord, SliceRecord, Index, bump,
  unique_addrs, unique_strings,
}
use hypergate_engine.Operator.Slices.{
  refs_of, service_of, key_of, remove_slice_locked, store_slice, upsert_slice, delete_slice,
}
use hypergate_engine.Operator.Slices.Refs.{
  count_at, times, count_at-add_refs, drop_refs-total, IsPositive, add_refs-IsPositive, ltb-times,
}

abbrev IsUnique : Map ServiceRef SliceRecord → Type 0
IsUnique [] = Unit
IsUnique ((k, s) ∷ m) = (lookup k m ≡ none) × IsUnique m

unfoldable pub tally : (SliceRecord → ℕ) → Map ServiceRef SliceRecord → ℕ
tally f [] = 0
tally f ((k, s) ∷ m) = f s + tally f m

delete-IsUnique :
    (k : ServiceRef) (m : Map ServiceRef SliceRecord) → IsUnique m → IsUnique (delete k m)
unfolding delete
delete-IsUnique k [] u = tt
delete-IsUnique k ((j, s) ∷ m) (new, u) =
    let rest = delete-IsUnique k m u in
    if_ind IsUnique (j == k) rest (ground (arith, lookup-delete k j m), rest)

delete-missing :
    (k : ServiceRef) (m : Map ServiceRef SliceRecord) → lookup k m ≡ none → delete k m ≡ m
unfolding delete lookup
delete-missing k [] h = refl
delete-missing k ((j, s) ∷ m) h = ground (arith, delete-missing k m)

tally-delete :
    (f : SliceRecord → ℕ) (k : ServiceRef) (m : Map ServiceRef SliceRecord) (s : SliceRecord)
    → IsUnique m
    → lookup k m ≡ some s
    → tally f (delete k m) + f s ≡ tally f m
unfolding tally delete lookup
tally-delete f k [] s u h = absurd (ground arith)
tally-delete f k ((j, t) ∷ m) s (new, u) h = ground (
  arith,
  tally-delete f k m s u,
  delete-missing k m,
  new,
  eq_iff j k,
  ap (λ i. lookup i m) {x = j} {y = k},
)

-- What a slice contributes to a pod's and to an address's count of a Service.
abbrev pod_weight : Str → ServiceRef → SliceRecord → ℕ
pod_weight uid r s = if service_of s == r then times uid s.pod_uids else 0

abbrev ip_weight : Addr → ServiceRef → SliceRecord → ℕ
ip_weight ip r s = if service_of s == r then times ip s.ips else 0

pub record IsCounted (x : Index) : Type 0 where
  pub unique : IsUnique x.slices
  pub by_pod :
      (uid : Str) (r : ServiceRef)
      → count_at uid r x.pod_services ≡ tally (pod_weight uid r) x.slices
  pub by_ip :
      (ip : Addr) (r : ServiceRef) → count_at ip r x.ip_services ≡ tally (ip_weight ip r) x.slices
  pub pods_positive : IsPositive x.pod_services
  pub ips_positive : IsPositive x.ip_services

remove_slice_locked-total :
    (key : ServiceRef) (x : Index)
    → IsCounted x
    → (y : Index) × (remove_slice_locked key x ≡ some y)
      × IsCounted y
      × (lookup key y.slices ≡ none)
unfolding remove_slice_locked
remove_slice_locked-total key x c = elim (Option-cases (lookup key x.slices)) [
  | inl e ↦ (x, rw e refl, c, e)
  | inr (old, e) ↦
      let ref = service_of old in
      let (by_pod, p, at_pod, pod_kept) = drop_refs-total old.pod_uids ref x.pod_services (λ k.
        ground (
          arith,
          c.by_pod k ref,
          tally-delete (pod_weight k ref) key x.slices old c.unique e,
          eq_refl ref,
        )) in
      let (by_ip, i, at_ip, ip_kept) = drop_refs-total old.ips ref x.ip_services (λ k. ground (
        arith,
        c.by_ip k ref,
        tally-delete (ip_weight k ref) key x.slices old c.unique e,
        eq_refl ref,
      )) in
      (
        record x { pod_services = by_pod; ip_services = by_ip; slices = delete key x.slices },
        rw e (rw p (rw i refl)),
        record {
          unique = delete-IsUnique key x.slices c.unique;
          by_pod = λ k r. ground (
            arith,
            at_pod k r,
            c.by_pod k r,
            tally-delete (pod_weight k r) key x.slices old c.unique e,
          );
          by_ip = λ k r. ground (
            arith,
            at_ip k r,
            c.by_ip k r,
            tally-delete (ip_weight k r) key x.slices old c.unique e,
          );
          pods_positive = pod_kept c.pods_positive;
          ips_positive = ip_kept c.ips_positive;
        },
        ground (arith, lookup-delete key key x.slices, eq_refl key),
      )
]

store_slice-IsCounted :
    (s : SliceRecord) (x : Index)
    → IsCounted x
    → lookup (key_of s) x.slices ≡ none
    → IsCounted (store_slice s x)
unfolding store_slice tally insert
store_slice-IsCounted s x c free =
    let uids = unique_strings s.pod_uids in
    let ips = unique_addrs s.ips in
    let same = delete-missing (key_of s) x.slices free in
    record {
      unique = (rw same free, delete-IsUnique (key_of s) x.slices c.unique);
      by_pod = λ k r. ground (
        arith,
        same,
        count_at-add_refs uids (service_of s) x.pod_services k r,
        c.by_pod k r,
        ap (tally (pod_weight k r)) same,
      );
      by_ip = λ k r. ground (
        arith,
        same,
        count_at-add_refs ips (service_of s) x.ip_services k r,
        c.by_ip k r,
        ap (tally (ip_weight k r)) same,
      );
      pods_positive = add_refs-IsPositive uids (service_of s) x.pod_services c.pods_positive;
      ips_positive = add_refs-IsPositive ips (service_of s) x.ip_services c.ips_positive;
    }

-- Only the slices and the counts matter.
pub recounted :
    {x : Index} {pods : Map Str PodRecord} {claims : Map Addr (List Str)}
    {services : Map ServiceRef Service} {by_cluster_ip : Map Addr ServiceRef}
    {cilium : Map ServiceRef CiliumRecord} {nodes : Map Str NodeRecord} {node_ip : Map Addr Str}
    {generation : ℕ} {changed : Bool}
    → IsCounted x
    → IsCounted (record x {
      pods = pods;
      claims = claims;
      services = services;
      by_cluster_ip = by_cluster_ip;
      cilium = cilium;
      nodes = nodes;
      node_ip = node_ip;
      generation = generation;
      changed = changed;
    })
recounted d = record {
  unique = d.unique;
  by_pod = d.by_pod;
  by_ip = d.by_ip;
  pods_positive = d.pods_positive;
  ips_positive = d.ips_positive;
}

pub upsert_slice-total :
    (s : SliceRecord) (x : Index)
    → IsCounted x
    → (y : Index) × (upsert_slice s x ≡ some y) × IsCounted y
unfolding upsert_slice
upsert_slice-total s x c =
    let (y, e, d, free) = remove_slice_locked-total (key_of s) x c in
    (
      (if s.service == [] then bump y else bump (store_slice s y)),
      rw e refl,
      if_ind IsCounted (s.service == []) (recounted d)
          (let t = store_slice-IsCounted s y d free in recounted t),
    )

pub delete_slice-total :
    (namespace name : Str) (x : Index)
    → IsCounted x
    → (y : Index) × (delete_slice namespace name x ≡ some y) × IsCounted y
unfolding delete_slice
delete_slice-total namespace name x c =
    let (y, e, d, free) =
      remove_slice_locked-total (record { namespace = namespace; name = name }) x c in
    (bump y, rw e refl, recounted d)

-- The slice adds its Service to what the index says of the pod or the address.
abbrev pub contributes : Str → Addr → ServiceRef → SliceRecord → Bool
contributes uid ip r s = service_of s == r && (member uid s.pod_uids || member ip s.ips)

abbrev pub contributed : Str → Addr → ServiceRef → Map ServiceRef SliceRecord → Bool
contributed uid ip r [] = false
contributed uid ip r ((k, s) ∷ m) = contributes uid ip r s || contributed uid ip r m

pub ltb-tally :
    (uid : Str) (ip : Addr) (r : ServiceRef) (m : Map ServiceRef SliceRecord)
    → (ltb 0 (tally (pod_weight uid r) m) || ltb 0 (tally (ip_weight ip r) m))
      ≡ contributed uid ip r m
unfolding tally
ltb-tally uid ip r [] = refl
ltb-tally uid ip r ((k, s) ∷ m) =
    ground (arith, ltb-tally uid ip r m, ltb-times uid s.pod_uids, ltb-times ip s.ips)

pub contributed-IsCounted :
    (x : Index)
    → IsCounted x
    → (uid : Str) (ip : Addr) (r : ServiceRef)
    → (is_some (lookup r (refs_of (lookup uid x.pod_services)))
        || is_some (lookup r (refs_of (lookup ip x.ip_services))))
      ≡ contributed uid ip r x.slices
contributed-IsCounted x c uid ip r = ground (
  arith,
  c.pods_positive uid r,
  c.ips_positive ip r,
  c.by_pod uid r,
  c.by_ip ip r,
  ltb-tally uid ip r x.slices,
)
