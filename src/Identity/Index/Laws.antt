-- ===== src/Identity/Index/Laws.antt =====
-- The cluster IPs of the index across updates (applyServices of internal/identity/index.go).
use hypergate_engine.Prelude.{
  ℕ, ◌<◌, Bool, true, false, ◌&&◌, List, [], ◌∷◌, Option, none, some, if◌then◌else◌, ◌==◌, eq_iff,
  eq_refl, nat_eq, list_eq, ◌≡◌, ◌≢◌, inl, inr, refl, ap, sym, subst, arith, Option-cases,
  Bool-cases,
}
use hypergate_engine.Prelude.Text.{Str}
use hypergate_engine.Prelude.Maps.{Map, lookup, insert, delete, lookup-insert, lookup-delete}
use hypergate_engine.Net.{Addr, addr_eq}
use hypergate_engine.Identity.Workload.{Service}
use hypergate_engine.Selector.Sets.{member}
use hypergate_engine.Identity.Index.{
  ServiceRef, Index, Versioned, drop_ips, own_ips, drop_service_locked, store_service,
  remove_services, store_services, apply_services,
}

pub record IsBacked (x : Index) : Type 0 where
  -- a cluster IP leads to a Service that is stored
  pub backed :
      (ip : Addr) (r : ServiceRef)
      → lookup ip x.by_cluster_ip ≡ some r
      → (name : Str) × (lookup name x.services ≡ some r)
  -- and that has this IP
  pub owned :
      (ip : Addr) (r : ServiceRef)
      → lookup ip x.by_cluster_ip ≡ some r
      → member ip r.service.cluster_ips ≡ true
  -- no pointer is stored under two names
  pub distinct :
      (n m : Str) (r s : ServiceRef)
      → lookup n x.services ≡ some r
      → lookup m x.services ≡ some s
      → r.id ≡ s.id
      → n ≡ m
  pub fresh : (n : Str) (r : ServiceRef) → lookup n x.services ≡ some r → r.id < x.next_id

abbrev points_to : ℕ → Option ServiceRef → Bool
points_to id none = false
points_to id (some r) = r.id == id

lookup-drop_ips :
    (id : ℕ) (ips : List Addr) (m : Map Addr ServiceRef) (ip : Addr)
    → lookup ip (drop_ips id ips m)
      ≡ (if points_to id (lookup ip m) && member ip ips then none else lookup ip m)
unfolding drop_ips member
lookup-drop_ips id [] m ip = ground arith
lookup-drop_ips id (q ∷ ips) m ip = ground (
  arith,
  lookup-drop_ips id ips (delete q m) ip,
  lookup-drop_ips id ips m ip,
  lookup-delete q ip m,
  eq_iff q ip,
  eq_iff ip q,
)

lookup-own_ips :
    (r : ServiceRef) (ips : List Addr) (m : Map Addr ServiceRef) (ip : Addr)
    → lookup ip (own_ips r ips m) ≡ (if member ip ips then some r else lookup ip m)
unfolding own_ips member
lookup-own_ips r [] m ip = refl
lookup-own_ips r (q ∷ ips) m ip = ground (
  arith,
  lookup-own_ips r ips (insert q r m) ip,
  lookup-insert q ip r m,
  eq_iff q ip,
  eq_iff ip q,
)

-- What is left of the index when a stored Service is dropped.
module _ (x : Index) (b : IsBacked x) (name : Str) (old : ServiceRef)
    (stored : lookup name x.services ≡ some old) where
  drop-split :
      (ip : Addr) (r : ServiceRef)
      → lookup ip (drop_service_locked name x).by_cluster_ip ≡ some r
      → (lookup ip x.by_cluster_ip ≡ some r)
        × ((r.id == old.id) && member ip old.service.cluster_ips ≡ false)
  unfolding drop_service_locked
  drop-split ip r h =
      ground (arith, lookup-drop_ips old.id old.service.cluster_ips x.by_cluster_ip ip)

  -- Two Services with one pointer are one.
  same_ref : (m : Str) (r : ServiceRef) → lookup m x.services ≡ some r → r.id ≡ old.id → r ≡ old
  same_ref m r e q =
      let at : m ≡ name = b.distinct m name r old e stored q in
      ground (arith, ap (λ k. lookup k x.services) at)

  drop-ne :
      (ip : Addr) (r : ServiceRef)
      → lookup ip (drop_service_locked name x).by_cluster_ip ≡ some r
      → r.id ≢ old.id
  drop-ne ip r h same =
      let (found, away) = drop-split ip r h in
      let (m, e) = b.backed ip r found in
      let eq = same_ref m r e same in ground (arith, b.owned ip r found, eq)

  drop-backed :
      (ip : Addr) (r : ServiceRef)
      → lookup ip (drop_service_locked name x).by_cluster_ip ≡ some r
      → (m : Str) × (lookup m (drop_service_locked name x).services ≡ some r)
  unfolding drop_service_locked
  drop-backed ip r h =
      let (found, away) = drop-split ip r h in
      let ne = drop-ne ip r h in
      let (m, e) = b.backed ip r found in
      (
        m,
        ground (
          arith,
          lookup-delete name m x.services,
          eq_iff name m,
          ap (λ k. lookup k x.services) {x = name} {y = m},
        ),
      )

services-drop :
    (name : Str) (x : Index) (j : Str)
    → lookup j (drop_service_locked name x).services
      ≡ (if name == j then none else lookup j x.services)
unfolding drop_service_locked
services-drop name x j = ground (
  arith,
  lookup-delete name j x.services,
  eq_iff name j,
  ap (λ k. lookup k x.services) {x = name} {y = j},
)

next_id-drop : (name : Str) (x : Index) → (drop_service_locked name x).next_id ≡ x.next_id
unfolding drop_service_locked
next_id-drop name x = ground arith

by_cluster_ip-drop_none :
    (name : Str) (x : Index) → lookup name x.services ≡ none → drop_service_locked name x ≡ x
unfolding drop_service_locked
by_cluster_ip-drop_none name x h = rw h refl

pub drop_service_locked-IsBacked :
    (name : Str) (x : Index) → IsBacked x → IsBacked (drop_service_locked name x)
drop_service_locked-IsBacked name x b = elim (Option-cases (lookup name x.services)) [
  | inl e ↦ subst IsBacked (sym (by_cluster_ip-drop_none name x e)) b
  | inr (old, e) ↦ record {
    backed = drop-backed x b name old e;
    owned = λ ip r h. b.owned ip r (drop-split x b name old e ip r h).0;
    distinct = λ n m r s hn hm same.
        b.distinct n m r s (ground (arith, services-drop name x n))
          (ground (arith, services-drop name x m)) same;
    fresh = λ n r h. ground (arith, next_id-drop name x, b.fresh n r, services-drop name x n);
  }
]

pub store_service-IsBacked :
    (name : Str) (v : Versioned Service) (x : Index)
    → IsBacked x
    → IsBacked (store_service name v x)
unfolding store_service
store_service-IsBacked name v x b =
    let y = drop_service_locked name x in
    let c = drop_service_locked-IsBacked name x b in
    let new : ServiceRef = record { id = y.next_id; service = v.res } in
    record {
      backed = λ ip r h. elim (Bool-cases (member ip v.res.cluster_ips)) [
        | inl mine ↦ (
          name,
          ground (
            arith,
            mine,
            lookup-own_ips new v.res.cluster_ips y.by_cluster_ip ip,
            eq_refl name,
            lookup-insert name name new y.services,
          ),
        )
        | inr other ↦
            let found : lookup ip y.by_cluster_ip ≡ some r =
              ground (arith, other, lookup-own_ips new v.res.cluster_ips y.by_cluster_ip ip) in
            let (m, e) = c.backed ip r found in
            (m, ground (arith, e, lookup-insert name m new y.services, services-drop name x m))
      ];
      owned = λ ip r h.
          ground (arith, c.owned ip r, lookup-own_ips new v.res.cluster_ips y.by_cluster_ip ip);
      distinct = λ n m r s hn hm same. ground (
        arith,
        c.distinct n m r s,
        c.fresh n r,
        c.fresh m s,
        lookup-insert name n new y.services,
        lookup-insert name m new y.services,
        eq_iff name n,
        eq_iff name m,
      );
      fresh = λ n r h. ground (arith, c.fresh n r, lookup-insert name n new y.services);
    }

remove_services-IsBacked :
    (names : List Str) (x : Index) → IsBacked x → IsBacked (remove_services names x)
unfolding remove_services
remove_services-IsBacked [] x b = b
remove_services-IsBacked (name ∷ names) x b =
    let y = drop_service_locked name x in
    let c = drop_service_locked-IsBacked name x b in
    remove_services-IsBacked names (record y { service_versions = delete name y.service_versions })
      (record { backed = c.backed; owned = c.owned; distinct = c.distinct; fresh = c.fresh })

store_services-IsBacked :
    (updated : Map Str (Versioned Service)) (x : Index)
    → IsBacked x
    → IsBacked (store_services updated x)
unfolding store_services
store_services-IsBacked [] x b = b
store_services-IsBacked ((name, v) ∷ rest) x b =
    store_services-IsBacked rest (store_service name v x) (store_service-IsBacked name v x b)

-- After any update of the Services, every cluster IP that resolves leads to a Service that the index
-- still stores under a name and that has this IP: a Service that was removed or has lost the IP is
-- never matched by it.
pub apply_services-IsBacked :
    (updated : Map Str (Versioned Service)) (removed : List Str) (x : Index)
    → IsBacked x
    → IsBacked (apply_services updated removed x)
unfolding apply_services
apply_services-IsBacked updated removed x b =
    let c =
      store_services-IsBacked updated (remove_services removed x)
        (remove_services-IsBacked removed x b) in
    record { backed = c.backed; owned = c.owned; distinct = c.distinct; fresh = c.fresh }
