-- ===== src/Operator/Services/Backing.antt =====
-- The addresses of Services and nodes (the fields `byClusterIP` and `nodeIP` of
-- hyper-operator/internal/identity/index.go).
use hypergate_engine.Prelude.{
  Bool, true, false, List, Option, none, some, Eq, eq_iff, eq_refl, nat_eq, list_eq, ◌≡◌, arith,
  Option-cases, inl, inr, ap,
}
use hypergate_engine.Prelude.Text.{Str}
use hypergate_engine.Prelude.Maps.{Map, lookup, insert, delete, lookup-insert, lookup-delete}
use hypergate_engine.Net.{Addr, addr_eq}
use hypergate_engine.Selector.Sets.{member}
use hypergate_engine.Operator.{ServiceRef, ref_eq, Service, NodeRecord, Index, unique_addrs}
use hypergate_engine.Operator.Ownership.{release, acquire, lookup-release, lookup-acquire}
use hypergate_engine.Operator.Services.{
  remove_service_locked, upsert_service, delete_service, remove_node_locked, upsert_node,
  delete_node,
}

abbrev pub lists : {V : Type 0} → (V → List Addr) → Addr → Option V → Bool
lists ips_of ip none = false
lists ips_of ip (some v) = member ip (ips_of v)

-- Every address that leads to an owner leads to a stored one that lists it.
module _ {R V : Type 0} ⦃e : Eq R⦄ (ips_of : V → List Addr) where
  abbrev pub Backs : Map Addr R → Map R V → Type 0
  Backs owners m =
      (ip : Addr) (r : R) → lookup ip owners ≡ some r → lists ips_of ip (lookup r m) ≡ true

  release-Backs :
      (r : R) (v : V) (owners : Map Addr R) (m : Map R V)
      → lookup r m ≡ some v
      → Backs owners m
      → Backs (release r (ips_of v) owners) (delete r m)
  release-Backs r v owners m stored b ip q h = ground (
    arith,
    lookup-release r (ips_of v) owners ip,
    b ip q,
    lookup-delete r q m,
    eq_iff q r,
    eq_iff r q,
    stored,
    ap (λ k. lookup k m) {x = q} {y = r},
  )

  acquire-Backs :
      (r : R) (v : V) (owners : Map Addr R) (m : Map R V)
      → lookup r m ≡ none
      → Backs owners m
      → Backs (acquire r (ips_of v) owners) (insert r v m)
  acquire-Backs r v owners m free b ip q h = ground (
    arith,
    lookup-acquire r (ips_of v) owners ip,
    b ip q,
    lookup-insert r q v m,
    eq_iff r q,
    eq_refl r,
    free,
    ap (λ k. lookup k m) {x = r} {y = q},
  )

abbrev service_ips : Service → List Addr
service_ips s = s.cluster_ips

abbrev node_ips : NodeRecord → List Addr
node_ips n = n.ips

-- What the index holds of the addresses of Services and nodes.
abbrev pub IsBacked : Index → Type 0
IsBacked x = Backs service_ips x.by_cluster_ip x.services × Backs node_ips x.node_ip x.nodes

remove_service_locked-IsBacked :
    (ref : ServiceRef) (x : Index)
    → IsBacked x
    → IsBacked (remove_service_locked ref x)
      × (lookup ref (remove_service_locked ref x).services ≡ none)
unfolding remove_service_locked
remove_service_locked-IsBacked ref x b = elim (Option-cases (lookup ref x.services)) [
  | inl e ↦ rw e (b, e)
  | inr (old, e) ↦ rw e (
    (release-Backs service_ips ref old x.by_cluster_ip x.services e b.0, b.1),
    ground (arith, lookup-delete ref ref x.services, eq_refl ref),
  )
]

remove_node_locked-IsBacked :
    (name : Str) (x : Index)
    → IsBacked x
    → IsBacked (remove_node_locked name x) × (lookup name (remove_node_locked name x).nodes ≡ none)
unfolding remove_node_locked
remove_node_locked-IsBacked name x b = elim (Option-cases (lookup name x.nodes)) [
  | inl e ↦ rw e (b, e)
  | inr (old, e) ↦ rw e (
    (b.0, release-Backs node_ips name old x.node_ip x.nodes e b.1),
    ground (arith, lookup-delete name name x.nodes, eq_refl name),
  )
]

pub upsert_service-IsBacked : (s : Service) (x : Index) → IsBacked x → IsBacked (upsert_service s x)
unfolding upsert_service
upsert_service-IsBacked s x b =
    let ref : ServiceRef = record { namespace = s.namespace; name = s.name } in
    let y = remove_service_locked ref x in
    let (c, free) = remove_service_locked-IsBacked ref x b in
    let t : Service = record s { cluster_ips = unique_addrs s.cluster_ips } in
    (acquire-Backs service_ips ref t y.by_cluster_ip y.services free c.0, c.1)

pub delete_service-IsBacked :
    (namespace name : Str) (x : Index) → IsBacked x → IsBacked (delete_service namespace name x)
unfolding delete_service
delete_service-IsBacked namespace name x b =
    (remove_service_locked-IsBacked (record { namespace = namespace; name = name }) x b).0

pub upsert_node-IsBacked : (n : NodeRecord) (x : Index) → IsBacked x → IsBacked (upsert_node n x)
unfolding upsert_node
upsert_node-IsBacked n x b =
    let y = remove_node_locked n.name x in
    let (c, free) = remove_node_locked-IsBacked n.name x b in
    let m : NodeRecord = record n { ips = unique_addrs n.ips } in
    (c.0, acquire-Backs node_ips n.name m y.node_ip y.nodes free c.1)

pub delete_node-IsBacked : (name : Str) (x : Index) → IsBacked x → IsBacked (delete_node name x)
unfolding delete_node
delete_node-IsBacked name x b = (remove_node_locked-IsBacked name x b).0
