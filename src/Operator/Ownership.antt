-- ===== src/Operator/Ownership.antt =====
-- The loops with which a Service owns its cluster IPs and a node its addresses (UpsertService,
-- removeServiceLocked, UpsertNode and removeNodeLocked of hyper-operator/internal/identity/index.go).
use hypergate_engine.Prelude.{
  Bool, false, ◌&&◌, List, [], ◌∷◌, Option, none, some, if◌then◌else◌, ◌==◌, Eq, eq_iff, ◌≡◌, arith,
  refl,
}
use hypergate_engine.Prelude.Maps.{Map, lookup, insert, delete, lookup-insert, lookup-delete}
use hypergate_engine.Net.{Addr, addr_eq}
use hypergate_engine.Selector.Sets.{member}

module _ {R : Type 0} ⦃e : Eq R⦄ where
  abbrev pub is_owner : R → Option R → Bool
  is_owner r none = false
  is_owner r (some q) = q == r

  -- Only the addresses that still lead to `r` are given up.
  unfoldable pub release : R → List Addr → Map Addr R → Map Addr R
  unfolding lookup delete
  release r [] m = m
  release r (ip ∷ ips) m = release r ips (if is_owner r (lookup ip m) then delete ip m else m)

  unfoldable pub acquire : R → List Addr → Map Addr R → Map Addr R
  unfolding insert
  acquire r [] m = m
  acquire r (ip ∷ ips) m = acquire r ips (insert ip r m)

  pub lookup-release :
      (r : R) (ips : List Addr) (m : Map Addr R) (ip : Addr)
      → lookup ip (release r ips m)
        ≡ (if is_owner r (lookup ip m) && member ip ips then none else lookup ip m)
  unfolding release member
  lookup-release r [] m ip = ground arith
  lookup-release r (q ∷ ips) m ip = ground (
    arith,
    lookup-release r ips (delete q m) ip,
    lookup-release r ips m ip,
    lookup-delete q ip m,
    eq_iff q ip,
    eq_iff ip q,
  )

  pub lookup-acquire :
      (r : R) (ips : List Addr) (m : Map Addr R) (ip : Addr)
      → lookup ip (acquire r ips m) ≡ (if member ip ips then some r else lookup ip m)
  unfolding acquire member
  lookup-acquire r [] m ip = refl
  lookup-acquire r (q ∷ ips) m ip = ground (
    arith,
    lookup-acquire r ips (insert q r m) ip,
    lookup-insert q ip r m,
    eq_iff q ip,
    eq_iff ip q,
  )
