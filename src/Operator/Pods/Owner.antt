-- ===== src/Operator/Pods/Owner.antt =====
-- The pod that an address belongs to (owner and DeletePod of
-- hyper-operator/internal/identity/index.go).
use hypergate_engine.Prelude.{
  ◌<◌, true, false, none, some, if◌then◌else◌, ◌==◌, eq_iff, nat_eq, list_eq, ◌≡◌, ◌≢◌, arith,
  Option-cases, Bool-cases, inl, inr, ap, sym, subst, some_inj, ◌∙◌, ◌↔◌, ◌⊎◌,
}
use hypergate_engine.Prelude.Text.{Str}
use hypergate_engine.Prelude.Maps.{lookup}
use hypergate_engine.Net.{Addr, addr_eq}
use hypergate_engine.Selector.Sets.{member}
use hypergate_engine.Operator.{PodRecord, Index}
use hypergate_engine.Operator.Strings.{above}
use hypergate_engine.Operator.Pods.{beats, owner, delete_pod}
use hypergate_engine.Operator.Pods.Search.{beats_total, best_of-from, best_of-none, best_of-latest}
use hypergate_engine.Operator.Pods.Claims.{
  IsClaimed, has_ip, claimants, delete_pod-IsClaimed, pods-remove_pod,
}

-- The pod is stored and has the address, and every stored pod that has it was created earlier, or at
-- the same time with no greater UID.
pub record IsLatest (ip : Addr) (x : Index) (p : PodRecord) : Type 0 where
  pub stored : lookup p.uid x.pods ≡ some p
  pub holds : member ip p.ips ≡ true
  pub latest :
      (u : Str) (q : PodRecord)
      → lookup u x.pods ≡ some q
      → member ip q.ips ≡ true
      → (q.created < p.created) ⊎ ((q.created ≡ p.created) × (above q.uid p.uid ≡ false))

unbeaten :
    (q p : PodRecord)
    → (q.created < p.created) ⊎ ((q.created ≡ p.created) × (above q.uid p.uid ≡ false))
    → beats q p ≡ false
unbeaten q p (inl h) = ground arith
unbeaten q p (inr (h, k)) = ground arith

beaten :
    (q p : PodRecord)
    → beats q p ≡ false
    → (q.created < p.created) ⊎ ((q.created ≡ p.created) × (above q.uid p.uid ≡ false))
beaten q p h = ground arith

owner-from :
    (ip : Addr) (x : Index) (p : PodRecord)
    → owner ip x ≡ some p
    → (u : Str) × (member u (claimants ip x.claims) ≡ true) × (lookup u x.pods ≡ some p)
unfolding owner
owner-from ip x p h = elim (best_of-from x.pods (claimants ip x.claims) none p h) [
  | inl e ↦ absurd (ground arith)
  | inr found ↦ found
]

owner-IsLatest :
    (ip : Addr) (x : Index) (p : PodRecord) → IsClaimed x → owner ip x ≡ some p → IsLatest ip x p
unfolding owner
owner-IsLatest ip x p c h =
    let (u, m, e) = owner-from ip x p h in
    record {
      stored = subst (λ k. lookup k x.pods ≡ some p) (sym (c.named u p e)) e;
      holds = ground (arith, c.claimed ip u);
      latest = λ v q f k. beaten q p (
          best_of-latest x.pods (claimants ip x.claims) p h v q (ground (arith, c.claimed ip v)) f);
    }

owner-missing :
    (ip : Addr) (x : Index)
    → IsClaimed x
    → owner ip x ≡ none
    → (u : Str) → has_ip ip (lookup u x.pods) ≡ false
unfolding owner
owner-missing ip x c h u = elim (Bool-cases (has_ip ip (lookup u x.pods))) [
  | inr free ↦ free
  | inl held ↦
      ground
        (arith, best_of-none x.pods (claimants ip x.claims) h u (ground (arith, c.claimed ip u)))
]

-- There is one latest pod at most.
IsLatest-unique :
    (ip : Addr) (x : Index) (p q : PodRecord) → IsLatest ip x p → IsLatest ip x q → p ≡ q
IsLatest-unique ip x p q a b =
    let same =
      beats_total p q (unbeaten p q (b.latest p.uid p a.stored a.holds))
        (unbeaten q p (a.latest q.uid q b.stored b.holds)) in
    some_inj (sym a.stored ∙ (ap (λ k. lookup k x.pods) same ∙ b.stored))

-- Where the claims are those of the stored pods, an address belongs to a pod exactly where that pod is
-- stored, has the address, and every stored pod that has it was created earlier, or at the same time
-- with no greater UID.
pub owner-iff_IsLatest :
    (x : Index)
    → IsClaimed x
    → (ip : Addr) (p : PodRecord) → (owner ip x ≡ some p) ↔ IsLatest ip x p
owner-iff_IsLatest x c ip p = (
  owner-IsLatest ip x p c,
  λ a. elim (Option-cases (owner ip x)) [
    | inl e ↦ absurd (ground (arith, owner-missing ip x c e p.uid, a.stored, a.holds))
    | inr (q, e) ↦ rw (IsLatest-unique ip x p q a (owner-IsLatest ip x q c e)) e
  ],
)

pods-delete_pod :
    (uid u : Str) (x : Index)
    → IsClaimed x
    → lookup u (delete_pod uid x).pods ≡ (if uid == u then none else lookup u x.pods)
unfolding delete_pod
pods-delete_pod uid u x c = pods-remove_pod uid x c u

-- Where the claims are those of the stored pods, deleting a pod leaves every address to the other pod
-- that it belongs to.
pub owner-delete_pod :
    (x : Index)
    → IsClaimed x
    → (ip : Addr) (uid : Str) (p : PodRecord) → owner ip x ≡ some p
    → p.uid ≢ uid
    → owner ip (delete_pod uid x) ≡ some p
owner-delete_pod x c ip uid p h ne =
    let a = owner-IsLatest ip x p c h in
    let y = delete_pod uid x in
    (owner-iff_IsLatest y (delete_pod-IsClaimed uid x c) ip p).1 record {
      stored = ground (arith, pods-delete_pod uid p.uid x c, a.stored, eq_iff uid p.uid);
      holds = a.holds;
      latest = λ u q f k. a.latest u q (ground (arith, pods-delete_pod uid u x c)) k;
    }
