-- ===== src/Operator/Slices/Refs.antt =====
-- The reference counts (addRef and dropRef of hyper-operator/internal/identity/index.go).
use hypergate_engine.Prelude.{
  ℕ, ◌+◌, ◌-◌, ◌<◌, ◌≤◌, ◌&&◌, List, [], ◌∷◌, some, if◌then◌else◌, ◌==◌, Eq, eq_iff, eq_refl,
  nat_eq, list_eq, ◌≡◌, arith, refl, Option-cases, inl, inr, is_some, ltb, ap,
}
use hypergate_engine.Prelude.Maps.{Map, lookup, insert, lookup-insert, lookup-delete}
use hypergate_engine.Selector.Sets.{member}
use hypergate_engine.Operator.{ServiceRef, ref_eq}
use hypergate_engine.Operator.Slices.{
  refs_of, count_of, add_ref, put_refs, put_count, drop_ref, add_refs, drop_refs,
}

count_of-put_count :
    (ref r : ServiceRef) (n : ℕ) (refs : Map ServiceRef ℕ)
    → count_of (lookup r (put_count ref n refs))
      ≡ (if ref == r then n else count_of (lookup r refs))
count_of-put_count ref r n refs =
    ground (arith, lookup-delete ref r refs, lookup-insert ref r n refs)

module _ {K : Type 0} ⦃e : Eq K⦄ where
  abbrev pub count_at : K → ServiceRef → Map K (Map ServiceRef ℕ) → ℕ
  count_at key ref m = count_of (lookup ref (refs_of (lookup key m)))

  count_at-add_ref :
      (key k : K) (ref r : ServiceRef) (m : Map K (Map ServiceRef ℕ))
      → count_at k r (add_ref key ref m) ≡ count_at k r m + (if key == k && ref == r then 1 else 0)
  unfolding add_ref
  count_at-add_ref key k ref r m =
      let refs = refs_of (lookup key m) in
      let n = count_of (lookup ref refs) + 1 in
      ground (
        arith,
        lookup-insert key k (insert ref n refs) m,
        lookup-insert ref r n refs,
        eq_iff key k,
        eq_iff ref r,
        ap (λ j. lookup j m) {x = key} {y = k},
        ap (λ j. lookup j refs) {x = ref} {y = r},
      )

  refs_of-put_refs :
      (key k : K) (refs : Map ServiceRef ℕ) (m : Map K (Map ServiceRef ℕ))
      → refs_of (lookup k (put_refs key refs m)) ≡ (if key == k then refs else refs_of (lookup k m))
  refs_of-put_refs key k [] m = ground (arith, lookup-delete key k m)
  refs_of-put_refs key k (r ∷ refs) m = ground (arith, lookup-insert key k (r ∷ refs) m)

  -- No count of zero is stored.
  abbrev pub IsPositive : Map K (Map ServiceRef ℕ) → Type 0
  IsPositive m =
      (k : K) (r : ServiceRef) → is_some (lookup r (refs_of (lookup k m))) ≡ ltb 0 (count_at k r m)

  add_ref-IsPositive :
      (key : K) (ref : ServiceRef) (m : Map K (Map ServiceRef ℕ))
      → IsPositive m
      → IsPositive (add_ref key ref m)
  unfolding add_ref
  add_ref-IsPositive key ref m h k r =
      let refs = refs_of (lookup key m) in
      let n = count_of (lookup ref refs) + 1 in
      ground (
        arith,
        lookup-insert key k (insert ref n refs) m,
        lookup-insert ref r n refs,
        h k r,
        eq_iff key k,
        ap (λ j. lookup j m) {x = key} {y = k},
      )

  put_refs-IsPositive :
      (key : K) (ref : ServiceRef) (n : ℕ) (refs : Map ServiceRef ℕ) (m : Map K (Map ServiceRef ℕ))
      → lookup key m ≡ some refs
      → IsPositive m
      → IsPositive (put_refs key (put_count ref n refs) m)
  put_refs-IsPositive key ref n refs m e h k r = ground (
    arith,
    refs_of-put_refs key k (put_count ref n refs) m,
    lookup-delete ref r refs,
    lookup-insert ref r n refs,
    h k r,
    e,
    eq_iff key k,
    ap (λ j. lookup j m) {x = key} {y = k},
  )

  -- A reference that is counted is dropped without a panic.
  drop_ref-total :
      (key : K) (ref : ServiceRef) (m : Map K (Map ServiceRef ℕ))
      → 0 < count_at key ref m
      → (o : Map K (Map ServiceRef ℕ)) × (drop_ref key ref m ≡ some o)
        × ((k : K) (r : ServiceRef)
            → count_at k r o ≡ count_at k r m - (if key == k && ref == r then 1 else 0))
        × (IsPositive m → IsPositive o)
  unfolding drop_ref
  drop_ref-total key ref m h = elim (Option-cases (lookup key m)) [
    | inl e ↦ absurd (ground (arith, h, e))
    | inr (refs, e) ↦
        let n = count_of (lookup ref refs) - 1 in
        let left = put_count ref n refs in
        (
          put_refs key left m,
          rw e refl,
          λ k r. ground (
            arith,
            e,
            refs_of-put_refs key k left m,
            count_of-put_count ref r n refs,
            eq_iff key k,
            eq_iff ref r,
            ap (λ j. refs_of (lookup j m)) {x = key} {y = k},
            ap (λ j. lookup j refs) {x = ref} {y = r},
          ),
          put_refs-IsPositive key ref n refs m e,
        )
  ]

  -- How often a key stands in a list.
  unfoldable pub times : K → List K → ℕ
  times k [] = 0
  times k (j ∷ ks) = (if j == k then 1 else 0) + times k ks

  pub count_at-add_refs :
      (ks : List K) (ref : ServiceRef) (m : Map K (Map ServiceRef ℕ)) (k : K) (r : ServiceRef)
      → count_at k r (add_refs ks ref m) ≡ count_at k r m + (if ref == r then times k ks else 0)
  unfolding add_refs times
  count_at-add_refs [] ref m k r = ground arith
  count_at-add_refs (j ∷ ks) ref m k r =
      ground (arith, count_at-add_refs ks ref (add_ref j ref m) k r, count_at-add_ref j k ref r m)

  pub add_refs-IsPositive :
      (ks : List K) (ref : ServiceRef) (m : Map K (Map ServiceRef ℕ))
      → IsPositive m
      → IsPositive (add_refs ks ref m)
  unfolding add_refs
  add_refs-IsPositive [] ref m h = h
  add_refs-IsPositive (j ∷ ks) ref m h =
      add_refs-IsPositive ks ref (add_ref j ref m) (add_ref-IsPositive j ref m h)

  pub ltb-times : (k : K) (ks : List K) → ltb 0 (times k ks) ≡ member k ks
  unfolding times member
  ltb-times k [] = refl
  ltb-times k (j ∷ ks) = ground (arith, ltb-times k ks, eq_iff j k, eq_iff k j)

  pub drop_refs-total :
      (ks : List K) (ref : ServiceRef) (m : Map K (Map ServiceRef ℕ))
      → ((k : K) → times k ks ≤ count_at k ref m)
      → (o : Map K (Map ServiceRef ℕ)) × (drop_refs ks ref m ≡ some o)
        × ((k : K) (r : ServiceRef)
            → count_at k r o ≡ count_at k r m - (if ref == r then times k ks else 0))
        × (IsPositive m → IsPositive o)
  unfolding drop_refs times
  drop_refs-total [] ref m h = (m, refl, λ k r. ground arith, λ h. h)
  drop_refs-total (j ∷ ks) ref m h =
      let (o, e, at, keep) = drop_ref-total j ref m (ground (arith, h j, eq_refl j)) in
      let (p, f, after, also) =
        drop_refs-total ks ref o (λ k. ground (arith, h k, at k ref, eq_refl ref)) in
      (p, rw e f, λ k r. ground (arith, after k r, at k r), λ h. also (keep h))
