-- ===== src/Operator/Pods/Search.antt =====
-- The search for the best of an address's claimants (owner of
-- hyper-operator/internal/identity/index.go).
use hypergate_engine.Prelude.{
  true, false, List, [], ◌∷◌, Option, none, some, eq_iff, nat_eq, list_eq, ◌≡◌, arith, refl,
  Option-cases, Bool-cases, inl, inr, ap, ◌⊎◌, eq_refl,
}
use hypergate_engine.Prelude.Text.{Str}
use hypergate_engine.Prelude.Maps.{Map, lookup}
use hypergate_engine.Net.{addr_eq}
use hypergate_engine.Selector.Sets.{member}
use hypergate_engine.Operator.{PodRecord}
use hypergate_engine.Operator.Strings.{above_self, above_trans, above_total}
use hypergate_engine.Operator.Pods.{beats, better, best_of}

beats_self : (p : PodRecord) → beats p p ≡ false
beats_self p = ground (arith, above_self p.uid)

beats_trans : (p q r : PodRecord) → beats p q ≡ true → beats q r ≡ true → beats p r ≡ true
beats_trans p q r h k = ground (arith, above_trans p.uid q.uid r.uid)

pub beats_total : (p q : PodRecord) → beats p q ≡ false → beats q p ≡ false → p.uid ≡ q.uid
beats_total p q h k = ground (arith, above_total p.uid q.uid)

better-from :
    (o best : Option PodRecord) {p : PodRecord}
    → better o best ≡ some p
    → (o ≡ some p) ⊎ (best ≡ some p)
better-from none best h = inr h
better-from (some p) none h = inl h
better-from (some p) (some b) h = elim (Bool-cases (beats p b)) [
  | inl e ↦ inl (ground (arith, h, e))
  | inr e ↦ inr (ground (arith, h, e))
]

module _ (pods : Map Str PodRecord) where
  -- What the search has found after `best` and then `us`.
  best_of-some :
      (us : List Str) (b : PodRecord)
      → (p : PodRecord) × (best_of pods us (some b) ≡ some p)
        × ((q : PodRecord) → beats q b ≡ false → beats q p ≡ false)
        × ((u : Str) (q : PodRecord)
            → member u us ≡ true
            → lookup u pods ≡ some q
            → beats q p ≡ false)
  unfolding best_of member
  best_of-some [] b = (b, refl, λ q h. h, λ u q h. absurd (ground arith))
  best_of-some (v ∷ us) b = elim (Option-cases (lookup v pods)) [
    | inl e ↦
        let (p, found, old, all) = best_of-some us b in
        (
          p,
          rw e found,
          old,
          λ u q h k. ground (arith, all u q, eq_iff u v, ap (λ k. lookup k pods) {x = u} {y = v}),
        )
    | inr (w, e) ↦ elim (Bool-cases (beats w b)) [
      | inl win ↦
          let (p, found, old, all) = best_of-some us w in
          (
            p,
            rw e (rw win found),
            λ q h. old q (ground (arith, beats_trans q w b, Bool-cases (beats q w))),
            λ u q h k. ground (
              arith,
              all u q,
              eq_iff u v,
              old w (beats_self w),
              ap (λ k. lookup k pods) {x = u} {y = v},
            ),
          )
      | inr lose ↦
          let (p, found, old, all) = best_of-some us b in
          (
            p,
            rw e (rw lose found),
            old,
            λ u q h k.
                ground
                  (arith, all u q, eq_iff u v, old w lose, ap (λ k. lookup k pods) {x = u} {y = v}),
          )
    ]
  ]

  -- What the search finds was there before or is stored under one of the names.
  pub best_of-from :
      (us : List Str) (best : Option PodRecord) (p : PodRecord)
      → best_of pods us best ≡ some p
      → (best ≡ some p) ⊎ ((u : Str) × (member u us ≡ true) × (lookup u pods ≡ some p))
  unfolding best_of member
  best_of-from [] best p h = inl h
  best_of-from (v ∷ us) best p h = elim (best_of-from us (better (lookup v pods) best) p h) [
    | inr (u, m, e) ↦ inr (u, ground (arith, m), e)
    | inl b ↦ elim (better-from (lookup v pods) best b) [
      | inl e ↦ inr (v, ground (arith, eq_refl v), e)
      | inr e ↦ inl e
    ]
  ]

  pub best_of-none :
      (us : List Str)
      → best_of pods us none ≡ none
      → (u : Str) → member u us ≡ true
      → lookup u pods ≡ none
  unfolding best_of member
  best_of-none [] h u m = absurd (ground arith)
  best_of-none (v ∷ us) h u m = elim (Option-cases (lookup v pods)) [
    | inl e ↦ ground (
      arith,
      best_of-none us (ground (arith, h, e)) u,
      eq_iff u v,
      e,
      ap (λ k. lookup k pods) {x = u} {y = v},
    )
    | inr (w, e) ↦ let (p, found, _, _) = best_of-some us w in absurd (ground (arith, h, e, found))
  ]

  pub best_of-latest :
      (us : List Str) (p : PodRecord)
      → best_of pods us none ≡ some p
      → (u : Str) (q : PodRecord) → member u us ≡ true
      → lookup u pods ≡ some q
      → beats q p ≡ false
  unfolding best_of member
  best_of-latest [] p h u q m e = absurd (ground arith)
  best_of-latest (v ∷ us) p h u q m e = elim (Option-cases (lookup v pods)) [
    | inl free ↦ ground (
      arith,
      best_of-latest us p (ground (arith, h, free)) u q,
      eq_iff u v,
      ap (λ k. lookup k pods) {x = u} {y = v},
    )
    | inr (w, held) ↦
        let (r, found, old, all) = best_of-some us w in
        ground (
          arith,
          h,
          found,
          held,
          all u q,
          old w (beats_self w),
          eq_iff u v,
          ap (λ k. lookup k pods) {x = u} {y = v},
        )
  ]
