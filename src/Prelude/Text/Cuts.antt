-- ===== src/Prelude/Text/Cuts.antt =====
-- What cut at a byte gives (strings.IndexByte and the two slices around the index).
use hypergate_engine.Prelude.Tests.{Bool-cases}
use hypergate_engine.Prelude.Equality.{◌==◌, eq_iff, eq_refl, nat_eq}
use hypergate_engine.Prelude.Lists.{length}
use hypergate_engine.Prelude.Text.{Str, cut, split, cons_head}
use hypergate_engine.Prelude.Text.Pieces.{Lacks}
use Prim.Native.Nat.{ℕ, ◌≤◌}
use mathlib.Core.Path.{◌≡◌, refl}
use mathlib.Core.Bool.{Bool, true, false}
use mathlib.Core.Logic.{inl, inr}
use mathlib.Core.List.{List, [], ◌∷◌, ◌++◌}
use native.Mathlib.Omega.{arith}

pub cut-Lacks : (b : ℕ) (s : Str) → Lacks b (cut b s).0
unfolding cut
cut-Lacks b [] = tt
cut-Lacks b (c ∷ s) = elim (Bool-cases (c == b)) [
  | inl e ↦ rw e tt
  | inr e ↦ rw e (λ h. cc (e, eq_refl b, h), cut-Lacks b s)
]

pub cut-length : (b : ℕ) (s : Str) → length (cut b s).1 ≤ length s
unfolding cut
cut-length b [] = omega arith
cut-length b (c ∷ s) = ground (arith, cut-length b s)

-- A cut takes at least one byte.
pub cut-length_cons : (b c : ℕ) (s : Str) → length (cut b (c ∷ s)).1 ≤ length s
unfolding cut
cut-length_cons b c s = ground (arith, cut-length b s)

-- Text without the byte is not cut.
pub cut-missing : (b : ℕ) (s : Str) → Lacks b s → cut b s ≡ (s, [], false)
unfolding cut
cut-missing b [] h = refl
cut-missing b (c ∷ s) (hc, h) = elim (Bool-cases (c == b)) [
  | inl e ↦ absurd (hc ((eq_iff c b).0 e))
  | inr e ↦ rw (e, cut-missing b s h) refl
]

pub cut-append : (b : ℕ) (s t : Str) → Lacks b s → cut b (s ++ b ∷ t) ≡ (s, t, true)
unfolding cut
cut-append b [] t h = rw (eq_refl b) refl
cut-append b (c ∷ s) t (hc, h) = elim (Bool-cases (c == b)) [
  | inl e ↦ absurd (hc ((eq_iff c b).0 e))
  | inr e ↦ rw (e, cut-append b s t h) refl
]

abbrev pub first_pieces : ℕ → Str × Str × Bool → List Str
first_pieces b (before, after, true) = before ∷ split b after
first_pieces b (before, after, false) = before ∷ []

cons_head-first_pieces :
    (b c : ℕ) (r : Str × Str × Bool)
    → cons_head c (first_pieces b r) ≡ first_pieces b (c ∷ r.0, r.1, r.2)
cons_head-first_pieces b c (before, after, true) = refl
cons_head-first_pieces b c (before, after, false) = refl

-- A split is the text before the first cut, and the split of the rest.
pub split-cut : (b : ℕ) (s : Str) → split b s ≡ first_pieces b (cut b s)
unfolding split cut
split-cut b [] = refl
split-cut b (c ∷ s) = elim (Bool-cases (c == b)) [
  | inl e ↦ rw e refl
  | inr e ↦ rw (e, split-cut b s) (cons_head-first_pieces b c (cut b s))
]

pub cut-unfound : (b : ℕ) (s : Str) → (cut b s).2 ≡ false → cut b s ≡ (s, [], false)
unfolding cut
cut-unfound b [] h = refl
cut-unfound b (c ∷ s) h = elim (Bool-cases (c == b)) [
  | inl e ↦ ground (arith, cut-unfound b s)
  | inr e ↦ ground (arith, cut-unfound b s)
]
