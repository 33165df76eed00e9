-- ===== src/Prelude/Text/Pieces.antt =====
-- What split, join and trim of package strings do to each other.
use hypergate_engine.Prelude.Tests.{Bool-cases}
use hypergate_engine.Prelude.Equality.{◌==◌, eq_refl, nat_eq}
use hypergate_engine.Prelude.Lists.{All}
use hypergate_engine.Prelude.Text.{
  Str, cons_head, split, join, is_space, trim_left, trim_space, split-append,
}
use Prim.Native.Nat.{ℕ}
use mathlib.Core.Path.{◌≡◌, refl, ap, sym, subst, ◌∙◌}
use mathlib.Core.Bool.{false}
use mathlib.Core.Logic.{◌≢◌, inl, inr}
use mathlib.Core.List.{List, [], ◌∷◌, ◌++◌, reverse, reverse-append, reverse-reverse, append_assoc}
use native.Mathlib.Omega.{arith}

abbrev pub Lacks : ℕ → Str → Type 0
Lacks b = All (λ c. c ≢ b)

pub Lacks-left : (b : ℕ) (s t : Str) → Lacks b (s ++ t) → Lacks b s
Lacks-left b [] t h = tt
Lacks-left b (c ∷ s) t (hc, h) = (hc, Lacks-left b s t h)

pub Lacks-right : (b : ℕ) (s t : Str) → Lacks b (s ++ t) → Lacks b t
Lacks-right b [] t h = h
Lacks-right b (c ∷ s) t (hc, h) = Lacks-right b s t h

pub Lacks-append : (b : ℕ) (s t : Str) → Lacks b s → Lacks b t → Lacks b (s ++ t)
Lacks-append b [] t hs ht = ht
Lacks-append b (c ∷ s) t (hc, hs) ht = (hc, Lacks-append b s t hs ht)

Lacks-reverse : (b : ℕ) (s : Str) → Lacks b s → Lacks b (reverse s)
Lacks-reverse b [] h = tt
Lacks-reverse b (c ∷ s) (hc, h) =
    subst (Lacks b) (sym (reverse-append (c ∷ []) s))
      (Lacks-append b (reverse s) (c ∷ []) (Lacks-reverse b s h) (hc, tt))

-- Text without the separator is one piece.
pub split-Lacks : (b : ℕ) (s : Str) → Lacks b s → split b s ≡ s ∷ []
unfolding split
split-Lacks b [] h = refl
split-Lacks b (c ∷ s) (hc, h) = ground (arith, split-Lacks b s h)

abbrev AllLack : ℕ → List Str → Type 0
AllLack b = All (Lacks b)

cons_head-AllLack : (b c : ℕ) (ws : List Str) → c ≢ b → AllLack b ws → AllLack b (cons_head c ws)
cons_head-AllLack b c [] hc h = ((hc, tt), tt)
cons_head-AllLack b c (w ∷ ws) hc (hw, h) = ((hc, hw), h)

pub split-AllLack : (b : ℕ) (s : Str) → AllLack b (split b s)
unfolding split
split-AllLack b [] = (tt, tt)
split-AllLack b (c ∷ s) = elim (Bool-cases (c == b)) [
  | inl e ↦ rw e (tt, split-AllLack b s)
  | inr e ↦ rw e (cons_head-AllLack b c (split b s) (λ h. cc (e, eq_refl b, h)) (split-AllLack b s))
]

pub join-cons :
    (sep w v : Str) (ws : List Str) → join sep (w ∷ v ∷ ws) ≡ w ++ (sep ++ join sep (v ∷ ws))
unfolding join
join-cons sep w v ws = append_assoc w sep (join sep (v ∷ ws))

-- Joining pieces without the separator and splitting at it gives them back.
pub split-join :
    (b : ℕ) (w : Str) (ws : List Str)
    → AllLack b (w ∷ ws)
    → split b (join (b ∷ []) (w ∷ ws)) ≡ w ∷ ws
split-join b w [] (hw, h) = unfold join in split-Lacks b w hw
split-join b w (v ∷ ws) (hw, h) =
    ap (split b) (join-cons (b ∷ []) w v ws)
    ∙ split-append b w (join (b ∷ []) (v ∷ ws))
    ∙ cc (split-Lacks b w hw, split-join b v ws h)

Head : Str → Type 0
Head [] = Unit
Head (c ∷ s) = is_space c ≡ false

trim_left-Head : (s : Str) → Head (trim_left s)
unfolding trim_left Head
trim_left-Head [] = tt
trim_left-Head (c ∷ s) = elim (Bool-cases (is_space c)) [
  | inl e ↦ rw e (trim_left-Head s)
  | inr e ↦ rw e e
]

Head-trim_left : (s : Str) → Head s → trim_left s ≡ s
unfolding trim_left Head
Head-trim_left [] h = refl
Head-trim_left (c ∷ s) h = rw h refl

Head-append : (s t : Str) → Head (s ++ t) → Head s
unfolding Head
Head-append [] t h = tt
Head-append (c ∷ s) t h = h

trim_left-suffix : (s : Str) → (w : Str) × (s ≡ w ++ trim_left s)
unfolding trim_left
trim_left-suffix [] = ([], refl)
trim_left-suffix (c ∷ s) = elim (Bool-cases (is_space c)) [
  | inl e ↦ let (w, h) = trim_left-suffix s in (c ∷ w, rw e (ap (λ t. c ∷ t) h))
  | inr e ↦ ([], rw e refl)
]

trim_left-Lacks : (b : ℕ) (s : Str) → Lacks b s → Lacks b (trim_left s)
trim_left-Lacks b s h =
    let (w, e) = trim_left-suffix s in Lacks-right b w (trim_left s) (subst (Lacks b) e h)

pub trim_space-Lacks : (b : ℕ) (s : Str) → Lacks b s → Lacks b (trim_space s)
unfolding trim_space
trim_space-Lacks b s h =
    Lacks-reverse b _ (trim_left-Lacks b _ (Lacks-reverse b _ (trim_left-Lacks b s h)))

trim_right-Head : (s : Str) → Head s → Head (reverse (trim_left (reverse s)))
trim_right-Head s h =
    let (w, e) = trim_left-suffix (reverse s) in
    Head-append (reverse (trim_left (reverse s))) (reverse w) (
      subst Head (sym (reverse-reverse s) ∙ ap reverse e ∙ reverse-append w (trim_left (reverse s)))
        h)

-- Trimmed text is left as it is.
pub trim_space-trim_space : (s : Str) → trim_space (trim_space s) ≡ trim_space s
unfolding trim_space
trim_space-trim_space s =
    rw
      (
        Head-trim_left _ (trim_right-Head (trim_left s) (trim_left-Head s)),
        reverse-reverse (trim_left (reverse (trim_left s))),
        Head-trim_left _ (trim_left-Head (reverse (trim_left s))),
      )
      refl

-- A space in front of text is trimmed.
pub trim_space-cons : (s : Str) → trim_space (b' ' ∷ s) ≡ trim_space s
unfolding trim_space trim_left is_space
trim_space-cons s = refl
