-- ===== src/Filters/ApiKey/Replay/Orders.antt =====
-- Writes of headers in the order of a range over a Go map (internal/filters/api_key/api_key.go).

use mathlib.Core.List.{Permᴰ}
use hypergate_engine.Prelude.{
  ℕ, ◌+◌, ◌≤◌, List, [], ◌∷◌, if◌then◌else◌, ◌==◌, nat_eq, list_eq, ◌≡◌, refl, ap, ◌∙◌, All, arith,
  subst,
}
use hypergate_engine.Prelude.Text.{Str, to_lower}
use hypergate_engine.Engine.Headers.Laws.{Effect, put}

-- One write to a header, over what was queued for it before.
abbrev pub write : Str → Str × Str → Effect → Effect
write j h before = if to_lower h.0 == j then put h.1 else before

unfoldable pub wrote : List (Str × Str) → Str → Effect → Effect
wrote [] j before = before
wrote (h ∷ hs) j before = wrote hs j (write j h before)

abbrev pub spelled : Str → Str × Str → ℕ
spelled j h = if to_lower h.0 == j then 1 else 0

-- How many names of a list are spellings of the lower-case name `j`.
unfoldable pub spellings : Str → List (Str × Str) → ℕ
spellings j [] = 0
spellings j (h ∷ hs) = spelled j h + spellings j hs

pub spellings-Permᴰ :
    (j : Str) {hs gs : List (Str × Str)} → Permᴰ hs gs → spellings j hs ≡ spellings j gs
unfolding spellings
spellings-Permᴰ j Permᴰ.nil = refl
spellings-Permᴰ j (Permᴰ.cons e p) = omega (arith, ap (spelled j) e, spellings-Permᴰ j p)
spellings-Permᴰ j (Permᴰ.swap e f) = omega (arith, ap (spelled j) e, ap (spelled j) f)
spellings-Permᴰ j (Permᴰ.trans p q) = spellings-Permᴰ j p ∙ spellings-Permᴰ j q

write_comm :
    (j : Str) (h g : Str × Str) (before : Effect)
    → spelled j h + spelled j g ≤ 1
    → write j g (write j h before) ≡ write j h (write j g before)
write_comm j h g before once = ground arith

-- The order does not matter where no name is spelled twice.
pub wrote-Permᴰ :
    (j : Str) {hs gs : List (Str × Str)} (before : Effect)
    → Permᴰ hs gs
    → spellings j hs ≤ 1
    → wrote hs j before ≡ wrote gs j before
unfolding wrote spellings
wrote-Permᴰ j before Permᴰ.nil once = refl
wrote-Permᴰ j before (Permᴰ.cons {l₂ = gs} e p) once =
    wrote-Permᴰ j _ p (omega (arith, once)) ∙ ap (λ h. wrote gs j (write j h before)) e
wrote-Permᴰ j before (Permᴰ.swap {a = h} {b = g} {b' = k} {l = l} e f) once =
    ap (wrote l j) (write_comm j h g before (omega (arith, once)))
    ∙ ap (λ x. wrote l j (write j x (write j g before))) e
    ∙ ap (λ x. wrote l j (write j k (write j x before))) f
wrote-Permᴰ j before (Permᴰ.trans p q) once =
    wrote-Permᴰ j before p once ∙ wrote-Permᴰ j before q (omega (arith, once, spellings-Permᴰ j p))

pub All-Permᴰ {ℓ} :
    {A : Type ℓ} (P : A → Type 0) {hs gs : List A} → Permᴰ hs gs → All P hs → All P gs
All-Permᴰ P Permᴰ.nil h = h
All-Permᴰ P (Permᴰ.cons e p) (h, hs) = (subst P e h, All-Permᴰ P p hs)
All-Permᴰ P (Permᴰ.swap e f) (h, (g, hs)) = (subst P f g, (subst P e h, hs))
All-Permᴰ P (Permᴰ.trans p q) hs = All-Permᴰ P q (All-Permᴰ P p hs)
