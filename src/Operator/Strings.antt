-- ===== src/Operator/Strings.antt =====
-- Go's order on strings, byte by byte.
use hypergate_engine.Prelude.{
  Bool, true, false, ◌&&◌, ◌||◌, [], ◌∷◌, ◌==◌, nat_eq, ltb, ◌≡◌, arith, refl,
}
use hypergate_engine.Prelude.Text.{Str}

unfoldable pub above : Str → Str → Bool
above [] t = false
above (a ∷ s) [] = true
above (a ∷ s) (b ∷ t) = ltb b a || a == b && above s t

pub above_self : (s : Str) → above s s ≡ false
unfolding above
above_self [] = refl
above_self (a ∷ s) = ground (arith, above_self s)

pub above_trans : (s t u : Str) → above s t ≡ true → above t u ≡ true → above s u ≡ true
unfolding above
above_trans (a ∷ s) (b ∷ t) [] h k = refl
above_trans (a ∷ s) (b ∷ t) (c ∷ u) h k = ground (arith, above_trans s t u)
above_trans _ _ _ h k = ground arith

pub above_total : (s t : Str) → above s t ≡ false → above t s ≡ false → s ≡ t
unfolding above
above_total [] [] h k = refl
above_total (a ∷ s) (b ∷ t) h k = ground (arith, above_total s t)
above_total _ _ h k = ground arith
