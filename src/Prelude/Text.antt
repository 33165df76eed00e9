-- ===== src/Prelude/Text.antt =====
-- Go strings as sequences of bytes, with what the engine calls of package strings. Case and white
-- space are those of ASCII; a byte above 127 is left as it is.
pub mod Pieces
pub mod Cuts
use Prim.Native.Char.{code}
use hypergate_engine.Prelude.Tests.{leb, if◌then◌else◌, Bool-cases}
use mathlib.Core.Logic.{◌≢◌, inl, inr}
use hypergate_engine.Prelude.Equality.{◌==◌, eq_refl, nat_eq, list_eq}
use hypergate_engine.Prelude.Lists.{any}
use Prim.Native.Nat.{ℕ, ◌+◌}
use Prim.Native.String.{String}
use mathlib.Core.Path.{◌≡◌, refl, ap}
use mathlib.Core.Bool.{Bool, true, false, ◌&&◌, ◌||◌}
use mathlib.Core.List.{List, [], ◌∷◌, ◌++◌, reverse}
use mathlib.Core.Option.{Option, none, some}
use native.Mathlib.Omega.{arith}

abbrev pub Str : Type 0
Str = List ℕ

-- The bytes of a literal (the engine's literals are ASCII).
abbrev pub lit : String → Str
lit String.[] = []
lit (String.◌∷◌ c s) = code c ∷ lit s

unfoldable pub lower_byte : ℕ → ℕ
lower_byte c = if leb b'A' c && leb c b'Z' then c + 32 else c

unfoldable pub to_lower : Str → Str
unfolding lower_byte
to_lower [] = []
to_lower (c ∷ s) = lower_byte c ∷ to_lower s

lower_byte-lower_byte : (c : ℕ) → lower_byte (lower_byte c) ≡ lower_byte c
unfolding lower_byte
lower_byte-lower_byte c = ground arith

pub to_lower-to_lower : (s : Str) → to_lower (to_lower s) ≡ to_lower s
unfolding to_lower
to_lower-to_lower [] = refl
to_lower-to_lower (c ∷ s) = cc (lower_byte-lower_byte c, to_lower-to_lower s)

unfoldable pub equal_fold : Str → Str → Bool
unfolding to_lower
equal_fold s t = to_lower s == to_lower t

-- CutPrefix: `none` if `s` does not begin with `p`.
unfoldable pub cut_prefix : Str → Str → Option Str
cut_prefix [] s = some s
cut_prefix (c ∷ p) [] = none
cut_prefix (c ∷ p) (d ∷ s) = if c == d then cut_prefix p s else none

unfoldable pub has_prefix : Str → Str → Bool
unfolding cut_prefix
has_prefix s p = elim (cut_prefix p s) [ none ↦ false | some _ ↦ true ]

unfoldable pub has_suffix : Str → Str → Bool
unfolding has_prefix
has_suffix s p = has_prefix (reverse s) (reverse p)

unfoldable pub trim_prefix : Str → Str → Str
unfolding cut_prefix
trim_prefix s p = elim (cut_prefix p s) [ none ↦ s | some r ↦ r ]

unfoldable pub trim_suffix : Str → Str → Str
unfolding cut_prefix
trim_suffix s p = elim (cut_prefix (reverse p) (reverse s)) [ none ↦ s | some r ↦ reverse r ]

unfoldable pub is_space : ℕ → Bool
is_space c = leb 9 c && leb c 13 || c == 32

unfoldable pub trim_left : Str → Str
unfolding is_space
trim_left [] = []
trim_left (c ∷ s) = let rest = trim_left s in if is_space c then rest else c ∷ s

unfoldable pub trim_space : Str → Str
unfolding trim_left
trim_space s = reverse (trim_left (reverse (trim_left s)))

-- Cut at the first byte `sep`: what stands before it, what stands after it, and whether it is there.
unfoldable pub cut : ℕ → Str → Str × Str × Bool
cut sep [] = ([], [], false)
cut sep (c ∷ s) =
    let (before, after, found) = cut sep s in
    if c == sep then ([], s, true) else (c ∷ before, after, found)

abbrev pub cons_head : ℕ → List Str → List Str
cons_head c [] = (c ∷ []) ∷ []
cons_head c (w ∷ ws) = (c ∷ w) ∷ ws

-- Split on one byte: never empty.
unfoldable pub split : ℕ → Str → List Str
split sep [] = [] ∷ []
split sep (c ∷ s) = let rest = split sep s in if c == sep then [] ∷ rest else cons_head c rest

unfoldable pub contains_byte : ℕ → Str → Bool
contains_byte b s = any (λ c. c == b) s

-- ContainsAny: some byte of `s` is among `chars`.
unfoldable pub contains_any : Str → Str → Bool
unfolding contains_byte
contains_any s chars = any (λ c. contains_byte c chars) s

-- Join with a separator.
unfoldable pub join : Str → List Str → Str
join sep [] = []
join sep (w ∷ []) = w
join sep (w ∷ v ∷ ws) = w ++ sep ++ join sep (v ∷ ws)

-- Cut at the last byte `sep`.
unfoldable pub cut_last : ℕ → Str → Str × Str × Bool
unfolding cut
cut_last sep s =
    let (before, after, found) = cut sep (reverse s) in
    if found then (reverse after, reverse before, true) else (s, [], false)

pub split-ne_nil : (sep : ℕ) (s : Str) → split sep s ≢ []
unfolding split
split-ne_nil sep [] h = cc
split-ne_nil sep (c ∷ s) h = elim (Bool-cases (c == sep)) [
  | inl e ↦ ground arith
  | inr e ↦ ground arith
]

cons_head-append :
    (c : ℕ) (ws vs : List Str) → ws ≢ [] → cons_head c (ws ++ vs) ≡ cons_head c ws ++ vs
cons_head-append c [] vs h = absurd (h refl)
cons_head-append c (w ∷ ws) vs h = refl

-- A cut joins the pieces of a split.
pub split-append : (sep : ℕ) (s t : Str) → split sep (s ++ sep ∷ t) ≡ split sep s ++ split sep t
unfolding split
split-append sep [] t = rw (eq_refl sep) refl
split-append sep (c ∷ s) t = elim (Bool-cases (c == sep)) [
  | inl e ↦ rw e (ap (λ ws. [] ∷ ws) (split-append sep s t))
  | inr e ↦
      rw (e, split-append sep s t)
        (cons_head-append c (split sep s) (split sep t) (split-ne_nil sep s))
]
