-- ===== src/Filters/Cors/Vary.antt =====
-- The Vary header: mergeVary of internal/filters/cors/cors.go.
use hypergate_engine.Prelude.{
  Bool, true, false, List, [], ◌∷◌, ◌++◌, Option, none, some, if◌then◌else◌, ◌==◌, nat_eq, list_eq,
  eq_refl, ◌||◌, any, ◌≡◌, ◌≢◌, refl, ap, sym, ◌∙◌, arith, if_cases, if_ind, subst,
}
use mathlib.Core.List.{append_assoc, cons-ne-nil}
use hypergate_engine.Prelude.Text.{Str, lit, trim_space, split, split-append, equal_fold, to_lower}
use hypergate_engine.Prelude.Text.Pieces.{Lacks, split-Lacks, trim_space-cons}

-- A missing key of a Go map reads as the empty string.
abbrev pub map_or_empty : Option Str → Str
map_or_empty none = []
map_or_empty (some v) = v

-- The test of mergeVary on a part.
unfoldable pub covers : Str → Str → Bool
unfolding trim_space equal_fold
covers token part = let p = trim_space part in p == lit "*" || equal_fold p token

unfoldable pub merge_vary : Str → Str → Str
unfolding covers split
merge_vary [] token = token
merge_vary (c ∷ existing) token =
    if any (covers token) (split b',' (c ∷ existing))
    then c ∷ existing
    else (c ∷ existing) ++ lit ", " ++ token

any-append : (p : Str → Bool) (ws vs : List Str) → any p (ws ++ vs) ≡ (any p ws || any p vs)
any-append p [] vs = refl
any-append p (w ∷ ws) vs = ground (arith, any-append p ws vs)

-- A Vary value covers a token if one of its parts is the token, in any case, or a star.
unfoldable pub Covered : Str → Str → Type 0
Covered token value = any (covers token) (split b',' value) ≡ true

or_true : (b : Bool) → (b || true) ≡ true
or_true true = refl
or_true false = refl

covers_self : (token part : Str) → trim_space part ≡ token → covers token part ≡ true
unfolding covers equal_fold
covers_self token part h =
    subst (λ p. (p == lit "*" || to_lower p == to_lower token) ≡ true) (sym h)
      (ap (λ b. token == lit "*" || b) (eq_refl (to_lower token)) ∙ or_true (token == lit "*"))

same-Covered : (token : Str) → trim_space token ≡ token → Lacks b',' token → Covered token token
unfolding Covered
same-Covered token h l =
    ap (any (covers token)) (split-Lacks b',' token l)
    ∙ ap (λ b. b || false) (covers_self token token h)

append-Covered :
    (existing token : Str)
    → trim_space token ≡ token
    → Lacks b',' token
    → Covered token (existing ++ lit ", " ++ token)
unfolding Covered
append-Covered existing token h l =
    ap (λ s. any (covers token) (split b',' s)) (append_assoc existing (lit ", ") token)
    ∙ ap (any (covers token)) (split-append b',' existing (b' ' ∷ token))
    ∙ any-append (covers token) (split b',' existing) (split b',' (b' ' ∷ token))
    ∙ ap (λ b. any (covers token) (split b',' existing) || b) last
    ∙ or_true _
  where
    last : any (covers token) (split b',' (b' ' ∷ token)) ≡ true
    last =
        ap (any (covers token)) (split-Lacks b',' (b' ' ∷ token) (λ e. cc (e), l))
        ∙ ap (λ b. b || false) (covers_self token (b' ' ∷ token) (trim_space-cons token ∙ h))

merge_vary-Covered :
    (existing token : Str)
    → trim_space token ≡ token
    → Lacks b',' token
    → Covered token (merge_vary existing token)
unfolding merge_vary
merge_vary-Covered [] token h l = same-Covered token h l
merge_vary-Covered (c ∷ existing) token h l =
    if_cases (Covered token) (any (covers token) (split b',' (c ∷ existing)))
      (λ e. unfold Covered in e) (λ _. append-Covered (c ∷ existing) token h l)

merge_vary-ne-nil : (existing token : Str) → token ≢ [] → merge_vary existing token ≢ []
unfolding merge_vary
merge_vary-ne-nil [] token n = n
merge_vary-ne-nil (c ∷ existing) token n =
    if_ind (λ s. s ≢ []) (any (covers token) (split b',' (c ∷ existing))) (cons-ne-nil c existing)
      (cons-ne-nil c (existing ++ lit ", " ++ token))

merge_vary-same :
    (value token : Str) → value ≢ [] → Covered token value → merge_vary value token ≡ value
unfolding merge_vary Covered
merge_vary-same [] token n h = absurd (n refl)
merge_vary-same (c ∷ value) token n h = rw h refl

-- Whatever Vary value the upstream sent, the merged value names the token or is a star, and merging
-- again changes nothing. The token is one trimmed part that is not empty.
pub merge_vary-merge_vary :
    (existing token : Str)
    → token ≢ []
    → trim_space token ≡ token
    → Lacks b',' token
    → Covered token (merge_vary existing token)
      × (merge_vary (merge_vary existing token) token ≡ merge_vary existing token)
merge_vary-merge_vary existing token n h l =
    let covered = merge_vary-Covered existing token h l in
    (covered, merge_vary-same _ token (merge_vary-ne-nil existing token n) covered)
