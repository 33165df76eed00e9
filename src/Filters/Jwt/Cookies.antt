-- ===== src/Filters/Jwt/Cookies.antt =====
-- The token in a cookie: extractCookie and removeCookie of internal/filters/jwt_auth/jwt_auth.go.
use hypergate_engine.Prelude.{
  Bool, true, false, List, [], ◌∷◌, ◌++◌, ◌≡◌, ◌≢◌, if_ind, refl, ◌&&◌, if◌then◌else◌, ◌==◌, eq_iff,
  nat_eq, list_eq, Bool-cases, inl, inr, arith, ap, ◌∙◌, subst, All,
}
use hypergate_engine.Prelude.Text.{
  Str, lit, cut, split, join, trim_space, cons_head, split-append, split-ne_nil,
}
use hypergate_engine.Prelude.Text.Pieces.{
  Lacks, split-AllLack, split-Lacks, join-cons, trim_space-Lacks, trim_space-trim_space,
  trim_space-cons,
}

abbrev semicolon : Str
semicolon = lit "; "

-- The test that the part of a cookie header is the cookie `name`.
named : Str → Str → Bool
unfolding cut
named name part = let (key, value, found) = cut b'=' part in found && key == name

abbrev value_of : Str → Str
value_of part = let (key, value, found) = cut b'=' part in value

first_cookie : Str → List Str → Str
unfolding named trim_space
first_cookie name [] = []
first_cookie name (p ∷ ps) =
    let rest = first_cookie name ps in
    let part = trim_space p in if named name part then value_of part else rest

unfoldable pub extract_cookie : Str → Str → Str
unfolding first_cookie
extract_cookie header name = first_cookie name (split b';' header)

-- The parts that removeCookie keeps, and whether it dropped one.
kept_cookies : Str → List Str → List Str × Bool
unfolding named trim_space
kept_cookies name [] = ([], false)
kept_cookies name (p ∷ ps) =
    let (kept, removed) = kept_cookies name ps in
    let part = trim_space p in
    if part == []
    then (kept, removed)
    else if named name part
    then (kept, true)
    else (part ∷ kept, removed)

unfoldable pub remove_cookie : Str → Str → Str × Bool
unfolding kept_cookies
remove_cookie header name =
    let (kept, removed) = kept_cookies name (split b';' header) in (join semicolon kept, removed)

-- A part as removeCookie keeps it.
IsPart : Str → Type 0
IsPart p = (trim_space p ≡ p) × Lacks b';' p

kept_cookies-IsPart :
    (name : Str) (ps : List Str) → All (Lacks b';') ps → All IsPart ((kept_cookies name ps).0)
unfolding kept_cookies IsPart
kept_cookies-IsPart name [] h = tt
kept_cookies-IsPart name (p ∷ ps) (hp, h) =
    let rest = kept_cookies-IsPart name ps h in
    if_ind {A = List Str × Bool} (λ k. All IsPart k.0) (trim_space p == []) rest
      (if_ind {A = List Str × Bool} (λ k. All IsPart k.0) (named name (trim_space p)) rest
        ((trim_space-trim_space p, trim_space-Lacks b';' p hp), rest))

first_cookie-trim :
    (name w v : Str) (ws : List Str)
    → trim_space w ≡ trim_space v
    → first_cookie name (w ∷ ws) ≡ first_cookie name (v ∷ ws)
unfolding first_cookie
first_cookie-trim name w v ws h = rw h refl

first_cookie-space :
    (name : Str) (ws : List Str)
    → ws ≢ []
    → first_cookie name (cons_head b' ' ws) ≡ first_cookie name ws
first_cookie-space name [] h = absurd (h refl)
first_cookie-space name (w ∷ ws) h = first_cookie-trim name (b' ' ∷ w) w ws (trim_space-cons w)

first_cookie-rest :
    (name p : Str) (ws vs : List Str)
    → first_cookie name ws ≡ first_cookie name vs
    → first_cookie name (p ∷ ws) ≡ first_cookie name (p ∷ vs)
unfolding first_cookie
first_cookie-rest name p ws vs h = rw h refl

split-space : (s : Str) → split b';' (b' ' ∷ s) ≡ cons_head b' ' (split b';' s)
unfolding split
split-space s = refl

-- Reading a header that was joined from parts is reading the parts.
first_cookie-join :
    (name : Str) (ps : List Str)
    → All IsPart ps
    → first_cookie name (split b';' (join semicolon ps)) ≡ first_cookie name ps
unfolding IsPart
first_cookie-join name [] h = unfold join split first_cookie named cut trim_space in refl
first_cookie-join name (p ∷ []) ((ht, hl), h) =
    unfold join in ap (first_cookie name) (split-Lacks b';' p hl)
first_cookie-join name (p ∷ q ∷ ps) ((ht, hl), h) =
    let tail = join semicolon (q ∷ ps) in
    ap (λ s. first_cookie name (split b';' s)) (join-cons semicolon p q ps)
    ∙ ap (first_cookie name) (
        split-append b';' p (b' ' ∷ tail)
        ∙ ap (λ ws. ws ++ split b';' (b' ' ∷ tail)) (split-Lacks b';' p hl)
        ∙ ap (λ ws. p ∷ ws) (split-space tail))
    ∙ first_cookie-rest name p _ _ (
        first_cookie-space name (split b';' tail) (split-ne_nil b';' tail)
        ∙ first_cookie-join name (q ∷ ps) h)

named-same :
    (name part : Str) → named name part ≡ true → (other : Str) → named other part ≡ (name == other)
unfolding named
named-same name part h other =
    let (key, value, found) = cut b'=' part in
    ground (arith, eq_iff key name, eq_iff key other, eq_iff name other)

named-empty : (name part : Str) → (part == []) ≡ true → named name part ≡ false
unfolding named cut
named-empty name part h = rw ((eq_iff part []).0 h) refl

named-other :
    (name other part : Str)
    → named name part ≡ false
    → (name == other) ≡ true
    → named other part ≡ false
named-other name other part n h = subst (λ o. named o part ≡ false) ((eq_iff name other).0 h) n

-- What the kept parts say of every cookie.
first_cookie-kept :
    (name other : Str) (ps : List Str)
    → first_cookie other (kept_cookies name ps).0
      ≡ (if name == other then [] else first_cookie other ps)
unfolding first_cookie kept_cookies
first_cookie-kept name other [] = ground arith
first_cookie-kept name other (p ∷ ps) = elim (Bool-cases (trim_space p == [])) [
  | inl e ↦ rw (e, named-empty other _ e) (first_cookie-kept name other ps)
  | inr e ↦ elim (Bool-cases (named name (trim_space p))) [
    | inl n ↦ rw (e, n, first_cookie-kept name other ps, named-same name _ n other) (ground arith)
    | inr n ↦
        rw (e, n, trim_space-trim_space p, first_cookie-kept name other ps)
          (elim (Bool-cases (name == other)) [
            | inl h ↦ rw (h, named-other name other _ n h) refl
            | inr h ↦ rw h refl
          ])
  ]
]

-- A cookie that removeCookie removed is gone from the header it returns, whatever the header is, and
-- every other cookie is read as before.
pub extract_cookie-remove :
    (header name other : Str)
    → extract_cookie (remove_cookie header name).0 other
      ≡ (if name == other then [] else extract_cookie header other)
unfolding extract_cookie remove_cookie
extract_cookie-remove header name other =
    first_cookie-join other _ (kept_cookies-IsPart name _ (split-AllLack b';' header))
    ∙ first_cookie-kept name other (split b';' header)

removed-absent :
    (name : Str) (ps : List Str) → (kept_cookies name ps).1 ≡ false → first_cookie name ps ≡ []
unfolding first_cookie kept_cookies
removed-absent name [] h = refl
removed-absent name (p ∷ ps) h =
    ground (arith, named-empty name (trim_space p), removed-absent name ps)

-- Where removeCookie reports that it removed nothing, the cookie is not there.
pub remove_cookie-absent :
    (header name : Str) → (remove_cookie header name).1 ≡ false → extract_cookie header name ≡ []
unfolding extract_cookie remove_cookie
remove_cookie-absent header name h = removed-absent name (split b';' header) h

pub extract_cookie-empty : (name : Str) → extract_cookie [] name ≡ []
unfolding extract_cookie first_cookie split named cut trim_space
extract_cookie-empty name = refl
