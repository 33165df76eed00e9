-- ===== src/Filters/RateLimiter/Cost.antt =====
-- The cost of a request: requestCost of internal/filters/rate_limiter/filter.go, with
-- strconv.ParseInt in base 10 on 64 bits.
use hypergate_engine.Prelude.{
  ℕ, zero, suc, ◌+◌, ◌-◌, ◌*◌, ◌^◌, ◌≤◌, not, [], ◌∷◌, Option, none, some, ℤ, pos, negsuc,
  if◌then◌else◌, ◌==◌, nat_eq, list_eq, ltb, leb, ◌&&◌, arith, ◌≡◌, refl, sym, subst, if_ind,
  Bool-cases, inl, inr,
}
use hypergate_engine.Prelude.Text.{Str, to_lower}
use hypergate_engine.Engine.Context.{RequestContext}
use hypergate_engine.Engine.Access.{get_header}
use hypergate_engine.Filters.RateLimiter.Options.{FilterOptions, apply_defaults, at_least_one}

-- The digits of a text, added to `n`; `none` at another byte.
digits : ℕ → Str → Option ℕ
digits n [] = some n
digits n (c ∷ s) =
    let rest = digits (n * 10 + (c - b'0')) s in if leb b'0' c && leb c b'9' then rest else none

magnitude : Str → Option ℕ
unfolding digits
magnitude [] = none
magnitude (c ∷ s) = digits 0 (c ∷ s)

abbrev to_positive : Option ℕ → Option ℤ
to_positive none = none
to_positive (some n) = if ltb n (2 ^ 63) then some (pos n) else none

abbrev to_negative : Option ℕ → Option ℤ
to_negative none = none
to_negative (some zero) = some (pos zero)
to_negative (some (suc n)) = if ltb n (2 ^ 63) then some (negsuc n) else none

unfoldable pub parse_int : Str → Option ℤ
unfolding magnitude
parse_int [] = none
parse_int (c ∷ s) =
    if c == b'-'
    then to_negative (magnitude s)
    else if c == b'+'
    then to_positive (magnitude s)
    else to_positive (magnitude (c ∷ s))

-- A parsed cost counts from one on.
abbrev positive_or : Option ℤ → ℤ → ℤ
positive_or (some (pos (suc n))) d = pos (suc n)
positive_or _ d = d

-- A cap counts from one on.
abbrev capped : ℤ → ℤ → ℤ
capped (pos (suc m)) (pos n) = if ltb (suc m) n then pos (suc m) else pos n
capped _ cost = cost

unfoldable pub request_cost : FilterOptions → RequestContext → ℤ
unfolding parse_int get_header
request_cost o c =
    let d = o.dynamic_cost in
    if not d.enabled
    then pos 1
    else capped d.max_allowed_cost
        (positive_or (parse_int (get_header c d.source_header)) d.default_fallback_cost)

abbrev pub cap_of : ℤ → ℕ → ℕ
cap_of (pos (suc m)) n = suc m
cap_of _ n = n

Positive : ℤ → Type 0
Positive z = (n : ℕ) × (z ≡ pos (suc n))

at_least_one-Positive : (z : ℤ) → Positive (at_least_one z)
unfolding Positive
at_least_one-Positive (pos zero) = (0, refl)
at_least_one-Positive (pos (suc n)) = (n, refl)
at_least_one-Positive (negsuc n) = (0, refl)

positive_or-Positive : (o : Option ℤ) (d : ℤ) → Positive d → Positive (positive_or o d)
unfolding Positive
positive_or-Positive none d h = h
positive_or-Positive (some (pos zero)) d h = h
positive_or-Positive (some (pos (suc n))) d h = (n, refl)
positive_or-Positive (some (negsuc n)) d h = h

InBounds : ℤ → ℤ → Type 0
InBounds cap z = (n : ℕ) × (z ≡ pos n) × (1 ≤ n) × (n ≤ cap_of cap n)

capped-InBounds : (cap : ℤ) (n : ℕ) → InBounds cap (capped cap (pos (suc n)))
unfolding InBounds
capped-InBounds (pos zero) n = (suc n, refl, omega arith, omega arith)
capped-InBounds (negsuc m) n = (suc n, refl, omega arith, omega arith)
capped-InBounds (pos (suc m)) n = elim (Bool-cases (ltb (suc m) (suc n))) [
  | inl e ↦ (suc m, rw e refl, omega arith, omega arith)
  | inr e ↦ (suc n, rw e refl, omega arith, ground arith)
]

one-InBounds : (cap : ℤ) → InBounds cap (pos 1)
unfolding InBounds
one-InBounds (pos zero) = (1, refl, omega arith, omega arith)
one-InBounds (pos (suc m)) = (1, refl, omega arith, omega arith)
one-InBounds (negsuc m) = (1, refl, omega arith, omega arith)

-- Whatever a client sends as its cost, and whatever the settings, a request costs one unit at least,
-- and no more than the cap, where there is one.
pub request_cost-bounds :
    (o : FilterOptions) (c : RequestContext)
    → (n : ℕ) × (request_cost (apply_defaults o) c ≡ pos n)
      × (1 ≤ n)
      × (n ≤ cap_of o.dynamic_cost.max_allowed_cost n)
unfolding request_cost apply_defaults InBounds Positive
request_cost-bounds o c =
    let cap = o.dynamic_cost.max_allowed_cost in
    let (n, e) =
      positive_or-Positive (parse_int (get_header c (to_lower o.dynamic_cost.source_header)))
        (at_least_one o.dynamic_cost.default_fallback_cost)
        (at_least_one-Positive o.dynamic_cost.default_fallback_cost) in
    if_ind (InBounds cap) (not o.dynamic_cost.enabled) (one-InBounds cap)
      (subst (λ z. InBounds cap (capped cap z)) (sym e) (capped-InBounds cap n))
