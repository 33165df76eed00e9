-- ===== src/Filters/Deny/Laws.antt =====
-- Which requests the deny filter blocks (internal/filters/deny/deny.go).
use hypergate_engine.Prelude.{
  Bool, true, false, List, [], ◌∷◌, ◌==◌, nat_eq, list_eq, eq_iff, ◌&&◌, ◌||◌, all, All, ◌≡◌, ◌≢◌,
  ◌↔◌, ◌⊎◌, inl, inr, refl, arith, Bool-cases,
}
use hypergate_engine.Prelude.Text.{Str, lit, has_prefix}
use hypergate_engine.Engine.Context.{RequestContext}
use hypergate_engine.Engine.Access.{get_header, get_response_header}
use hypergate_engine.Filters.Deny.{
  MatchConfig, DenyFilter, expected, unexpected, regex_holds, conditions_hold, apply_block, execute,
}

-- A header condition as documented: the value wanted, or any value for a star.
abbrev pub Met : Str → Str → Type 0
Met actual want = ((want ≡ lit "*") × (actual ≢ [])) ⊎ ((want ≢ lit "*") × (actual ≡ want))

-- The conditions on a request hold.
pub record IsMatched (m : MatchConfig) (c : RequestContext) : Type 0 where
  pub prefix : (m.path_prefix ≡ []) ⊎ (has_prefix c.path m.path_prefix ≡ true)
  pub regex : regex_holds m.compiled_path_regex c.path ≡ true
  pub request : All (λ (e : Str × Str). Met (get_header c e.0) e.1) m.headers
  pub response : All (λ (e : Str × Str). Met (get_response_header c e.0) e.1) m.response_headers
  pub not_request : All (λ (e : Str × Str). Met (get_header c e.0) e.1 → ⊥) m.not_headers
  pub not_response :
      All (λ (e : Str × Str). Met (get_response_header c e.0) e.1 → ⊥) m.not_response_headers

expected_iff : (actual want : Str) → (expected actual want ≡ true) ↔ Met actual want
expected_iff actual want =
    ground (arith, eq_iff want (lit "*"), eq_iff actual [], eq_iff actual want)

unexpected_iff : (actual want : Str) → (unexpected actual want ≡ true) ↔ (Met actual want → ⊥)
unexpected_iff actual want =
    ground (arith, eq_iff want (lit "*"), eq_iff actual [], eq_iff actual want)

self_iff : (b : Bool) → (b ≡ true) ↔ (b ≡ true)
self_iff b = (λ e. e, λ e. e)

prefix_iff :
    (path prefix : Str)
    → ((prefix == [] || has_prefix path prefix) ≡ true)
      ↔ ((prefix ≡ []) ⊎ (has_prefix path prefix ≡ true))
prefix_iff path prefix = ground (arith, eq_iff prefix [])

both_iff {ℓ κ} :
    {P : Type ℓ} {Q : Type κ} (a b : Bool)
    → (a ≡ true) ↔ P
    → (b ≡ true) ↔ Q
    → ((a && b) ≡ true) ↔ (P × Q)
both_iff true b p q = (λ e. (p.0 refl, q.0 e), λ h. q.1 h.1)
both_iff false b p q = (λ e. cc, λ h. cc (p.1 h.0))

all_iff {ℓ κ} :
    {A : Type ℓ} (P : A → Type κ) (p : A → Bool) (xs : List A)
    → ((x : A) → (p x ≡ true) ↔ P x)
    → (all p xs ≡ true) ↔ All P xs
all_iff P p [] h = (λ _. tt, λ _. refl)
all_iff P p (x ∷ xs) h = both_iff (p x) (all p xs) (h x) (all_iff P p xs h)

wanted_iff :
    (read : Str → Str) (es : List (Str × Str))
    → (all (λ (e : Str × Str). expected (read e.0) e.1) es ≡ true)
      ↔ All (λ (e : Str × Str). Met (read e.0) e.1) es
wanted_iff read es = all_iff _ _ es (λ e. expected_iff (read e.0) e.1)

unwanted_iff :
    (read : Str → Str) (es : List (Str × Str))
    → (all (λ (e : Str × Str). unexpected (read e.0) e.1) es ≡ true)
      ↔ All (λ (e : Str × Str). Met (read e.0) e.1 → ⊥) es
unwanted_iff read es = all_iff _ _ es (λ e. unexpected_iff (read e.0) e.1)

conditions_hold_iff :
    (m : MatchConfig) (c : RequestContext) → (conditions_hold m c ≡ true) ↔ IsMatched m c
unfolding conditions_hold
conditions_hold_iff m c =
    let (forward, backward) =
      both_iff _ _
        (both_iff _ _
          (both_iff _ _
            (both_iff _ _
              (both_iff _ _ (prefix_iff c.path m.path_prefix)
                (self_iff (regex_holds m.compiled_path_regex c.path)))
              (wanted_iff (get_header c) m.headers))
            (wanted_iff (get_response_header c) m.response_headers))
          (unwanted_iff (get_header c) m.not_headers))
        (unwanted_iff (get_response_header c) m.not_response_headers) in
    (
      λ e.
          let (((((p, r), h), s), n), o) = forward e in
          record {
            prefix = p;
            regex = r;
            request = h;
            response = s;
            not_request = n;
            not_response = o;
          },
      λ h.
          backward
            (((((h.prefix, h.regex), h.request), h.response), h.not_request), h.not_response),
    )

-- A deny filter blocks a request that is not blocked yet exactly where it has no conditions, or where
-- each of its conditions holds: the path prefix and expression, every header wanted, no header
-- forbidden, whatever the order of the conditions.
pub execute-IsMatched :
    (f : DenyFilter) (c : RequestContext)
    → c.verdict.blocked ≡ false
    → ((execute f c).verdict.blocked ≡ true)
      ↔ ((f.has_conditions ≡ false) ⊎ IsMatched f.config.match c)
unfolding execute apply_block
execute-IsMatched f c h = elim (Bool-cases f.has_conditions) [
  | inr none_set ↦ rw none_set (λ _. inl refl, λ _. refl)
  | inl set ↦ elim (Bool-cases (conditions_hold f.config.match c)) [
    | inl met ↦ rw (set, met) (λ _. inr ((conditions_hold_iff f.config.match c).0 met), λ _. refl)
    | inr unmet ↦
        rw (set, unmet)
          (
            λ e. absurd (cc (e, h)),
            λ r. elim r [
              | inl e ↦ absurd (cc e)
              | inr m ↦ absurd (cc (unmet, (conditions_hold_iff f.config.match c).1 m))
            ],
          )
  ]
]
