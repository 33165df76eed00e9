-- ===== src/Filters/Jwt/Claims.antt =====
-- Claims and their header values: claimString and audienceContains of
-- internal/filters/jwt_auth/jwt_auth.go.
use hypergate_engine.Prelude.{
  ℕ, Bool, true, false, List, [], ◌∷◌, Option, none, some, ◌≡◌, if◌then◌else◌, ◌==◌, nat_eq,
  list_eq, ltb, ◌||◌, All, if_cases,
}
use hypergate_engine.Prelude.Text.{Str, lit, join}

-- A claim value. A number or a timestamp is held as the text that it is rendered to, another value
-- with its JSON text, `none` where it cannot be marshalled.
mutual
  pub data Claim : Type 0 where
    text : Str → Claim
    bool : Bool → Claim
    number : Str → Claim
    texts : List Str → Claim
    items : Items → Claim
    other : Option Str → Claim

  -- The elements of a `[]interface{}`.
  pub data Items : Type 0 where
    no_items : Items
    item : Claim → Items → Items

unfoldable pub is_control : ℕ → Bool
is_control c = ltb c 32 || c == 127

-- `strings.Map` with the function that drops control characters.
drop_controls : Str → Str
unfolding is_control
drop_controls [] = []
drop_controls (c ∷ s) = let rest = drop_controls s in if is_control c then rest else c ∷ rest

abbrev comma : Str
comma = lit ","

abbrev format_bool : Bool → Str
format_bool true = lit "true"
format_bool false = lit "false"

abbrev dropped_or_empty : Option Str → Str
dropped_or_empty none = []
dropped_or_empty (some s) = drop_controls s

unfoldable mutual
  unfolding drop_controls join

  pub claim_string : Claim → Str
  claim_string (Claim.text s) = drop_controls s
  claim_string (Claim.bool b) = drop_controls (format_bool b)
  claim_string (Claim.number s) = drop_controls s
  claim_string (Claim.texts ss) = drop_controls (join comma ss)
  claim_string (Claim.items is) = drop_controls (join comma (item_strings is))
  claim_string (Claim.other o) = dropped_or_empty o

  pub item_strings : Items → List Str
  item_strings Items.no_items = []
  item_strings (Items.item c is) = claim_string c ∷ item_strings is

abbrev is_text : Claim → Str → Bool
is_text (Claim.text s) want = s == want
is_text _ want = false

abbrev has_text : Items → Str → Bool
has_text Items.no_items want = false
has_text (Items.item c is) want = is_text c want || has_text is want

unfoldable pub audience_contains : Claim → Str → Bool
audience_contains (Claim.text s) want = s == want
audience_contains (Claim.items is) want = has_text is want
audience_contains _ want = false

drop_controls-All : (s : Str) → All (λ c. is_control c ≡ false) (drop_controls s)
unfolding drop_controls
drop_controls-All [] = tt
drop_controls-All (c ∷ s) =
    if_cases (All (λ d. is_control d ≡ false)) (is_control c) (λ _. drop_controls-All s)
      (λ e. (e, drop_controls-All s))

-- The header value of a claim holds no control character, so a claim cannot end its header line.
pub claim_string-All : (c : Claim) → All (λ b. is_control b ≡ false) (claim_string c)
unfolding claim_string
claim_string-All (Claim.text s) = drop_controls-All s
claim_string-All (Claim.bool b) = drop_controls-All (format_bool b)
claim_string-All (Claim.number s) = drop_controls-All s
claim_string-All (Claim.texts ss) = drop_controls-All (join comma ss)
claim_string-All (Claim.items is) = drop_controls-All (join comma (item_strings is))
claim_string-All (Claim.other none) = tt
claim_string-All (Claim.other (some s)) = drop_controls-All s
