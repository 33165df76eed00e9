-- ===== src/Selector/Traffic.antt =====
-- The class of a request (internal/selector/traffic.go).
use hypergate_engine.Prelude.{
  Bool, true, false, ◌||◌, [], ◌∷◌, Option, none, some, if◌then◌else◌, ◌==◌, nat_eq, list_eq,
  list_beq, Eq, ◌≡◌, refl, ◌↔◌, arith,
}
use hypergate_engine.Prelude.Text.{Str, lit, to_lower, trim_space}

pub data Traffic : Type 0 where
  any north_south east_west : Traffic

abbrev pub traffic_beq : Traffic → Traffic → Bool
traffic_beq any any = true
traffic_beq north_south north_south = true
traffic_beq east_west east_west = true
traffic_beq _ _ = false

pub traffic_beq_iff : (a b : Traffic) → (traffic_beq a b ≡ true) ↔ (a ≡ b)
traffic_beq_iff a b = ground arith

instance abbrev pub traffic_eq : Eq Traffic
traffic_eq = record { same = traffic_beq; same_iff = traffic_beq_iff }

unfoldable pub traffic_string : Traffic → Str
traffic_string north_south = lit "north_south"
traffic_string east_west = lit "east_west"
traffic_string any = lit "any"

-- The `strings.NewReplacer("-", "", "_", "")` of ParseTraffic.
unfoldable pub without_separators : Str → Str
without_separators [] = []
without_separators (c ∷ s) =
    let rest = without_separators s in if c == b'-' || c == b'_' then rest else c ∷ rest

-- `none` is the error.
unfoldable pub parse_traffic : Str → Option Traffic
unfolding to_lower trim_space without_separators
parse_traffic v =
    let n = without_separators (to_lower (trim_space v)) in
    if n == [] || n == lit "any"
    then some any
    else if n == lit "northsouth"
    then some north_south
    else if n == lit "eastwest"
    then some east_west
    else none

-- The canonical name of a class parses to it.
pub parse_traffic-traffic_string : (t : Traffic) → parse_traffic (traffic_string t) ≡ some t
unfolding parse_traffic traffic_string list_beq
parse_traffic-traffic_string any = refl
parse_traffic-traffic_string north_south = refl
parse_traffic-traffic_string east_west = refl
