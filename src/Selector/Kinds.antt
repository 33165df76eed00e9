-- ===== src/Selector/Kinds.antt =====
-- The prefixes of selectors and the sides they may stand on (internal/selector/selector.go).
use hypergate_engine.Prelude.{
  Bool, true, false, not, List, [], ◌∷◌, Option, none, some, if◌then◌else◌, ◌==◌, nat_eq, list_eq,
  list_beq, ◌≡◌, refl,
}
use hypergate_engine.Prelude.Text.{Str, lit}

pub data Side : Type 0 where
  source destination : Side

pub data Kind : Type 0 where
  any ip cidr host external service namespace sa spiffe labels : Kind

pub record KindInfo : Type 0 where
  pub name : Str
  pub as_source : Bool
  pub as_destination : Bool
  pub needs_value : Bool
  pub workload : Bool

unfoldable pub info : Kind → KindInfo
info any = record {
  name = lit "any";
  as_source = true;
  as_destination = true;
  needs_value = false;
  workload = false;
}
info ip = record {
  name = lit "ip";
  as_source = true;
  as_destination = true;
  needs_value = true;
  workload = false;
}
info cidr = record {
  name = lit "cidr";
  as_source = true;
  as_destination = true;
  needs_value = true;
  workload = false;
}
info host = record {
  name = lit "host";
  as_source = false;
  as_destination = true;
  needs_value = true;
  workload = false;
}
info external = record {
  name = lit "external";
  as_source = true;
  as_destination = false;
  needs_value = false;
  workload = true;
}
info service = record {
  name = lit "service";
  as_source = true;
  as_destination = true;
  needs_value = true;
  workload = true;
}
info namespace = record {
  name = lit "namespace";
  as_source = true;
  as_destination = true;
  needs_value = true;
  workload = true;
}
info sa = record {
  name = lit "sa";
  as_source = true;
  as_destination = false;
  needs_value = true;
  workload = true;
}
info spiffe = record {
  name = lit "spiffe";
  as_source = true;
  as_destination = false;
  needs_value = true;
  workload = true;
}
info labels = record {
  name = lit "labels";
  as_source = true;
  as_destination = false;
  needs_value = true;
  workload = true;
}

abbrev all_kinds : List Kind
all_kinds = any ∷ ip ∷ cidr ∷ host ∷ external ∷ service ∷ namespace ∷ sa ∷ spiffe ∷ labels ∷ []

unfoldable pub named : List Kind → Str → Option Kind
unfolding info
named [] name = none
named (k ∷ ks) name = if (info k).name == name then some k else named ks name

unfoldable pub kind_by_name : Str → Option Kind
unfolding named
kind_by_name name = named all_kinds name

-- A prefix that the side does not allow.
unfoldable pub disallowed : Kind → Side → Bool
unfolding info
disallowed k source = not (info k).as_source
disallowed k destination = not (info k).as_destination

-- Every prefix names its kind, and no other.
pub kind_by_name-name : (k : Kind) → kind_by_name (info k).name ≡ some k
unfolding kind_by_name list_beq
kind_by_name-name any = refl
kind_by_name-name _ = refl
