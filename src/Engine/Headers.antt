-- ===== src/Engine/Headers.antt =====
-- The header lists of a request context (internal/engine/context.go): queued header changes, and
-- the slice helpers that edit them.
pub mod Keyed
pub mod Laws
use hypergate_engine.Prelude.{
  Bool, true, false, List, [], ◌∷◌, ◌++◌, Option, none, some, if◌then◌else◌, ◌==◌, nat_eq, list_eq,
}
use hypergate_engine.Prelude.Text.{Str, to_lower}
use hypergate_engine.Prelude.Maps.{Map, insert, delete}
use hypergate_engine.Engine.Headers.Keyed.{has_key, swap_remove}

pub record Header : Type 0 where
  pub key : Str
  pub value : Str
  pub append : Bool

abbrev pub header_key : Header → Str
header_key h = h.key

unfoldable pub upsert_header : List Header → Str → Str → List Header
upsert_header [] k v = record { key = k; value = v; append = false } ∷ []
upsert_header (h ∷ hs) k v =
    if h.key == k then record h { value = v } ∷ hs else h ∷ upsert_header hs k v

unfoldable pub remove_header : List Header → Str → List Header
unfolding swap_remove
remove_header hs k = swap_remove header_key hs k

unfoldable pub contains_key : List Str → Str → Bool
unfolding has_key
contains_key ks k = has_key (λ s. s) ks k

unfoldable pub append_key : List Str → Str → List Str
unfolding contains_key
append_key ks k = if contains_key ks k then ks else ks ++ k ∷ []

unfoldable pub remove_key : List Str → Str → List Str
unfolding swap_remove
remove_key ks k = swap_remove (λ s. s) ks k

-- The two lists that are sent to Envoy for one header map.
pub record Edits : Type 0 where
  pub to_add : List Header
  pub to_remove : List Str

abbrev pub no_edits : Edits
no_edits = record { to_add = []; to_remove = [] }

-- `key` is lower-cased by the callers.
unfoldable pub set_edit : Str → Str → Edits → Edits
set_edit key value e = record {
  to_add = upsert_header e.to_add key value;
  to_remove = remove_key e.to_remove key;
}

unfoldable pub remove_edit : Str → Edits → Edits
remove_edit key e = record {
  to_add = remove_header e.to_add key;
  to_remove = append_key e.to_remove key;
}

-- Headers of the request or of the response: the edits, and the shadow map that filters read.
pub record Changes : Type 0 where
  pub shadow : Map Str Str
  pub edits : Edits
  pub open edits use *

abbrev pub no_changes : Changes
no_changes = record { shadow = []; edits = no_edits }

unfoldable pub set_change : Str → Str → Changes → Changes
set_change key value c =
    let k = to_lower key in
    record { shadow = insert k value c.shadow; edits = set_edit k value c.edits }

unfoldable pub remove_change : Str → Changes → Changes
remove_change key c =
    let k = to_lower key in record { shadow = delete k c.shadow; edits = remove_edit k c.edits }

-- Trailers: the edits, and the flag that some were made.
pub record Trailers : Type 0 where
  pub edits : Edits
  pub open edits use *
  pub modified : Bool

abbrev pub no_trailers : Trailers
no_trailers = record { edits = no_edits; modified = false }

unfoldable pub set_trailer : Str → Str → Trailers → Trailers
set_trailer key value t = record { edits = set_edit (to_lower key) value t.edits; modified = true }

unfoldable pub remove_trailer : Str → Trailers → Trailers
remove_trailer key t = record { edits = remove_edit (to_lower key) t.edits; modified = true }
