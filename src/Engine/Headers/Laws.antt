-- ===== src/Engine/Headers/Laws.antt =====
-- What the edits of internal/engine/context.go come to for one header, and the invariant that keeps
-- the two lists and the shadow map in step.
use Prim.Native.Nat.{max}
use hypergate_engine.Prelude.{
  ℕ, ◌≤◌, ◌≡◌, Bool, true, false, List, [], ◌∷◌, Option, none, some, arith, if◌then◌else◌, ◌==◌,
  eq_iff, nat_eq, list_eq,
}
use hypergate_engine.Prelude.Text.{Str, to_lower}
use hypergate_engine.Prelude.Maps.{lookup, lookup-insert, lookup-delete}
use hypergate_engine.Engine.Headers.Keyed.{
  find, count_key, has_key-eq-count, count_key-append, count_key-swap_remove, find-swap_remove,
}
use hypergate_engine.Engine.Headers.{
  Header, header_key, upsert_header, remove_header, contains_key, append_key, remove_key, Edits,
  set_edit, remove_edit, Changes, set_change, remove_change,
}

abbrev pub value_of : Option Header → Option Str
value_of none = none
value_of (some h) = some h.value

-- The value that a list of additions gives a header.
unfoldable pub added : List Header → Str → Option Str
added hs k = value_of (find header_key hs k)

abbrev pub count_headers : List Header → Str → ℕ
count_headers hs k = count_key header_key hs k

abbrev pub count_keys : List Str → Str → ℕ
count_keys ks k = count_key (λ s. s) ks k

pub data Effect : Type 0 where
  keep : Effect
  drop : Effect
  put : Str → Effect

abbrev effect_of_added : Option Str → Bool → Effect
effect_of_added (some v) _ = put v
effect_of_added none true = drop
effect_of_added none false = keep

-- What Envoy does with header `k` when it is sent the edits.
unfoldable pub effect : Edits → Str → Effect
effect e k = effect_of_added (added e.to_add k) (contains_key e.to_remove k)

-- No header is named twice in a list, and none in both.
pub record IsConsistent (e : Edits) : Type 0 where
  pub added_once : (k : Str) → count_headers e.to_add k ≤ 1
  pub removed_once : (k : Str) → count_keys e.to_remove k ≤ 1
  pub apart : (k : Str) → contains_key e.to_remove k ≡ true → added e.to_add k ≡ none

-- Filters read in the shadow map what Envoy will be told.
pub record IsMirrored (c : Changes) : Type 0 where
  pub consistent : IsConsistent c.edits
  pub mirrored : (k : Str) → lookup k c.shadow ≡ added c.to_add k

added-upsert_header :
    (hs : List Header) (k j v : Str)
    → added (upsert_header hs k v) j ≡ (if k == j then some v else added hs j)
unfolding added upsert_header find
added-upsert_header [] k j v = ground arith
added-upsert_header (h ∷ hs) k j v =
    ground (arith, added-upsert_header hs k j v, eq_iff h.key k, eq_iff h.key j, eq_iff k j)

count_headers-upsert_header :
    (hs : List Header) (k j v : Str)
    → count_headers (upsert_header hs k v) j
      ≡ (if k == j then max 1 (count_headers hs j) else count_headers hs j)
unfolding upsert_header count_key
count_headers-upsert_header [] k j v = ground arith
count_headers-upsert_header (h ∷ hs) k j v =
    ground (arith, count_headers-upsert_header hs k j v, eq_iff h.key k, eq_iff h.key j, eq_iff k j)

added-remove_header :
    (hs : List Header) (k j : Str)
    → count_headers hs j ≤ 1
    → added (remove_header hs k) j ≡ (if k == j then none else added hs j)
unfolding added remove_header
added-remove_header hs k j h = ground (arith, find-swap_remove header_key hs k j)

count_headers-remove_header :
    (hs : List Header) (k j : Str) → count_headers (remove_header hs k) j ≤ count_headers hs j
unfolding remove_header
count_headers-remove_header hs k j = ground (arith, count_key-swap_remove header_key hs k j)

pub contains_key-append_key :
    (ks : List Str) (k j : Str)
    → contains_key (append_key ks k) j ≡ (if k == j then true else contains_key ks j)
unfolding append_key contains_key count_key
contains_key-append_key ks k j = ground (
  arith,
  has_key-eq-count (λ s. s) ks k,
  has_key-eq-count (λ s. s) ks j,
  eq_iff k j,
  count_key-append (λ s. s) ks (k ∷ []) j,
  has_key-eq-count (λ s. s) (append_key ks k) j,
)

pub contains_key-remove_key :
    (ks : List Str) (k j : Str)
    → count_keys ks j ≤ 1
    → contains_key (remove_key ks k) j ≡ (if k == j then false else contains_key ks j)
unfolding contains_key remove_key
contains_key-remove_key ks k j h = ground (
  arith,
  has_key-eq-count (λ s. s) ks j,
  has_key-eq-count (λ s. s) (remove_key ks k) j,
  count_key-swap_remove (λ s. s) ks k j,
)

count_keys-append_key :
    (ks : List Str) (k j : Str) → count_keys ks j ≤ 1 → count_keys (append_key ks k) j ≤ 1
unfolding append_key contains_key count_key
count_keys-append_key ks k j h =
    ground
      (arith, has_key-eq-count (λ s. s) ks k, eq_iff k j, count_key-append (λ s. s) ks (k ∷ []) j)

count_keys-remove_key :
    (ks : List Str) (k j : Str) → count_keys (remove_key ks k) j ≤ count_keys ks j
unfolding remove_key
count_keys-remove_key ks k j = ground (arith, count_key-swap_remove (λ s. s) ks k j)

pub set_edit-IsConsistent : (k v : Str) (e : Edits) → IsConsistent e → IsConsistent (set_edit k v e)
unfolding set_edit
set_edit-IsConsistent k v e h = record {
  added_once = λ j. ground (arith, h.added_once j, count_headers-upsert_header e.to_add k j v);
  removed_once = λ j. ground (arith, h.removed_once j, count_keys-remove_key e.to_remove k j);
  apart = λ j r. ground (
    arith,
    h.apart j,
    h.removed_once j,
    contains_key-remove_key e.to_remove k j,
    added-upsert_header e.to_add k j v,
  );
}

pub remove_edit-IsConsistent :
    (k : Str) (e : Edits) → IsConsistent e → IsConsistent (remove_edit k e)
unfolding remove_edit
remove_edit-IsConsistent k e h = record {
  added_once = λ j. ground (arith, h.added_once j, count_headers-remove_header e.to_add k j);
  removed_once = λ j. ground (arith, h.removed_once j, count_keys-append_key e.to_remove k j);
  apart = λ j r. ground (
    arith,
    h.apart j,
    h.added_once j,
    contains_key-append_key e.to_remove k j,
    added-remove_header e.to_add k j,
  );
}

-- Setting a header on edits without duplicates makes Envoy put its value, whatever was queued for it
-- before, and what the edits do to every other header stays.
pub effect-set_edit :
    (k v : Str) (e : Edits) (j : Str)
    → IsConsistent e
    → effect (set_edit k v e) j ≡ (if k == j then put v else effect e j)
unfolding effect set_edit
effect-set_edit k v e j h = ground (
  arith,
  h.removed_once j,
  contains_key-remove_key e.to_remove k j,
  added-upsert_header e.to_add k j v,
)

-- Removing a header from edits without duplicates makes Envoy drop it, whatever was queued for it
-- before, and what the edits do to every other header stays.
pub effect-remove_edit :
    (k : Str) (e : Edits) (j : Str)
    → IsConsistent e
    → effect (remove_edit k e) j ≡ (if k == j then drop else effect e j)
unfolding effect remove_edit
effect-remove_edit k e j h = ground (
  arith,
  h.added_once j,
  contains_key-append_key e.to_remove k j,
  added-remove_header e.to_add k j,
)

-- Setting a header keeps the lists free of duplicates and the shadow map in step with them.
pub set_change-IsMirrored :
    (key v : Str) (c : Changes) → IsMirrored c → IsMirrored (set_change key v c)
unfolding set_change set_edit
set_change-IsMirrored key v c h = record {
  consistent = set_edit-IsConsistent (to_lower key) v c.edits h.consistent;
  mirrored = λ j. ground (
    arith,
    h.mirrored j,
    lookup-insert (to_lower key) j v c.shadow,
    added-upsert_header c.to_add (to_lower key) j v,
  );
}

-- Removing a header keeps the lists free of duplicates and the shadow map in step with them.
pub remove_change-IsMirrored :
    (key : Str) (c : Changes) → IsMirrored c → IsMirrored (remove_change key c)
unfolding remove_change remove_edit
remove_change-IsMirrored key c h = record {
  consistent = remove_edit-IsConsistent (to_lower key) c.edits h.consistent;
  mirrored = λ j. ground (
    arith,
    h.mirrored j,
    h.consistent.added_once j,
    lookup-delete (to_lower key) j c.shadow,
    added-remove_header c.to_add (to_lower key) j,
  );
}
