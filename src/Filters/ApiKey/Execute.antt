-- ===== src/Filters/ApiKey/Execute.antt =====
-- Execute of the API key filter (internal/filters/api_key/api_key.go). `W` is the state outside the
-- request: Redis and the local cache.
use hypergate_engine.Prelude.{
  ℕ, zero, suc, ◌-◌, Bool, not, List, [], ◌∷◌, ◌++◌, Option, none, some, if◌then◌else◌, ◌==◌,
  nat_eq, list_eq, ◌&&◌, ◌||◌, all, length, map, get_elem?,
}
use hypergate_engine.Prelude.Text.{Str, lit, to_lower, cut, has_prefix, cons_head}
use hypergate_engine.Prelude.Maps.{Map, insert}
use hypergate_engine.Engine.Context.{RequestContext}
use hypergate_engine.Engine.Access.{get_header, remove_header_upstream, set_path}
use hypergate_engine.Filters.Query.{query_parts, query_first, keep_if, with_query}
use hypergate_engine.Filters.ApiKey.Settings.{Settings, OutputMapping}

-- The digests in hexadecimal, gjson, the Redis commands and the local cache. A command gives `none`
-- where the connection fails, and a missing value is read as empty; `json` gives `none` where the
-- path does not exist. `range` is the order in which one `for range` visits a map's entries: Go picks
-- it anew for each loop, so that it is drawn from the world.
pub record Services (W : Type 0) : Type 0 where
  pub sha256 : Str → Str
  pub md5 : Str → Str
  pub json : Str → Str → Option Str
  pub get : Str → W → Option Str × W
  pub hmget : Str → List Str → W → Option (List Str) × W
  pub exists : Str → W → Option ℕ × W
  pub range : Map Str Str → W → Map Str Str × W
  pub cache_get : Str → W → Option Str
  pub cache_set : Str → Str → ℕ → W → W

-- The loop of extractQueryParam on a part: it ends at a part of that name, with or without a value.
part_named : Str → Str → Option Str
unfolding cut
part_named name part =
    let (key, value, found) = cut b'=' part in if key == name then some value else none

abbrev or_empty : Option Str → Str
or_empty none = []
or_empty (some v) = v

unfoldable pub extract_query_param : Str → Str → Str
unfolding part_named query_first
extract_query_param path name = or_empty (query_first (part_named name) path)

keeps_part : Str → Str → Bool
unfolding cut
keeps_part name part = let (key, value, found) = cut b'=' part in not (key == name)

unfoldable pub strip_query_param : Str → Str → Str
unfolding keeps_part query_parts keep_if with_query
strip_query_param path name =
    let (base, query, found) = cut b'?' path in
    if found
    then with_query base (keep_if (keeps_part name) (query_parts (length query) query))
    else path

-- The key of the first name that has one, with the name.
unfoldable pub find_key : Settings → RequestContext → List Str → Option (Str × Str)
unfolding get_header extract_query_param
find_key s c [] = none
find_key s c (name ∷ names) =
    let rest = find_key s c names in
    let header = get_header c (to_lower name) in
    let query = extract_query_param c.path name in
    if s.key_in_header && not (header == [])
    then some (header, name)
    else if s.key_in_query && not (query == [])
    then some (query, name)
    else rest

unfoldable pub strip_credentials : Settings → Str → RequestContext → RequestContext
unfolding strip_query_param remove_header_upstream set_path
strip_credentials s name c =
    let h = if s.key_in_header then remove_header_upstream name c else c in
    let stripped = strip_query_param h.path name in
    if s.hide_credentials && not (name == [])
    then (if s.key_in_query && not (stripped == h.path) then set_path stripped h else h)
    else c

-- strings.Split by a delimiter that is not empty; the second argument counts the bytes of the
-- delimiter that are still to be passed over.
split_by : Str → ℕ → Str → List Str
unfolding has_prefix
split_by d skip [] = [] ∷ []
split_by d (suc skip) (c ∷ s) = split_by d skip s
split_by d zero (c ∷ s) =
    let rest = split_by d (length d - 1) s in
    let longer = split_by d zero s in if has_prefix (c ∷ s) d then [] ∷ rest else cons_head c longer

-- `headerValues[mapping.TargetHeader] = parts[i]`, for each mapping that has a part.
unfoldable pub fill_headers : List OutputMapping → List Str → Map Str Str → Map Str Str
unfolding insert
fill_headers [] parts m = m
fill_headers (o ∷ os) [] m = m
fill_headers (o ∷ os) (p ∷ parts) m = fill_headers os parts (insert o.target_header p m)

-- What Redis says of a key: it cannot be reached, the key is unknown, or the key has header values
-- and a status.
pub data Account : Type 0 where
  unreachable unknown : Account
  known : Map Str Str → Str → Account

abbrev field_of : OutputMapping → Str
field_of o = o.redis_field

abbrev all_empty : List Str → Bool
all_empty vs = all (λ (v : Str). v == []) vs

abbrev plain_account : Settings → Option Str → Account
plain_account s none = Account.unreachable
plain_account s (some []) = Account.unknown
plain_account s (some (c ∷ reply)) =
    let d = if s.delimiter == [] then lit "|" else s.delimiter in
    Account.known (fill_headers s.output_mappings (split_by d zero (c ∷ reply)) []) []

abbrev existing : Option ℕ → Account
existing none = Account.unreachable
existing (some zero) = Account.unknown
existing (some (suc n)) = Account.known [] []

abbrev hash_account : Settings → Option (List Str) → Account
hash_account s none = Account.unreachable
hash_account s (some reply) =
    if all_empty reply
    then Account.unknown
    else Account.known (fill_headers s.output_mappings reply []) (
        if s.status_check.enabled
        then or_empty (get_elem? reply (length s.output_mappings))
        else [])

module _ {W : Type 0} (lib : Services W) (s : Settings) where
  json_headers : Str → List OutputMapping → Map Str Str → Map Str Str
  unfolding insert
  json_headers reply [] m = m
  json_headers reply (o ∷ os) m =
      json_headers reply os
        (elim (lib.json reply o.json_path) [ none ↦ m | some v ↦ insert o.target_header v m ])

  abbrev json_account : Option Str → Account
  json_account none = Account.unreachable
  json_account (some []) = Account.unknown
  json_account (some (c ∷ reply)) = Account.known (json_headers (c ∷ reply) s.output_mappings []) (
      if s.status_check.enabled
      then or_empty (lib.json (c ∷ reply) s.status_check.field_name)
      else [])

  abbrev hash_fields : List Str
  hash_fields =
      map field_of s.output_mappings
      ++ (if s.status_check.enabled then s.status_check.field_name ∷ [] else [])

  abbrev query_hash : Str → List Str → W → Account × W
  query_hash key [] w = let (n, v) = lib.exists key w in (existing n, v)
  query_hash key (f ∷ fs) w = let (reply, v) = lib.hmget key (f ∷ fs) w in (hash_account s reply, v)

  -- Step D. A value format that is none of the three reads nothing.
  unfoldable pub query_redis : Str → W → Account × W
  unfolding json_headers fill_headers split_by
  query_redis key w =
      let (reply, v) = lib.get key w in
      if s.value_format == lit "plain"
      then (plain_account s reply, v)
      else if s.value_format == lit "hash"
      then query_hash key hash_fields w
      else if s.value_format == lit "json"
      then (json_account reply, v)
      else (Account.known [] [], w)

  unfoldable pub redis_key : Str → Str
  redis_key api_key =
      let hashed =
        if s.hash_algorithm == lit "sha256"
        then lib.sha256 api_key
        else if s.hash_algorithm == lit "md5"
        then lib.md5 api_key
        else if s.hash_algorithm == lit "none" || s.hash_algorithm == []
        then api_key
        else [] in
      s.redis_key_prefix ++ hashed
