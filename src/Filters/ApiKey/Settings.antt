-- ===== src/Filters/ApiKey/Settings.antt =====
-- The settings of the API key filter (internal/config/filter_apikey.go).
use hypergate_engine.Prelude.{
  Bool, not, List, [], ◌∷◌, Option, some, if◌then◌else◌, ◌==◌, nat_eq, list_eq, ◌&&◌, ◌||◌, ◌>>=◌,
  require,
}
use hypergate_engine.Prelude.Text.{Str, lit}

pub record StatusCheck : Type 0 where
  pub enabled : Bool
  pub field_name : Str
  pub expected_value : Str

pub record OutputMapping : Type 0 where
  pub target_header : Str
  pub redis_field : Str
  pub json_path : Str

pub record Settings : Type 0 where
  pub key_names : List Str
  pub key_in_header : Bool
  pub key_in_query : Bool
  pub hide_credentials : Bool
  pub redis_service : Str
  pub redis_key_prefix : Str
  pub hash_algorithm : Str
  pub value_format : Str
  pub delimiter : Str
  pub status_check : StatusCheck
  pub output_mappings : List OutputMapping

abbrev or_default : Str → Str → Str
or_default [] d = d
or_default (c ∷ s) d = c ∷ s

abbrev names_or : List Str → List Str → List Str
names_or [] ds = ds
names_or (n ∷ ns) ds = n ∷ ns

abbrev known_format : Str → Bool
known_format f = f == lit "plain" || f == lit "hash" || f == lit "json"

abbrev known_hash : Str → Bool
known_hash h = h == lit "sha256" || h == lit "md5" || h == lit "none"

-- The assignments at the head of ApplyDefaults.
unfoldable pub fill : Settings → Settings
fill s =
    let format = or_default s.value_format (lit "hash") in
    record s {
      hash_algorithm = or_default s.hash_algorithm (lit "sha256");
      redis_key_prefix = or_default s.redis_key_prefix (lit "apikey:");
      value_format = format;
      delimiter = if format == lit "plain" then or_default s.delimiter (lit "|") else s.delimiter;
      key_names = names_or s.key_names (lit "x-api-key" ∷ []);
      key_in_header = s.key_in_header || not s.key_in_query;
    }

-- ApplyDefaults: `none` is an error.
unfoldable pub apply_defaults : Settings → Option Settings
unfolding fill
apply_defaults given = do
  let s = fill given
  let check = s.status_check
  _ ← require (known_format s.value_format)
  _ ← require (not (check.enabled && s.value_format == lit "plain"))
  _ ← require (not (check.enabled && check.field_name == []))
  _ ← require (known_hash s.hash_algorithm)
  some s
