-- ===== src/Examples/Keys.antt =====
-- API keys: the entries of the local cache and what they give a request.
use mathlib.Core.List.{Permᴰ}
use mathlib.Core.List.Permᴰ
use hypergate_engine.Prelude.{
  true, [], ◌∷◌, ◌++◌, ◌≡◌, refl, list_beq, arith, nat_eq, List, ◌≤◌, eq_iff, eq_false_ne, list_eq,
}
use hypergate_engine.Prelude.Text.{Str, lit, to_lower}
use hypergate_engine.Filters.ApiKey.Settings.{Settings}
use hypergate_engine.Filters.ApiKey.Cache.{
  encode_headers, decode_headers, newline, decode_headers-encode, decode_headers-smuggled,
}
use hypergate_engine.Filters.ApiKey.Execute.{Account}
use hypergate_engine.Filters.ApiKey.Replay.{Answer, answer_of, entry_of, give, replay}
use hypergate_engine.Filters.ApiKey.Replay.Orders.{spellings}
use hypergate_engine.Filters.ApiKey.Replay.Contexts.{IsSameRequest}
use hypergate_engine.Filters.ApiKey.Replay.Laws.{IsRanged, replay-entry_of}
use hypergate_engine.Examples.Data.{request}
use hypergate_engine.Examples.Headers.{no_changes-IsMirrored}

abbrev settings : Settings
settings = record {
  key_names = lit "x-api-key" ∷ [];
  key_in_header = true;
  key_in_query = true;
  hide_credentials = true;
  redis_service = lit "r";
  redis_key_prefix = lit "apikey:";
  hash_algorithm = lit "sha256";
  value_format = lit "hash";
  delimiter = [];
  status_check = record { enabled = true; field_name = lit "status"; expected_value = lit "ok" };
  output_mappings = [];
}

abbrev plan_headers : List (Str × Str)
plan_headers = (lit "x-p", lit "a=b") ∷ (lit "x-t", lit "t") ∷ []

-- The other order in which a loop may visit them.
abbrev reversed : List (Str × Str)
reversed = (lit "x-t", lit "t") ∷ (lit "x-p", lit "a=b") ∷ []

plan_headers-once : (j : Str) → spellings j plan_headers ≤ 1
unfolding spellings to_lower list_beq
plan_headers-once j =
    ground
      (arith, eq_iff (lit "x-p") j, eq_iff (lit "x-t") j, eq_false_ne (lit "x-p") (lit "x-t") refl)

replay-entry_of_example :
    IsSameRequest
      (give settings (lit "x-api-key") (Answer.granted plan_headers) request)
      (replay settings (lit "x-api-key") (entry_of (Answer.granted reversed)).0 request)
unfolding answer_of list_beq
replay-entry_of_example =
    replay-entry_of settings (lit "x-api-key") (Account.known plan_headers (lit "ok"))
      (Answer.granted plan_headers) (Answer.granted plan_headers) (Answer.granted reversed) request
      refl (IsRanged.reordered plan_headers plan_headers (Permᴰ.refl plan_headers))
      (IsRanged.reordered plan_headers reversed (Permᴰ.swap refl refl)) (omega arith)
      plan_headers-once no_changes-IsMirrored

decode_headers-encode_example :
    decode_headers (encode_headers ((lit "x-p", lit "a=b") ∷ [])) ≡ (lit "x-p", lit "a=b") ∷ []
decode_headers-encode_example = decode_headers-encode ((lit "x-p", lit "a=b") ∷ []) (omega arith)

decode_headers-smuggled_example :
    decode_headers
      (encode_headers ((lit "n", lit "a" ++ newline ∷ (lit "r" ++ b'=' ∷ lit "z")) ∷ []))
    ≡ (lit "n", lit "a") ∷ (lit "r", lit "z") ∷ decode_headers (encode_headers [])
decode_headers-smuggled_example =
    decode_headers-smuggled (lit "n") (lit "a") (lit "r") (lit "z") [] (omega arith) (omega arith)
