-- ===== src/Filters/ApiKey/Replay.antt =====
-- What an account gives a request, and the local cache that repeats it
-- (Execute of internal/filters/api_key/api_key.go).
pub mod Orders
pub mod Contexts
pub mod Laws
use hypergate_engine.Prelude.{
  ℕ, Bool, true, not, List, [], ◌∷◌, ◌++◌, Option, none, some, if◌then◌else◌, ◌==◌, nat_eq, list_eq,
  ◌≡◌, refl, ap, ◌∙◌, All, eq_false, if_ind, subst, ◌&&◌, ◌||◌,
}
use hypergate_engine.Prelude.Text.{Str, lit, has_prefix}
use hypergate_engine.Prelude.Text.Pieces.{Lacks}
use hypergate_engine.Prelude.Maps.{Map}
use hypergate_engine.Engine.Context.{RequestContext, block}
use hypergate_engine.Engine.Access.{set_header_upstream}
use hypergate_engine.Engine.Filter.{Err, Outcome}
use hypergate_engine.Filters.ApiKey.Settings.{Settings}
use hypergate_engine.Filters.ApiKey.Cache.{
  encode_headers, decode_headers, encode_denial, denial_of, IsLine, decode_headers-encode,
}
use hypergate_engine.Filters.ApiKey.Execute.{
  Services, Account, find_key, strip_credentials, query_redis, redis_key,
}

-- strings.Contains.
unfoldable pub contains : Str → Str → Bool
unfolding has_prefix
contains [] sub = has_prefix [] sub
contains (c ∷ s) sub = has_prefix (c ∷ s) sub || contains s sub

unfoldable pub set_headers : List (Str × Str) → RequestContext → RequestContext
unfolding set_header_upstream
set_headers [] c = c
set_headers ((k, v) ∷ hs) c = set_headers hs (set_header_upstream k v c)

pub data Answer : Type 0 where
  denied : ℕ → Str → Answer
  granted : Map Str Str → Answer

abbrev invalid_key : Answer
invalid_key = Answer.denied 401 (lit "Unauthorized: Invalid API Key")

-- Steps D and E, for an account that Redis told of; `none` where it could not be reached.
unfoldable pub answer_of : Settings → Account → Option Answer
answer_of s Account.unreachable = none
answer_of s Account.unknown = some invalid_key
answer_of s (Account.known headers status) =
    if s.status_check.enabled && not (status == s.status_check.expected_value)
    then some (Answer.denied 403 (lit "Forbidden: Account is " ++ status))
    else some (Answer.granted headers)

unfoldable pub give : Settings → Str → Answer → RequestContext → RequestContext
unfolding block set_headers strip_credentials
give s name (Answer.denied status reason) c = block status reason c
give s name (Answer.granted headers) c = strip_credentials s name (set_headers headers c)

-- The entry that is cached for an answer, and for how many seconds.
unfoldable pub entry_of : Answer → Str × ℕ
unfolding encode_denial encode_headers
entry_of (Answer.denied status reason) = (encode_denial reason, 10)
entry_of (Answer.granted headers) = (encode_headers headers, 30)

abbrev replay_reason : Settings → Str → Str → Option Str → RequestContext → RequestContext
replay_reason s name entry (some reason) c =
    block (if contains reason (lit "Forbidden") then 403 else 401) reason c
replay_reason s name entry none c = strip_credentials s name (set_headers (decode_headers entry) c)

-- Step C, where there is an entry.
unfoldable pub replay : Settings → Str → Str → RequestContext → RequestContext
unfolding denial_of decode_headers contains block set_headers strip_credentials
replay s name entry c = replay_reason s name entry (denial_of entry) c

-- The error, which leaves the body as it is.
abbrev unavailable : RequestContext → RequestContext
unavailable c = record c { verdict = record c.verdict { blocked = true; response_status = 500 } }

abbrev connection_error : Err
connection_error = lit "redis connection error"

module _ {W : Type 0} (lib : Services W) (s : Settings) where
  -- An answer whose headers stand in the order of one range over their map.
  abbrev ranged : Answer → W → Answer × W
  ranged (Answer.denied status reason) w = (Answer.denied status reason, w)
  ranged (Answer.granted headers) w = let (hs, v) = lib.range headers w in (Answer.granted hs, v)

  abbrev answered : Str → Str → RequestContext → Option Answer → W → Outcome W
  answered key name c none w = record {
    context = unavailable c;
    world = w;
    error = some connection_error;
  }
  answered key name c (some a) w =
      let (sent, v) = ranged a w in
      let (kept, u) = ranged a v in
      let (entry, ttl) = entry_of kept in
      record { context = give s name sent c; world = lib.cache_set key entry ttl u; error = none }

  abbrev with_entry : Str → Str → RequestContext → Option Str → W → Outcome W
  with_entry key name c (some entry) w = record {
    context = replay s name entry c;
    world = w;
    error = none;
  }
  with_entry key name c none w =
      let (account, v) = query_redis lib s key w in answered key name c (answer_of s account) v

  abbrev with_key : Option (Str × Str) → RequestContext → W → Outcome W
  with_key none c w = record {
    context = block 401 (lit "Unauthorized: Missing API Key") c;
    world = w;
    error = none;
  }
  with_key (some (api_key, name)) c w =
      let key = redis_key lib s api_key in with_entry key name c (lib.cache_get key w) w

  unfoldable pub execute : RequestContext → W → Outcome W
  unfolding find_key redis_key query_redis answer_of give entry_of replay
  execute c w = with_key (find_key s c s.key_names) c w
