-- ===== src/Filters/ApiKey/Replay/Laws.antt =====
-- An answer from the local cache against the same answer from Redis
-- (Execute of internal/filters/api_key/api_key.go).
use mathlib.Core.List.Permᴰ
use mathlib.Core.List.{Permᴰ}
use hypergate_engine.Prelude.{
  ℕ, ◌≤◌, true, not, List, [], ◌∷◌, ◌++◌, Option, none, some, if◌then◌else◌, ◌==◌, nat_eq, list_eq,
  ◌≡◌, refl, ap, sym, ◌∙◌, All, arith, eq_false, if_ind, subst, ◌&&◌,
}
use hypergate_engine.Prelude.Text.{Str, lit, has_prefix}
use hypergate_engine.Prelude.Text.Pieces.{Lacks}
use hypergate_engine.Prelude.Maps.{Map}
use hypergate_engine.Engine.Headers.Laws.{IsMirrored}
use hypergate_engine.Engine.Context.{RequestContext, block}
use hypergate_engine.Filters.ApiKey.Settings.{Settings}
use hypergate_engine.Filters.ApiKey.Cache.{
  encode_headers, encode_denial, denial_of, IsLine, decode_headers-encode,
}
use hypergate_engine.Filters.ApiKey.Execute.{Account, strip_credentials}
use hypergate_engine.Filters.ApiKey.Replay.{
  contains, set_headers, Answer, answer_of, give, entry_of, replay, replay_reason,
}
use hypergate_engine.Filters.ApiKey.Replay.Orders.{spellings, spellings-Permᴰ, All-Permᴰ}
use hypergate_engine.Filters.ApiKey.Replay.Contexts.{
  IsSameRequest, Matched-IsSameRequest, set_headers-Matched, strip_credentials-Matched,
}

-- An answer whose header names and values the cache can hold.
abbrev pub IsCacheable : Answer → Type 0
IsCacheable (Answer.denied status reason) = Unit
IsCacheable (Answer.granted headers) = All (λ h. IsLine h × Lacks 0 (h.0)) headers

-- No header of the answer is spelled in two ways.
abbrev pub IsSpelledOnce : Answer → Type 0
IsSpelledOnce (Answer.denied status reason) = Unit
IsSpelledOnce (Answer.granted headers) = (j : Str) → spellings j headers ≤ 1

-- The answer in the order of one range over its headers.
pub data IsRanged : Answer → Answer → Type 0 where
  same :
      (status : ℕ) (reason : Str)
      → IsRanged (Answer.denied status reason) (Answer.denied status reason)
  reordered :
      (hs gs : List (Str × Str)) → Permᴰ hs gs → IsRanged (Answer.granted hs) (Answer.granted gs)

lines_of : (hs : List (Str × Str)) → All (λ h. IsLine h × Lacks 0 (h.0)) hs → All IsLine hs
lines_of [] h = tt
lines_of ((k, v) ∷ hs) ((l, z), h) = (l, lines_of hs h)

first_byte : (k s : Str) → Lacks 0 k → denial_of (k ++ b'=' ∷ s) ≡ none
unfolding denial_of
first_byte [] s h = refl
first_byte (b ∷ k) s (hb, h) = rw (eq_false b 0 hb) refl

denial_of-encode :
    (hs : List (Str × Str))
    → All (λ h. IsLine h × Lacks 0 (h.0)) hs
    → denial_of (encode_headers hs) ≡ none
unfolding encode_headers
denial_of-encode [] h = unfold denial_of in refl
denial_of-encode ((k, v) ∷ hs) ((l, z), h) = first_byte k _ z

replay-granted :
    (s : Settings) (name : Str) (headers : Map Str Str) (c : RequestContext)
    → IsCacheable (Answer.granted headers)
    → replay s name (encode_headers headers) c ≡ strip_credentials s name (set_headers headers c)
unfolding replay
replay-granted s name headers c h =
    ap (λ o. replay_reason s name (encode_headers headers) o c) (denial_of-encode headers h)
    ∙ ap (λ hs. strip_credentials s name (set_headers hs c))
        (decode_headers-encode headers (lines_of headers h))

-- The status of a denial is the one that its reason is read back with.
Consistent : Option Answer → Type 0
Consistent none = Unit
Consistent (some (Answer.granted headers)) = Unit
Consistent (some (Answer.denied status reason)) =
    (if contains reason (lit "Forbidden") then 403 else 401) ≡ status

forbidden-contains :
    (status : Str) → contains (lit "Forbidden: Account is " ++ status) (lit "Forbidden") ≡ true
unfolding contains has_prefix
forbidden-contains status = refl

answer_of-Consistent : (s : Settings) (account : Account) → Consistent (answer_of s account)
unfolding Consistent answer_of
answer_of-Consistent s Account.unreachable = tt
answer_of-Consistent s Account.unknown = unfold contains has_prefix in refl
answer_of-Consistent s (Account.known headers status) =
    if_ind Consistent (s.status_check.enabled && not (status == s.status_check.expected_value))
      (rw (forbidden-contains status) refl) tt

replay-denied :
    (s : Settings) (name : Str) (status : ℕ) (reason : Str) (c : RequestContext)
    → Consistent (some (Answer.denied status reason))
    → replay s name (encode_denial reason) c ≡ block status reason c
unfolding replay encode_denial denial_of Consistent
replay-denied s name status reason c h = ap (λ n. block n reason c) h

IsSameRequest-refl : (c : RequestContext) → IsSameRequest c c
IsSameRequest-refl c = record { rest = refl; effects = λ j. refl; reads = λ j. refl }

-- An answer that Redis gives a request and its entry in the local cache, which range over the answer's
-- headers in two orders of their own, leave the request the same: with the same verdict and path, the
-- same credentials removed, and the same done to every header. The names and values of the headers hold
-- no byte that the cache's lines give a meaning, no name is spelled in two ways, and the changes that
-- are queued already are in step with what filters read.
pub replay-entry_of :
    (s : Settings) (name : Str) (account : Account) (a sent kept : Answer) (c : RequestContext)
    → answer_of s account ≡ some a
    → IsRanged a sent
    → IsRanged a kept
    → IsCacheable a
    → IsSpelledOnce a
    → IsMirrored c.upstream
    → IsSameRequest (give s name sent c) (replay s name (entry_of kept).0 c)
unfolding entry_of give
replay-entry_of s name account _ _ _ c e (IsRanged.reordered hs gs p) (IsRanged.reordered _ ks q) l
      o m =
    subst (IsSameRequest (strip_credentials s name (set_headers gs c)))
      (sym (replay-granted s name ks c (All-Permᴰ (λ h. IsLine h × Lacks 0 (h.0)) q l)))
      (Matched-IsSameRequest _ _ (
        strip_credentials-Matched s name _ _ (
          set_headers-Matched gs ks c m (Permᴰ.trans (Permᴰ.symm p) q)
            (λ j. omega (arith, o j, spellings-Permᴰ j p)))))
replay-entry_of s name account _ _ _ c e (IsRanged.same status reason) (IsRanged.same _ _) l o m =
    subst (IsSameRequest (block status reason c))
      (sym (
        replay-denied s name status reason c (subst Consistent e (answer_of-Consistent s account))))
      (IsSameRequest-refl (block status reason c))
