-- ===== src/Filters/ApiKey/Replay/Contexts.antt =====
-- Contexts that differ in the order of queued header changes (SetHeaderUpstream and stripCredentials of
-- internal/filters/api_key/api_key.go).

use mathlib.Core.List.{Permᴰ}
use hypergate_engine.Prelude.{
  ◌≤◌, Bool, true, false, not, List, [], ◌∷◌, Option, none, some, if◌then◌else◌, ◌==◌, nat_eq,
  list_eq, ◌≡◌, refl, ap, sym, ◌∙◌, arith, subst, ◌&&◌,
}
use hypergate_engine.Prelude.Text.{Str, lit, to_lower}
use hypergate_engine.Prelude.Maps.{lookup}
use hypergate_engine.Engine.Headers.{Changes, set_change, remove_change}
use hypergate_engine.Engine.Headers.Laws.{
  Effect, put, drop, effect, effect-set_edit, effect-remove_edit, IsMirrored, set_change-IsMirrored,
  remove_change-IsMirrored,
}
use hypergate_engine.Engine.Context.{RequestContext}
use hypergate_engine.Engine.Access.{
  get_header, set_header_upstream, remove_header_upstream, set_path,
}
use hypergate_engine.Filters.ApiKey.Settings.{Settings}
use hypergate_engine.Filters.ApiKey.Execute.{strip_credentials, strip_query_param}
use hypergate_engine.Filters.ApiKey.Replay.{set_headers}
use hypergate_engine.Filters.ApiKey.Replay.Orders.{wrote, spellings, wrote-Permᴰ}

-- Two contexts that differ at most in how their changes to the request's headers are queued: Envoy
-- does the same with every header, and later filters read the same.
pub record IsSameRequest (c d : RequestContext) : Type 0 where
  pub rest : d ≡ record c { upstream = d.upstream }
  pub effects : (j : Str) → effect c.upstream.edits j ≡ effect d.upstream.edits j
  pub reads : (j : Str) → get_header c j ≡ get_header d j

pub record Matched (c d : RequestContext) : Type 0 where
  pub rest : d ≡ record c { upstream = d.upstream }
  pub left : IsMirrored c.upstream
  pub right : IsMirrored d.upstream
  pub effects : (j : Str) → effect c.upstream.edits j ≡ effect d.upstream.edits j

effective_of : Effect → Option Str → Str
effective_of (put v) original = v
effective_of drop original = []
effective_of Effect.keep none = []
effective_of Effect.keep (some v) = v

get_header-effect :
    (c : RequestContext) (j : Str)
    → IsMirrored c.upstream
    → get_header c j ≡ effective_of (effect c.upstream.edits j) (lookup j c.headers)
unfolding get_header effect effective_of
get_header-effect c j m = ground (arith, m.mirrored j)

pub Matched-IsSameRequest : (c d : RequestContext) → Matched c d → IsSameRequest c d
Matched-IsSameRequest c d m = record {
  rest = m.rest;
  effects = m.effects;
  reads = λ j.
      get_header-effect c j m.left
      ∙ ap (λ e. effective_of e (lookup j c.headers)) (m.effects j)
      ∙ ap (λ (x : RequestContext). effective_of (effect d.upstream.edits j) (lookup j x.headers))
          (sym m.rest)
      ∙ sym (get_header-effect d j m.right);
}

set_headers-rest :
    (hs : List (Str × Str)) (c : RequestContext)
    → set_headers hs c ≡ record c { upstream = (set_headers hs c).upstream }
unfolding set_headers set_header_upstream
set_headers-rest [] c = refl
set_headers-rest ((k, v) ∷ hs) c = set_headers-rest hs (set_header_upstream k v c)

set_headers-IsMirrored :
    (hs : List (Str × Str)) (c : RequestContext)
    → IsMirrored c.upstream
    → IsMirrored (set_headers hs c).upstream
unfolding set_headers set_header_upstream
set_headers-IsMirrored [] c m = m
set_headers-IsMirrored ((k, v) ∷ hs) c m =
    set_headers-IsMirrored hs (set_header_upstream k v c) (set_change-IsMirrored k v c.upstream m)

effect-set_headers :
    (hs : List (Str × Str)) (c : RequestContext) (j : Str)
    → IsMirrored c.upstream
    → effect (set_headers hs c).upstream.edits j ≡ wrote hs j (effect c.upstream.edits j)
unfolding set_headers set_header_upstream set_change wrote
effect-set_headers [] c j m = refl
effect-set_headers ((k, v) ∷ hs) c j m =
    effect-set_headers hs (set_header_upstream k v c) j
      (unfold set_change in set_change-IsMirrored k v c.upstream m)
    ∙ ap (wrote hs j) (effect-set_edit (to_lower k) v c.upstream.edits j m.consistent)

pub set_headers-Matched :
    (hs gs : List (Str × Str)) (c : RequestContext)
    → IsMirrored c.upstream
    → Permᴰ hs gs
    → ((j : Str) → spellings j hs ≤ 1)
    → Matched (set_headers hs c) (set_headers gs c)
set_headers-Matched hs gs c m p once = record {
  rest =
      set_headers-rest gs c
      ∙ ap (λ (x : RequestContext). record x { upstream = (set_headers gs c).upstream })
          (sym (set_headers-rest hs c));
  left = set_headers-IsMirrored hs c m;
  right = set_headers-IsMirrored gs c m;
  effects = λ j.
      effect-set_headers hs c j m
      ∙ wrote-Permᴰ j (effect c.upstream.edits j) p (once j)
      ∙ sym (effect-set_headers gs c j m);
}

-- Branches of one test.
if_both :
    (P : RequestContext → RequestContext → Type 0) (b : Bool) {x y x' y' : RequestContext}
    → P x x'
    → P y y'
    → P (if b then x else y) (if b then x' else y')
if_both P true p q = p
if_both P false p q = q

remove-Matched :
    (name : Str) (c : RequestContext) (u : Changes)
    → Matched c (record c { upstream = u })
    → Matched
        (remove_header_upstream name c)
        (remove_header_upstream name (record c { upstream = u }))
unfolding remove_header_upstream
remove-Matched name c u m = record {
  rest = refl;
  left = remove_change-IsMirrored name c.upstream m.left;
  right = remove_change-IsMirrored name u m.right;
  effects = λ j.
      unfold remove_change in
      (effect-remove_edit (to_lower name) c.upstream.edits j m.left.consistent
        ∙ ap (λ e. if to_lower name == j then drop else e) (m.effects j)
        ∙ sym (effect-remove_edit (to_lower name) u.edits j m.right.consistent));
}

set_path-Matched :
    (path : Str) (c : RequestContext) (u : Changes)
    → Matched c (record c { upstream = u })
    → Matched (set_path path c) (set_path path (record c { upstream = u }))
unfolding set_path set_header_upstream
set_path-Matched path c u m = record {
  rest = refl;
  left = set_change-IsMirrored (lit ":path") path c.upstream m.left;
  right = set_change-IsMirrored (lit ":path") path u m.right;
  effects = λ j.
      unfold set_change in
      (effect-set_edit (to_lower (lit ":path")) path c.upstream.edits j m.left.consistent
        ∙ ap (λ e. if to_lower (lit ":path") == j then put path else e) (m.effects j)
        ∙ sym (effect-set_edit (to_lower (lit ":path")) path u.edits j m.right.consistent));
}

-- What holds of contexts that differ in their queued changes holds of all that match.
Matched-elim :
    (P : RequestContext → RequestContext → Type 0) (c d : RequestContext)
    → ((u : Changes) → Matched c (record c { upstream = u }) → P c (record c { upstream = u }))
    → Matched c d
    → P c d
Matched-elim P c d f m = subst (P c) (sym m.rest) (f d.upstream (subst (Matched c) m.rest m))

strip_query-Matched :
    (s : Settings) (name : Str) (c d : RequestContext)
    → Matched c d
    → Matched
        (if s.key_in_query && not (strip_query_param c.path name == c.path)
          then set_path (strip_query_param c.path name) c
          else c)
        (if s.key_in_query && not (strip_query_param d.path name == d.path)
          then set_path (strip_query_param d.path name) d
          else d)
strip_query-Matched s name c d =
    Matched-elim
      (λ x y.
        Matched
          (if s.key_in_query && not (strip_query_param x.path name == x.path)
            then set_path (strip_query_param x.path name) x
            else x)
          (if s.key_in_query && not (strip_query_param y.path name == y.path)
            then set_path (strip_query_param y.path name) y
            else y))
      c d (λ u m. if_both Matched _ (set_path-Matched _ c u m) m)

pub strip_credentials-Matched :
    (s : Settings) (name : Str) (c d : RequestContext)
    → Matched c d
    → Matched (strip_credentials s name c) (strip_credentials s name d)
unfolding strip_credentials
strip_credentials-Matched s name c d m =
    if_both Matched (s.hide_credentials && not (name == []))
      (strip_query-Matched s name _ _ (
        if_both Matched s.key_in_header
          (Matched-elim
            (λ x y. Matched (remove_header_upstream name x) (remove_header_upstream name y)) c d
            (remove-Matched name c) m)
          m))
      m
