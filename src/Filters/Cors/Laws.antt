-- ===== src/Filters/Cors/Laws.antt =====
-- What the CORS filter answers and which headers it queues (internal/filters/cors/cors.go).
use hypergate_engine.Prelude.{
  Bool, true, false, not, List, [], ◌∷◌, Option, some, if◌then◌else◌, ◌==◌, nat_eq, list_eq,
  list_beq, eq_false, ◌&&◌, ◌||◌, ◌≡◌, ◌≢◌, refl, ap, ◌∙◌, arith, Bool-cases, inl, inr, if_ind,
  >>=-eq-some, require-eq-some, some_inj, subst, require,
}
use hypergate_engine.Prelude.Text.{Str, lit, to_lower}
use hypergate_engine.Prelude.Maps.{lookup-insert}
use hypergate_engine.Engine.Headers.{set_change}
use hypergate_engine.Engine.Context.{RequestContext, Phase, phase_eq, block, answer}
use hypergate_engine.Engine.Access.{get_header, get_downstream_header, set_header_downstream}
use hypergate_engine.Filters.Cors.{
  Config, Filter, new_filter, origin_allowed, reflects_origin, set_allow_origin, set_unless_empty,
  answer_preflight, is_preflight, on_response, on_request, execute, read_origins, compile_all,
  is_valid, build, checked,
}

abbrev pub origin_of : RequestContext → Str
origin_of c = get_header c (lit "origin")

-- A page of an origin that is not allowed gets nothing from the filter: it queues no response header,
-- in any phase.
pub execute-disallowed :
    (f : Filter) (c : RequestContext)
    → origin_allowed f (origin_of c) ≡ false
    → (execute f c).downstream ≡ c.downstream
unfolding execute on_response on_request block
execute-disallowed f c h =
    if_ind (λ (d : RequestContext). d.downstream ≡ c.downstream) (origin_of c == []) refl
      (if_ind (λ (d : RequestContext). d.downstream ≡ c.downstream)
        (c.phase == Phase.response_headers) (rw h refl)
        (rw h (
          if_ind (λ (d : RequestContext). d.downstream ≡ c.downstream)
            (is_preflight c || f.cfg.block_disallowed_origins) refl refl)))

-- A preflight request is answered by the engine and goes no further: with 204, as an answer, where the
-- origin is allowed, and with 403 as a denial otherwise.
pub execute-preflight :
    (f : Filter) (c : RequestContext)
    → origin_of c ≢ []
    → (c.phase == Phase.response_headers) ≡ false
    → is_preflight c ≡ true
    → c.verdict.answered ≡ false
    → ((execute f c).verdict.blocked ≡ true)
      × ((execute f c).verdict.answered ≡ origin_allowed f (origin_of c))
      × ((execute f c).verdict.response_status
          ≡ (if origin_allowed f (origin_of c) then 204 else 403))
unfolding execute on_request block answer_preflight answer
execute-preflight f c o p q a = elim (Bool-cases (origin_allowed f (origin_of c))) [
  | inl e ↦ rw (eq_false (origin_of c) [] o, p, e, q) (refl, refl, refl)
  | inr e ↦ rw (eq_false (origin_of c) [] o, p, e, q) (refl, a, refl)
]

abbrev pub credentials : Str
credentials = lit "access-control-allow-credentials"

-- Queueing another response header leaves the credentials header.
Kept : RequestContext → RequestContext → Type 0
Kept c d = get_downstream_header d credentials ≡ get_downstream_header c credentials

set-Kept :
    (name value : Str) (c d : RequestContext)
    → (to_lower name == to_lower credentials) ≡ false
    → Kept c d
    → Kept c (set_header_downstream name value d)
unfolding Kept get_downstream_header set_header_downstream set_change
set-Kept name value c d n h =
    rw (lookup-insert (to_lower name) (to_lower credentials) value d.downstream.shadow, n) h

set_unless_empty-Kept :
    (name value : Str) (c d : RequestContext)
    → (to_lower name == to_lower credentials) ≡ false
    → Kept c d
    → Kept c (set_unless_empty name value d)
set_unless_empty-Kept name [] c d n h = h
set_unless_empty-Kept name (b ∷ v) c d n h = set-Kept name (b ∷ v) c d n h

credentials_checked :
    (cfg : Config) (wild : Bool) (set : List Str) (regexps : List (Str → Bool))
    → is_valid cfg wild set regexps ≡ true
    → wild ≡ true
    → cfg.allow_credentials ≡ false
credentials_checked cfg wild set regexps v w = ground arith

checked-credentials :
    (cfg : Config) (r : Bool × List Str) (regexps : List (Str → Bool)) (f : Filter)
    → checked cfg r regexps ≡ some f
    → f.any_origin ≡ true
    → f.cfg.allow_credentials ≡ false
unfolding build
checked-credentials cfg (wild, set) regexps f h a =
    let valid = is_valid cfg wild set regexps in
    let (u, e, g) = >>=-eq-some (require valid) (λ _. some (build cfg wild set regexps)) h in
    let built = some_inj g in
    subst (λ (k : Filter). k.cfg.allow_credentials ≡ false) built
      (credentials_checked cfg wild set regexps (require-eq-some valid e)
        (ap (λ (k : Filter). k.any_origin) built ∙ a))

-- With every origin allowed, a filter has no credentials.
any_origin-credentials :
    (compile_regexp : Str → Option (Str → Bool)) (cfg : Config) (f : Filter)
    → new_filter compile_regexp cfg ≡ some f
    → f.any_origin ≡ true
    → f.cfg.allow_credentials ≡ false
unfolding new_filter
any_origin-credentials compile_regexp cfg f h a =
    let (regexps, e, g) =
      >>=-eq-some (compile_all compile_regexp cfg.allow_origin_regex)
        (checked cfg (read_origins cfg.allow_origins)) h in
    checked-credentials cfg (read_origins cfg.allow_origins) regexps f g a

module _ (f : Filter) (a : f.any_origin ≡ true) (n : f.cfg.allow_credentials ≡ false) where
  set_allow_origin-Kept : (origin : Str) (c : RequestContext) → Kept c (set_allow_origin f origin c)
  unfolding set_allow_origin reflects_origin
  set_allow_origin-Kept origin c =
      rw (a, n)
        (set-Kept (lit "access-control-allow-origin") (lit "*") c c
          (unfold to_lower list_beq in refl) (unfold Kept in refl))

  answer_preflight-Kept : (c d : RequestContext) → Kept c d → Kept c (answer_preflight f d)
  unfolding answer_preflight answer block
  answer_preflight-Kept c d h =
      unfold Kept in
      unfold get_downstream_header in
      set_unless_empty-Kept (lit "access-control-max-age") f.max_age c _
        (unfold to_lower list_beq in refl)
        (set_unless_empty-Kept (lit "access-control-allow-headers") _ c _
          (unfold to_lower list_beq in refl)
          (set-Kept (lit "access-control-allow-methods") _ c d (unfold to_lower list_beq in refl)
            h))

  on_response-Kept : (origin : Str) (c : RequestContext) → Kept c (on_response f origin c)
  unfolding on_response Kept
  on_response-Kept origin c =
      if_ind (Kept c) (origin_allowed f origin && reflects_origin f)
        (set-Kept (lit "vary") _ c c (unfold to_lower list_beq in refl) refl) refl

  refused-Kept : (c : RequestContext) → Kept c (block 403 (lit "CORS origin not allowed") c)
  unfolding block Kept get_downstream_header
  refused-Kept c = refl

  on_request-Kept : (origin : Str) (c : RequestContext) → Kept c (on_request f origin c)
  unfolding on_request
  on_request-Kept origin c =
      let allowed = set_allow_origin-Kept origin c in
      if_ind (Kept c) (not (origin_allowed f origin))
        (if_ind (Kept c) (is_preflight c || f.cfg.block_disallowed_origins) (refused-Kept c)
          (unfold Kept in refl))
        (if_ind (Kept c) (is_preflight c) (answer_preflight-Kept c _ allowed) (
          set_unless_empty-Kept (lit "access-control-expose-headers") f.expose c _
            (unfold to_lower list_beq in refl) allowed))

-- A filter that allows every origin never tells a browser to send credentials: it leaves that response
-- header as it was, for every configuration that NewFilter accepts.
pub execute-credentials :
    (compile_regexp : Str → Option (Str → Bool)) (cfg : Config) (f : Filter) (c : RequestContext)
    → new_filter compile_regexp cfg ≡ some f
    → f.any_origin ≡ true
    → get_downstream_header (execute f c) credentials ≡ get_downstream_header c credentials
unfolding execute Kept
execute-credentials compile_regexp cfg f c h a =
    let n = any_origin-credentials compile_regexp cfg f h a in
    if_ind (Kept c) (origin_of c == []) refl (
      if_ind (Kept c) (c.phase == Phase.response_headers) (on_response-Kept f a n (origin_of c) c)
        (on_request-Kept f a n (origin_of c) c))
