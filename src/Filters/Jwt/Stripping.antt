-- ===== src/Filters/Jwt/Stripping.antt =====
-- What stripToken of the JWT filter leaves of a request.
use hypergate_engine.Prelude.{
  true, [], if◌then◌else◌, ◌==◌, nat_eq, list_eq, ◌≡◌, ◌≢◌, ◌⊎◌, inl, Option, inr, refl, ap, sym,
  subst, ◌∙◌, Bool-cases, if_ind, eq_iff, eq_refl,
}
use hypergate_engine.Prelude.Text.{Str, lit, to_lower}
use hypergate_engine.Engine.Headers.Laws.{IsMirrored}
use hypergate_engine.Engine.Context.{RequestContext}
use hypergate_engine.Engine.Access.{
  get_header, set_header_upstream, remove_header_upstream, set_path,
}
use hypergate_engine.Engine.Access.Laws.{get_header-set, get_header-remove}
use hypergate_engine.Filters.Jwt.Config.{Config}
use hypergate_engine.Filters.Jwt.Cookies.{
  extract_cookie, remove_cookie, extract_cookie-remove, extract_cookie-empty, remove_cookie-absent,
}
use hypergate_engine.Filters.Jwt.Query.{
  extract_query_param, remove_query_param, extract_query_param-remove,
}
use hypergate_engine.Filters.Jwt.Execute.{
  Source, source_of, extract_token, token_from, strip_token, strip_from, without_scheme,
}

lower_cookie : to_lower (lit "cookie") ≡ lit "cookie"
unfolding to_lower
lower_cookie = refl

lower_path : to_lower (lit ":path") ≡ lit ":path"
unfolding to_lower
lower_path = refl

-- Setting a header leaves the headers of other names.
set-other :
    (hd v j : Str) (c : RequestContext)
    → IsMirrored c.upstream
    → j ≢ to_lower hd
    → get_header (set_header_upstream hd v c) j ≡ get_header c j
set-other hd v j c h n = elim (Bool-cases (to_lower hd == j)) [
  | inl e ↦ absurd (n (sym ((eq_iff (to_lower hd) j).0 e)))
  | inr e ↦ rw (get_header-set hd v c j h, e) refl
]

removed-empty :
    (hd : Str) (c : RequestContext)
    → to_lower hd ≡ hd
    → get_header (remove_header_upstream hd c) hd ≡ []
removed-empty hd c l = rw (get_header-remove hd c hd, (eq_iff (to_lower hd) hd).1 l) refl

set-read :
    (hd v : Str) (c : RequestContext)
    → IsMirrored c.upstream
    → to_lower hd ≡ hd
    → get_header (set_header_upstream hd v c) hd ≡ v
set-read hd v c h l = rw (get_header-set hd v c hd h, (eq_iff (to_lower hd) hd).1 l) refl

without_scheme-empty : without_scheme [] ≡ []
unfolding without_scheme
without_scheme-empty = refl

set_path-other :
    (path j : Str) (c : RequestContext)
    → IsMirrored c.upstream
    → j ≢ lit ":path"
    → get_header (set_path path c) j ≡ get_header c j
unfolding set_path
set_path-other path j c h n =
    set-other (lit ":path") path j (record c { path = path }) h (λ e. n (e ∙ lower_path))
    ∙ unfold get_header in refl

Left : Str → RequestContext → RequestContext → Type 0
Left j c d = (get_header d j ≡ get_header c j) ⊎ (get_header d j ≡ [])

remove-Left : (hd j : Str) (c : RequestContext) → Left j c (remove_header_upstream hd c)
unfolding Left
remove-Left hd j c = elim (Bool-cases (to_lower hd == j)) [
  | inl e ↦ inr (rw (get_header-remove hd c j, e) refl)
  | inr e ↦ inl (rw (get_header-remove hd c j, e) refl)
]

strip_from-Left :
    (cfg : Config) (src : Source) (j : Str) (c : RequestContext)
    → IsMirrored c.upstream
    → j ≢ lit ":path"
    → j ≢ lit "cookie"
    → Left j c (strip_from cfg src c)
unfolding Left
strip_from-Left cfg Source.in_query j c h hp hc =
    if_ind (Left j c) (remove_query_param c.path cfg.query_param == c.path) (inl refl)
      (inl (set_path-other (remove_query_param c.path cfg.query_param) j c h hp))
strip_from-Left cfg Source.in_cookie j c h hp hc =
    let (cookies, removed) = remove_cookie (get_header c (lit "cookie")) cfg.cookie_name in
    if_ind (Left j c) removed
      (if_ind (Left j c) (cookies == []) (remove-Left (lit "cookie") j c)
        (inl (set-other (lit "cookie") cookies j c h (λ e. hc (e ∙ lower_cookie)))))
      (inl refl)
strip_from-Left cfg Source.in_header j c h hp hc = remove-Left cfg.header_name j c

-- Stripping the token empties a header or leaves it, except for the path and the cookies.
pub strip_token-read :
    (cfg : Config) (j : Str) (c : RequestContext)
    → IsMirrored c.upstream
    → j ≢ lit ":path"
    → j ≢ lit "cookie"
    → (get_header (strip_token cfg c) j ≡ get_header c j) ⊎ (get_header (strip_token cfg c) j ≡ [])
unfolding strip_token Left
strip_token-read cfg j c h hp hc =
    if_ind (Left j c) cfg.strip_token (strip_from-Left cfg (source_of cfg) j c h hp hc) (inl refl)

query-gone :
    (unescape : Str → Option Str) (cfg : Config) (c : RequestContext)
    → cfg.query_param ≢ []
    → token_from unescape cfg Source.in_query (strip_from cfg Source.in_query c) ≡ []
unfolding set_path set_header_upstream
query-gone unescape cfg c q =
    let path = remove_query_param c.path cfg.query_param in
    let gone =
      extract_query_param-remove unescape c.path cfg.query_param cfg.query_param q
      ∙ ap (λ b. if b then [] else extract_query_param unescape c.path cfg.query_param)
          (eq_refl cfg.query_param) in
    elim (Bool-cases (path == c.path)) [
      | inl e ↦ rw e (
          subst (λ p. extract_query_param unescape p cfg.query_param ≡ [])
            ((eq_iff path c.path).0 e) gone)
      | inr e ↦ rw e gone
    ]

cookie-gone :
    (unescape : Str → Option Str) (cfg : Config) (c : RequestContext)
    → IsMirrored c.upstream
    → token_from unescape cfg Source.in_cookie (strip_from cfg Source.in_cookie c) ≡ []
cookie-gone unescape cfg c h =
    let cookie = get_header c (lit "cookie") in
    let (cookies, removed) = remove_cookie cookie cfg.cookie_name in
    elim (Bool-cases removed) [
      | inr e ↦ rw e (remove_cookie-absent cookie cfg.cookie_name e)
      | inl e ↦ elim (Bool-cases (cookies == [])) [
        | inl none_left ↦
            rw (e, none_left)
              (ap (λ v. extract_cookie v cfg.cookie_name)
                  (removed-empty (lit "cookie") c lower_cookie)
                ∙ extract_cookie-empty cfg.cookie_name)
        | inr some_left ↦
            rw (e, some_left)
              (ap (λ v. extract_cookie v cfg.cookie_name)
                  (set-read (lit "cookie") cookies c h lower_cookie)
                ∙ extract_cookie-remove cookie cfg.cookie_name cfg.cookie_name
                ∙ ap (λ b. if b then [] else extract_cookie cookie cfg.cookie_name)
                    (eq_refl cfg.cookie_name))
      ]
    ]

-- A stripped token cannot be read again, wherever it was read from: the settings name a query
-- parameter and have a lower-case header name.
pub extract_token-strip_token :
    (unescape : Str → Option Str) (cfg : Config) (c : RequestContext)
    → IsMirrored c.upstream
    → cfg.strip_token ≡ true
    → cfg.query_param ≢ []
    → to_lower cfg.header_name ≡ cfg.header_name
    → extract_token unescape cfg (strip_token cfg c) ≡ []
unfolding extract_token strip_token
extract_token-strip_token unescape cfg c h on q l = rw on (gone (source_of cfg))
  where
    gone : (src : Source) → token_from unescape cfg src (strip_from cfg src c) ≡ []
    gone Source.in_query = query-gone unescape cfg c q
    gone Source.in_cookie = cookie-gone unescape cfg c h
    gone Source.in_header =
        ap without_scheme (removed-empty cfg.header_name c l) ∙ without_scheme-empty
