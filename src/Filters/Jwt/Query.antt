-- ===== src/Filters/Jwt/Query.antt =====
-- The token in a query parameter: extractQueryParam and removeQueryParam of
-- internal/filters/jwt_auth/jwt_auth.go. `unescape` is url.QueryUnescape, `none` where it fails.
use hypergate_engine.Prelude.{
  Bool, true, false, not, List, [], Option, none, some, ◌≡◌, ◌≢◌, refl, if◌then◌else◌, ◌==◌, nat_eq,
  list_eq, eq_iff, eq_false, Bool-cases, inl, inr, arith, ap, sym, subst, ◌∙◌, ◌&&◌, ◌||◌,
}
use hypergate_engine.Prelude.Text.{Str, cut, split}
use hypergate_engine.Prelude.Text.Pieces.{Lacks, split-AllLack}
use hypergate_engine.Prelude.Text.Cuts.{cut-Lacks}
use hypergate_engine.Filters.Query.{
  keep_if, first_part-keep_if, first_part-keep_none, keep_if-Lacks, first_part, query_first,
  with_query, first_part-parts, query_first-with_query, Cut, query_first-cut,
}

-- The key of a part, which is the whole part where it has no equals sign.
abbrev pub key_of : Str → Str
key_of part = let (key, value, found) = cut b'=' part in key

abbrev or_raw : Option Str → Str → Str
or_raw none raw = raw
or_raw (some v) raw = v

abbrev or_none : Option Str → Str
or_none none = []
or_none (some v) = v

module _ (unescape : Str → Option Str) where
  value_if_named : Str → Str → Option Str
  unfolding cut
  value_if_named name part =
      let (key, value, found) = cut b'=' part in
      if found && key == name then some (or_raw (unescape value) value) else none

  unfoldable pub extract_query_param : Str → Str → Str
  unfolding value_if_named query_first
  extract_query_param path name = or_none (query_first (value_if_named name) path)

-- The test of removeQueryParam on a part.
keeps : Str → Str → Bool
unfolding cut
keeps name part = not (key_of part == name) && not (part == [])

unfoldable pub remove_query_param : Str → Str → Str
unfolding keep_if keeps with_query
remove_query_param path name =
    let (base, query, found) = cut b'?' path in
    if not found || name == []
    then path
    else with_query base (keep_if (keeps name) (split b'&' query))

or_none-if :
    (b : Bool) (o : Option Str) → or_none (if b then none else o) ≡ (if b then [] else or_none o)
or_none-if true o = refl
or_none-if false o = refl

module _ (unescape : Str → Option Str) where
  decides-empty : (name : Str) → value_if_named unescape name [] ≡ none
  unfolding value_if_named cut
  decides-empty name = refl

  kept-undecided :
      (name part : Str) → keeps name part ≡ true → value_if_named unescape name part ≡ none
  unfolding keeps value_if_named
  kept-undecided name part h = ground arith

  dropped-undecided :
      (name other part : Str)
      → (name == other) ≡ false
      → keeps name part ≡ false
      → value_if_named unescape other part ≡ none
  unfolding keeps value_if_named
  dropped-undecided name other part n h = elim (Bool-cases (part == [])) [
    | inl e ↦ subst (λ p. value_if_named unescape other p ≡ none) (sym ((eq_iff part []).0 e)) refl
    | inr e ↦
        ground (arith, eq_iff (key_of part) name, eq_iff (key_of part) other, eq_iff name other)
  ]

  first_part-removed :
      (name other : Str) (ps : List Str)
      → first_part (value_if_named unescape other) (keep_if (keeps name) ps)
        ≡ (if name == other then none else first_part (value_if_named unescape other) ps)
  first_part-removed name other ps = elim (Bool-cases (name == other)) [
    | inl e ↦ rw e (
        first_part-keep_none _ _ ps λ w h.
          subst (λ o. value_if_named unescape o w ≡ none) ((eq_iff name other).0 e)
            (kept-undecided name w h))
    | inr e ↦ rw e (first_part-keep_if _ _ ps (λ w h. dropped-undecided name other w e h))
  ]

  query_first-removed :
      (path name other : Str) (r : Cut)
      → cut b'?' path ≡ r
      → (name == []) ≡ false
      → query_first (value_if_named unescape other) (remove_query_param path name)
        ≡ (if name == other then none else query_first (value_if_named unescape other) path)
  unfolding remove_query_param
  query_first-removed path name other (base, query, true) e n =
      rw (e, n)
        (query_first-with_query _ base _ (decides-empty other)
            (subst (λ (r : Cut). Lacks b'?' r.0) e (cut-Lacks b'?' path))
            (keep_if-Lacks b'&' (keeps name) _ (split-AllLack b'&' query))
          ∙ first_part-removed name other (split b'&' query)
          ∙ ap (λ o. if name == other then none else o)
              (sym (
                query_first-cut (value_if_named unescape other) path _ e
                ∙ first_part-parts _ query (decides-empty other))))
  query_first-removed path name other (base, query, false) e n =
      rw (e, query_first-cut (value_if_named unescape other) path _ e) (ground arith)

  -- A parameter that removeQueryParam removed is gone from the path it returns, whatever the path is, and
  -- every other parameter is read as before. The parameter's name is not empty.
  pub extract_query_param-remove :
      (path name other : Str)
      → name ≢ []
      → extract_query_param unescape (remove_query_param path name) other
        ≡ (if name == other then [] else extract_query_param unescape path other)
  unfolding extract_query_param remove_query_param
  extract_query_param-remove path name other h =
      ap or_none (query_first-removed path name other _ refl (eq_false name [] h))
      ∙ or_none-if (name == other) (query_first (value_if_named unescape other) path)
