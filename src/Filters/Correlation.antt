-- ===== src/Filters/Correlation.antt =====
-- The correlation id filter (internal/filters/correlation_id/correlation.go). The generators of the
-- uuid, xid and ulid libraries draw from the state outside the request; a regular expression is the
-- function that it matches with.
use hypergate_engine.Prelude.{
  Bool, true, false, not, [], ◌∷◌, ◌++◌, Option, none, some, if◌then◌else◌, ◌==◌, nat_eq, list_eq,
  ◌||◌, ◌>>=◌, ◌≡◌, refl, eq_refl, ap, ◌∙◌,
}
use hypergate_engine.Prelude.Text.{Str, lit, to_lower}
use hypergate_engine.Prelude.Maps.{lookup-insert}
use hypergate_engine.Engine.Headers.{set_change}
use hypergate_engine.Engine.Headers.Laws.{IsMirrored}
use hypergate_engine.Engine.Access.Laws.{get_header-set}
use hypergate_engine.Engine.Context.{RequestContext}
use hypergate_engine.Engine.Access.{
  get_header, set_header_upstream, set_header_downstream, get_downstream_header,
}

pub record CorrelationConfig : Type 0 where
  pub header_name : Str
  pub algorithm : Str
  pub mode : Str
  pub prefix : Str
  pub propagate_to_upstream : Bool
  pub propagate_to_downstream : Bool
  pub input_header_name : Str
  pub response_header_name : Str
  pub validation_regex : Str
  pub compiled_validation_regex : Option (Str → Bool)

-- The id libraries.
pub record Generators (W : Type 0) : Type 0 where
  pub uuidv7 : W → Str × W
  pub xid : W → Str × W
  pub ulid : W → Str × W
  pub uuidv4 : W → Str × W

abbrev text_or : Str → Str → Str
text_or [] d = d
text_or (c ∷ s) d = c ∷ s

unfoldable pub fill : CorrelationConfig → CorrelationConfig
fill c =
    let name = text_or c.header_name (lit "x-request-id") in
    record c {
      header_name = name;
      algorithm = text_or c.algorithm (lit "uuidv4");
      mode = text_or c.mode (lit "if_missing");
      input_header_name = text_or c.input_header_name name;
      response_header_name = text_or c.response_header_name name;
    }

abbrev with_regex : (Str → Option (Str → Bool)) → CorrelationConfig → Str → Option CorrelationConfig
with_regex compile_regexp c [] = some c
with_regex compile_regexp c (b ∷ p) = do
  re ← compile_regexp (b ∷ p)
  some (record c { compiled_validation_regex = some re })

-- NewCorrelationFilter: `none` is an error.
unfoldable pub new_correlation_filter :
    (Str → Option (Str → Bool)) → CorrelationConfig → Option CorrelationConfig
unfolding fill
new_correlation_filter compile_regexp c = with_regex compile_regexp (fill c) c.validation_regex

abbrev pub rejects : Option (Str → Bool) → Str → Bool
rejects none id = false
rejects (some re) id = not (re id)

unfoldable pub must_generate : CorrelationConfig → Str → Bool
must_generate f incoming =
    incoming == [] || f.mode == lit "overwrite" || rejects f.compiled_validation_regex incoming

module _ {W : Type 0} (gen : Generators W) (f : CorrelationConfig) where
  unfoldable pub generate : W → Str × W
  generate w =
      let (id, v) =
        if f.algorithm == lit "uuidv7"
        then gen.uuidv7 w
        else if f.algorithm == lit "xid"
        then gen.xid w
        else if f.algorithm == lit "ulid"
        then gen.ulid w
        else gen.uuidv4 w in
      (f.prefix ++ id, v)

  unfoldable pub final_id : RequestContext → W → Str × W
  unfolding generate must_generate get_header
  final_id c w =
      let incoming = get_header c f.input_header_name in
      if must_generate f incoming then generate w else (incoming, w)

  unfoldable pub propagate : Str → RequestContext → RequestContext
  unfolding set_header_upstream set_header_downstream
  propagate id c =
      let u = if f.propagate_to_upstream then set_header_upstream f.header_name id c else c in
      if f.propagate_to_downstream then set_header_downstream f.response_header_name id u else u

  -- The result is always nil.
  unfoldable pub execute : RequestContext → W → RequestContext × W
  unfolding final_id propagate
  execute c w = let (id, v) = final_id c w in (propagate id c, v)

downstream-read :
    (k v : Str) (c : RequestContext) (j : Str)
    → get_header (set_header_downstream k v c) j ≡ get_header c j
unfolding set_header_downstream get_header
downstream-read k v c j = refl

queued-read :
    (k v : Str) (c : RequestContext) → get_downstream_header (set_header_downstream k v c) k ≡ v
unfolding set_header_downstream get_downstream_header set_change
queued-read k v c =
    rw (lookup-insert (to_lower k) (to_lower k) v c.downstream.shadow, eq_refl (to_lower k)) refl

or_true : (a b : Bool) → (a || b || true) ≡ true
or_true true b = refl
or_true false true = refl
or_true false false = refl

module _ {W : Type 0} (gen : Generators W) (f : CorrelationConfig) where
  regenerated :
      (c : RequestContext) (w : W)
      → rejects f.compiled_validation_regex (get_header c f.input_header_name) ≡ true
      → final_id gen f c w ≡ generate gen f w
  unfolding final_id must_generate
  regenerated c w r =
      let incoming = get_header c f.input_header_name in
      rw (r, or_true (incoming == []) (f.mode == lit "overwrite")) refl

  -- An id that validation refuses never goes on: the upstream and the client are both told the
  -- generated one.
  pub execute-rejected :
      (c : RequestContext) (w : W)
      → IsMirrored c.upstream
      → f.propagate_to_upstream ≡ true
      → f.propagate_to_downstream ≡ true
      → rejects f.compiled_validation_regex (get_header c f.input_header_name) ≡ true
      → (get_header (execute gen f c w).0 (to_lower f.header_name) ≡ (generate gen f w).0)
        × (get_downstream_header (execute gen f c w).0 f.response_header_name
            ≡ (generate gen f w).0)
  unfolding execute propagate
  execute-rejected c w h up down r =
      let id = (generate gen f w).0 in
      let u = set_header_upstream f.header_name id c in
      rw (regenerated c w r, up, down)
        (
          downstream-read f.response_header_name id u (to_lower f.header_name)
              ∙ get_header-set f.header_name id c (to_lower f.header_name) h
              ∙ ap (λ b. if b then id else get_header c (to_lower f.header_name))
                  (eq_refl (to_lower f.header_name)),
          queued-read f.response_header_name id u,
        )
