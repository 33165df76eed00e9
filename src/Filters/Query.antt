-- ===== src/Filters/Query.antt =====
-- Query strings, as the loops over the query of a path read them
-- (internal/filters/jwt_auth/jwt_auth.go, internal/filters/api_key/api_key.go).
use hypergate_engine.Prelude.{
  ℕ, zero, suc, ◌≤◌, Bool, true, false, List, [], ◌∷◌, ◌++◌, Option, none, some, ◌≡◌, ◌≢◌, refl,
  if◌then◌else◌, nat_eq, list_eq, Bool-cases, inl, inr, arith, ap, sym, subst, if_ind, ◌∙◌, length,
  All, ◌&&◌,
}
use hypergate_engine.Prelude.Text.{Str, cut, split, join, split-ne_nil}
use hypergate_engine.Prelude.Text.Pieces.{Lacks, split-join}
use hypergate_engine.Prelude.Text.Cuts.{
  cut-length_cons, cut-unfound, split-cut, cut-missing, cut-append, first_pieces,
}

-- The parts that the loop takes off the front of a query, one a round; the first argument bounds the
-- rounds.
unfoldable pub query_parts : ℕ → Str → List Str
unfolding cut
query_parts zero query = []
query_parts (suc n) [] = []
query_parts (suc n) (c ∷ query) =
    let (part, rest, more) = cut b'&' (c ∷ query) in part ∷ query_parts n rest

abbrev or_next {ℓ} : {A : Type ℓ} → Option A → Option A → Option A
or_next (some a) next = some a
or_next none next = next

-- The first part that decides the result.
unfoldable pub first_part {ℓ} : {A : Type ℓ} → (Str → Option A) → List Str → Option A
first_part decide [] = none
first_part decide (p ∷ ps) = let rest = first_part decide ps in or_next (decide p) rest

-- `if keep(part) { kept = append(kept, part) }` over the parts.
unfoldable pub keep_if : (Str → Bool) → List Str → List Str
keep_if keep [] = []
keep_if keep (w ∷ ws) = let kept = keep_if keep ws in if keep w then w ∷ kept else kept

pub keep_if-Lacks :
    (b : ℕ) (keep : Str → Bool) (ws : List Str) → All (Lacks b) ws → All (Lacks b) (keep_if keep ws)
unfolding keep_if
keep_if-Lacks b keep [] h = tt
keep_if-Lacks b keep (w ∷ ws) (hw, h) =
    let rest = keep_if-Lacks b keep ws h in if_ind (All (Lacks b)) (keep w) (hw, rest) rest

abbrev is_nil {ℓ} : {A : Type ℓ} → List A → Bool
is_nil [] = true
is_nil (x ∷ xs) = false

-- Pieces of a text without the empty piece after a final separator.
unfoldable pub drop_tail : List Str → List Str
drop_tail [] = []
drop_tail (w ∷ ws) = let rest = drop_tail ws in if is_nil w && is_nil ws then [] else w ∷ rest

abbrev pub Cut : Type 0
Cut = Str × Str × Bool

is_nil-split : (b : ℕ) (s : Str) → is_nil (split b s) ≡ false
is_nil-split b s =
    elim (split b s) as (λ ws. ws ≢ [] → is_nil ws ≡ false) [
      | [] ↦ λ h. absurd (h refl)
      | w ∷ ws ↦ λ h. refl
    ]
      (split-ne_nil b s)

drop_tail-cons : (w v : Str) (ws : List Str) → drop_tail (w ∷ v ∷ ws) ≡ w ∷ drop_tail (v ∷ ws)
unfolding drop_tail
drop_tail-cons [] v ws = refl
drop_tail-cons (c ∷ w) v ws = refl

drop_tail-split :
    (w : Str) (b : ℕ) (s : Str) → drop_tail (w ∷ split b s) ≡ w ∷ drop_tail (split b s)
drop_tail-split w b s =
    elim (split b s) as (λ ws. ws ≢ [] → drop_tail (w ∷ ws) ≡ w ∷ drop_tail ws) [
      | [] ↦ λ h. absurd (h refl)
      | v ∷ ws ↦ λ h. drop_tail-cons w v ws
    ]
      (split-ne_nil b s)

query_parts-nil : (n : ℕ) → query_parts n [] ≡ []
unfolding query_parts
query_parts-nil zero = refl
query_parts-nil (suc n) = refl

parts_step :
    (n c : ℕ) (q : Str) (r : Cut)
    → cut b'&' (c ∷ q) ≡ r
    → query_parts n r.1 ≡ drop_tail (split b'&' r.1)
    → r.0 ∷ query_parts n r.1 ≡ drop_tail (first_pieces b'&' r)
parts_step n c q (before, after, true) e h =
    ap (λ ps. before ∷ ps) h ∙ sym (drop_tail-split before b'&' after)
parts_step n c q (before, after, false) e h =
    let whole = sym e ∙ cut-unfound b'&' (c ∷ q) (ap (λ r. r.2) e) in
    subst (λ (r : Cut). r.0 ∷ query_parts n r.1 ≡ drop_tail (r.0 ∷ [])) (sym whole)
      (unfold drop_tail in ap (λ ps. (c ∷ q) ∷ ps) (query_parts-nil n))

-- With as many rounds as the query has bytes, the loop ends, and its parts are the query cut at every
-- ampersand, without an empty piece at the end.
pub query_parts-split :
    (n : ℕ) (query : Str) → length query ≤ n → query_parts n query ≡ drop_tail (split b'&' query)
unfolding query_parts
query_parts-split zero [] h = unfold drop_tail split in refl
query_parts-split zero (c ∷ q) h = absurd (omega arith)
query_parts-split (suc n) [] h = unfold drop_tail split in refl
query_parts-split (suc n) (c ∷ q) h =
    parts_step n c q (cut b'&' (c ∷ q)) refl
      (query_parts-split n _ (omega (arith, cut-length_cons b'&' c q)))
    ∙ ap drop_tail (sym (split-cut b'&' (c ∷ q)))

module _ {ℓ} {A : Type ℓ} (decide : Str → Option A) where
  first_part-rest :
      (w : Str) (ws vs : List Str)
      → first_part decide ws ≡ first_part decide vs
      → first_part decide (w ∷ ws) ≡ first_part decide (w ∷ vs)
  unfolding first_part
  first_part-rest w ws vs h = ap (or_next (decide w)) h

  -- A part that is empty decides nothing, so the empty piece at the end does not matter.
  first_part-drop_tail :
      (ws : List Str) → decide [] ≡ none → first_part decide (drop_tail ws) ≡ first_part decide ws
  first_part-drop_tail [] h = unfold drop_tail in refl
  first_part-drop_tail ([] ∷ []) h = unfold drop_tail first_part in ap (λ o. or_next o none) (sym h)
  first_part-drop_tail ((c ∷ w) ∷ []) h = unfold drop_tail in refl
  first_part-drop_tail (w ∷ v ∷ ws) h =
      ap (first_part decide) (drop_tail-cons w v ws)
      ∙ first_part-rest w _ _ (first_part-drop_tail (v ∷ ws) h)

  pub first_part-skip :
      (w : Str) (ws : List Str)
      → decide w ≡ none
      → first_part decide (w ∷ ws) ≡ first_part decide ws
  unfolding first_part
  first_part-skip w ws h = ap (λ o. or_next o (first_part decide ws)) h

  module _ (keep : Str → Bool) where
    -- Parts that decide nothing may be dropped.
    pub first_part-keep_if :
        (ws : List Str)
        → ((w : Str) → keep w ≡ false → decide w ≡ none)
        → first_part decide (keep_if keep ws) ≡ first_part decide ws
    unfolding keep_if
    first_part-keep_if [] h = refl
    first_part-keep_if (w ∷ ws) h = elim (Bool-cases (keep w)) [
      | inl e ↦ rw e (first_part-rest w _ _ (first_part-keep_if ws h))
      | inr e ↦ rw e (first_part-keep_if ws h ∙ sym (first_part-skip w ws (h w e)))
    ]

    -- If only parts that decide nothing are kept, nothing decides.
    pub first_part-keep_none :
        (ws : List Str)
        → ((w : Str) → keep w ≡ true → decide w ≡ none)
        → first_part decide (keep_if keep ws) ≡ none
    unfolding keep_if
    first_part-keep_none [] h = unfold first_part in refl
    first_part-keep_none (w ∷ ws) h = elim (Bool-cases (keep w)) [
      | inl e ↦ rw e (first_part-skip w _ (h w e) ∙ first_part-keep_none ws h)
      | inr e ↦ rw e (first_part-keep_none ws h)
    ]

-- The first part that decides, of the query of a path; `none` if there is no query.
unfoldable pub query_first {ℓ} : {A : Type ℓ} → (Str → Option A) → Str → Option A
unfolding query_parts first_part cut
query_first decide path =
    let (base, query, found) = cut b'?' path in
    if found then first_part decide (query_parts (length query) query) else none

-- A path with the query made of the parts.
unfoldable pub with_query : Str → List Str → Str
unfolding join
with_query base [] = base
with_query base (p ∷ ps) = base ++ b'?' ∷ join (b'&' ∷ []) (p ∷ ps)

pub first_part-parts {ℓ} :
    {A : Type ℓ} (decide : Str → Option A) (query : Str)
    → decide [] ≡ none
    → first_part decide (query_parts (length query) query) ≡ first_part decide (split b'&' query)
first_part-parts decide query h =
    ap (first_part decide) (query_parts-split (length query) query (omega arith))
    ∙ first_part-drop_tail decide (split b'&' query) h

abbrev pub query_of_cut {ℓ} : {A : Type ℓ} → (Str → Option A) → Cut → Option A
query_of_cut decide (base, query, found) =
    if found then first_part decide (query_parts (length query) query) else none

pub query_first-cut {ℓ} :
    {A : Type ℓ} (decide : Str → Option A) (path : Str) (r : Cut)
    → cut b'?' path ≡ r
    → query_first decide path ≡ query_of_cut decide r
unfolding query_first
query_first-cut decide path r h = ap (query_of_cut decide) h

-- Reading the query that was joined from parts is reading the parts.
pub query_first-with_query {ℓ} :
    {A : Type ℓ} (decide : Str → Option A) (base : Str) (ps : List Str)
    → decide [] ≡ none
    → Lacks b'?' base
    → All (Lacks b'&') ps
    → query_first decide (with_query base ps) ≡ first_part decide ps
query_first-with_query decide base [] h hb hp =
    unfold with_query first_part in query_first-cut decide base _ (cut-missing b'?' base hb)
query_first-with_query decide base (p ∷ ps) h hb hp =
    unfold with_query in
    query_first-cut decide _ _ (cut-append b'?' base (join (b'&' ∷ []) (p ∷ ps)) hb)
    ∙ first_part-parts decide _ h
    ∙ ap (first_part decide) (split-join b'&' p ps hp)
