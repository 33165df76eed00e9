-- ===== src/Filters/Jwt/Laws.antt =====
-- What Execute of the JWT filter does to a request.
use hypergate_engine.Prelude.{
  [], ◌∷◌, Option, none, some, ◌==◌, nat_eq, list_eq, ◌≡◌, ◌⊎◌, inl, inr, refl, sym, subst, ◌∙◌,
  Bool-cases, if_ind, eq_iff, Option-cases,
}
use hypergate_engine.Prelude.Text.{Str, to_lower}
use hypergate_engine.Prelude.Maps.{Map, lookup}
use hypergate_engine.Engine.Headers.Laws.{
  IsMirrored, set_change-IsMirrored, remove_change-IsMirrored,
}
use hypergate_engine.Engine.Context.{RequestContext}
use hypergate_engine.Engine.Access.{get_header, set_header_upstream, remove_header_upstream}
use hypergate_engine.Engine.Access.Laws.{get_header-set, get_header-remove}
use hypergate_engine.Filters.Jwt.Claims.{Claim, claim_string}
use hypergate_engine.Filters.Jwt.Validate.{Claims}
use hypergate_engine.Filters.Jwt.Execute.{remove_mapped, inject_claims, inject, inject_claim}

-- A header that the settings map some claim to, under its lower-case name.
pub data IsMapped (j : Str) : Map Str Str → Type 0 where
  here :
      (claim header : Str) (m : Map Str Str)
      → to_lower header ≡ j
      → IsMapped j ((claim, header) ∷ m)
  there : (e : Str × Str) (m : Map Str Str) → IsMapped j m → IsMapped j (e ∷ m)

-- What a header may be: empty, or a validated claim that is mapped to it.
pub data IsClaimed (claims : Claims) (j v : Str) : Map Str Str → Type 0 where
  here :
      (claim header : Str) (c : Claim) (m : Map Str Str)
      → to_lower header ≡ j
      → lookup claim claims ≡ some c
      → v ≡ claim_string c
      → IsClaimed claims j v ((claim, header) ∷ m)
  there : (e : Str × Str) (m : Map Str Str) → IsClaimed claims j v m → IsClaimed claims j v (e ∷ m)

remove_mapped-empty :
    (m : Map Str Str) (c : RequestContext) (j : Str)
    → get_header c j ≡ []
    → get_header (remove_mapped m c) j ≡ []
unfolding remove_mapped
remove_mapped-empty [] c j h = h
remove_mapped-empty ((claim, hd) ∷ m) c j h =
    remove_mapped-empty m _ j
      (rw (get_header-remove hd c j) (if_ind (λ v. v ≡ []) (to_lower hd == j) refl h))

-- After the first loop a mapped header is read as empty.
pub remove_mapped-mapped :
    (j : Str) (m : Map Str Str) (c : RequestContext)
    → IsMapped j m
    → get_header (remove_mapped m c) j ≡ []
unfolding remove_mapped
remove_mapped-mapped j _ c (IsMapped.here claim hd m e) =
    remove_mapped-empty m _ j (rw (get_header-remove hd c j, (eq_iff (to_lower hd) j).1 e) refl)
remove_mapped-mapped j _ c (IsMapped.there (claim, hd) m h) = remove_mapped-mapped j m _ h

pub remove_mapped-IsMirrored :
    (m : Map Str Str) (c : RequestContext)
    → IsMirrored c.upstream
    → IsMirrored (remove_mapped m c).upstream
unfolding remove_mapped
remove_mapped-IsMirrored [] c h = h
remove_mapped-IsMirrored ((claim, hd) ∷ m) c h =
    remove_mapped-IsMirrored m _
      (unfold remove_header_upstream in remove_change-IsMirrored hd c.upstream h)

set-IsMirrored :
    (hd v : Str) (c : RequestContext)
    → IsMirrored c.upstream
    → IsMirrored (set_header_upstream hd v c).upstream
unfolding set_header_upstream
set-IsMirrored hd v c h = set_change-IsMirrored hd v c.upstream h

inject_claim-IsMirrored :
    (hd : Str) (o : Option Claim) (c : RequestContext)
    → IsMirrored c.upstream
    → IsMirrored (inject_claim hd o c).upstream
inject_claim-IsMirrored hd none c h = h
inject_claim-IsMirrored hd (some v) c h =
    elim (claim_string v) as (λ s. IsMirrored (inject hd s c).upstream) [
      | [] ↦ h
      | b ∷ s ↦ set-IsMirrored hd (b ∷ s) c h
    ]

-- A header after a value was injected: as before, or that value under its name.
inject-read :
    (hd v j : Str) (c : RequestContext)
    → IsMirrored c.upstream
    → (get_header (inject hd v c) j ≡ get_header c j)
      ⊎ ((to_lower hd ≡ j) × (get_header (inject hd v c) j ≡ v))
inject-read hd [] j c h = inl refl
inject-read hd (b ∷ s) j c h = elim (Bool-cases (to_lower hd == j)) [
  | inl e ↦ inr ((eq_iff (to_lower hd) j).0 e, rw (get_header-set hd (b ∷ s) c j h, e) refl)
  | inr e ↦ inl (rw (get_header-set hd (b ∷ s) c j h, e) refl)
]

-- A header after a claim was injected: as before, or the claim.
inject_claim-read :
    (claims : Claims) (claim hd j : Str) (m : Map Str Str) (c : RequestContext)
    → IsMirrored c.upstream
    → (get_header (inject_claim hd (lookup claim claims) c) j ≡ get_header c j)
      ⊎ IsClaimed claims j
          (get_header (inject_claim hd (lookup claim claims) c) j)
          ((claim, hd) ∷ m)
inject_claim-read claims claim hd j m c h = elim (Option-cases (lookup claim claims)) [
  | inl e ↦ inl (rw e refl)
  | inr (v, e) ↦ elim (inject-read hd (claim_string v) j c h) [
    | inl same ↦ inl (rw e same)
    | inr (named, read) ↦ inr (IsClaimed.here claim hd v m named e (rw e read))
  ]
]

pub inject_claims-read :
    (claims : Claims) (j : Str) (m : Map Str Str) (c : RequestContext)
    → IsMirrored c.upstream
    → (get_header (inject_claims m claims c) j ≡ get_header c j)
      ⊎ IsClaimed claims j (get_header (inject_claims m claims c) j) m
unfolding inject_claims
inject_claims-read claims j [] c h = inl refl
inject_claims-read claims j ((claim, hd) ∷ m) c h =
    let mirrored = inject_claim-IsMirrored hd (lookup claim claims) c h in
    elim (inject_claims-read claims j m (inject_claim hd (lookup claim claims) c) mirrored) [
      | inr claimed ↦ inr (IsClaimed.there (claim, hd) m claimed)
      | inl same ↦ elim (inject_claim-read claims claim hd j m c h) [
        | inl before ↦ inl (same ∙ before)
        | inr claimed ↦ inr (subst (λ v. IsClaimed claims j v ((claim, hd) ∷ m)) (sym same) claimed)
      ]
    ]

pub inject_claims-IsMirrored :
    (claims : Claims) (m : Map Str Str) (c : RequestContext)
    → IsMirrored c.upstream
    → IsMirrored (inject_claims m claims c).upstream
unfolding inject_claims
inject_claims-IsMirrored claims [] c h = h
inject_claims-IsMirrored claims ((claim, hd) ∷ m) c h =
    inject_claims-IsMirrored claims m _ (inject_claim-IsMirrored hd (lookup claim claims) c h)
