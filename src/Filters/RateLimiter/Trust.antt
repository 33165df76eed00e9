-- ===== src/Filters/RateLimiter/Trust.antt =====
-- Where the descriptors for the client's address come from (Execute of
-- internal/filters/rate_limiter/filter.go).
use hypergate_engine.Prelude.{
  Bool, true, false, List, [], ◌∷◌, ◌++◌, some, ◌==◌, nat_eq, list_eq, eq_iff, ◌||◌, any, All, ◌≡◌,
  ◌≢◌, ◌⊎◌, inl, inr, refl, ap, arith, if_ind, ◌∙◌, Bool-cases, eq_false_ne,
}
use hypergate_engine.Prelude.Text.{Str, lit}
use hypergate_engine.Prelude.Maps.{lookup}
use hypergate_engine.Engine.Context.{RequestContext}
use hypergate_engine.Filters.RateLimiter.Options.{EntryDef, Descriptor, FilterOptions}
use hypergate_engine.Filters.RateLimiter.Filter.{
  is_ip_key, or_default, runtime_value, extract_from, all_entries, extract_descriptors,
}

-- The keys that are documented to mean the client's address.
abbrev pub IsAddressKey : Str → Type 0
IsAddressKey key = (key ≡ lit "ip") ⊎ (key ≡ lit "client_ip") ⊎ (key ≡ lit "remote_ip")

-- The address that was resolved from the connection and the trusted proxies, or the word for none.
abbrev pub IsTrusted : RequestContext → Str → Type 0
IsTrusted c v =
    ((c.client_ip ≢ []) × (v ≡ c.client_ip)) ⊎ ((c.client_ip ≡ []) × (v ≡ lit "default"))

-- Nothing but `v` stands under the key.
abbrev pub IsOnly : Str → Str → Str × Str → Type 0
IsOnly key v (k, u) = (k ≢ key) ⊎ (u ≡ v)

abbrev has_entry : Str → List EntryDef → Bool
has_entry key es = any (λ (e : EntryDef). e.key == key) es

-- An entry of a descriptor of the settings has the key.
abbrev pub is_used : Str → List Descriptor → Bool
is_used key ds = any (λ (d : Descriptor). has_entry key d.entries) ds

is_ip_key-IsAddressKey : (key : Str) → IsAddressKey key → is_ip_key key ≡ true
unfolding is_ip_key
is_ip_key-IsAddressKey key h =
    ground
      (arith, eq_iff key (lit "ip"), eq_iff key (lit "client_ip"), eq_iff key (lit "remote_ip"))

or_default-IsTrusted : (c : RequestContext) (v : Str) → v ≡ or_default c.client_ip → IsTrusted c v
or_default-IsTrusted c v h = ground arith

runtime_value-IsTrusted :
    (o : FilterOptions) (c : RequestContext) (key : Str)
    → IsAddressKey key
    → IsTrusted c (runtime_value o c key)
unfolding runtime_value
runtime_value-IsTrusted o c key h =
    or_default-IsTrusted c _ (rw (is_ip_key-IsAddressKey key h) refl)

has_entry-append :
    (key : Str) (es fs : List EntryDef)
    → has_entry key (es ++ fs) ≡ (has_entry key es || has_entry key fs)
has_entry-append key [] fs = refl
has_entry-append key (e ∷ es) fs = ground (arith, has_entry-append key es fs)

has_entry-all_entries :
    (key : Str) (ds : List Descriptor) → has_entry key (all_entries ds) ≡ is_used key ds
unfolding all_entries
has_entry-all_entries key [] = refl
has_entry-all_entries key (d ∷ ds) =
    has_entry-append key d.entries (all_entries ds)
    ∙ ap (λ b. has_entry key d.entries || b) (has_entry-all_entries key ds)

module _ (o : FilterOptions) (c : RequestContext) where
  lookup-extract_from :
      (key : Str) (es : List EntryDef) (seen : List Str)
      → any (λ k. k == key) seen ≡ false
      → has_entry key es ≡ true
      → lookup key (extract_from o c es seen) ≡ some (runtime_value o c key)
  unfolding extract_from lookup
  lookup-extract_from key [] seen h m = cc
  lookup-extract_from key (e ∷ es) seen h m = ground (
    arith,
    lookup-extract_from key es seen h,
    lookup-extract_from key es (e.key ∷ seen),
    eq_iff e.key key,
    ap (runtime_value o c) {x = e.key} {y = key},
    ap (λ q. any (λ k. k == q) seen) {x = e.key} {y = key},
  )

  IsOnly-extract_from :
      (key : Str) (es : List EntryDef) (seen : List Str)
      → All (IsOnly key (runtime_value o c key)) (extract_from o c es seen)
  unfolding extract_from
  IsOnly-extract_from key [] seen = tt
  IsOnly-extract_from key (e ∷ es) seen =
      if_ind (All (IsOnly key (runtime_value o c key))) (any (λ k. k == e.key) seen)
        (IsOnly-extract_from key es seen)
        (
          elim (Bool-cases (e.key == key)) [
            | inl h ↦ inr (ap (runtime_value o c) ((eq_iff e.key key).0 h))
            | inr h ↦ inl (eq_false_ne e.key key h)
          ],
          IsOnly-extract_from key es (e.key ∷ seen),
        )

-- A key that means the client's address and that the settings use gets one descriptor value, whatever
-- headers a client sends and the settings map: the address that was resolved from the connection and
-- the trusted proxies, or `default` where there is none.
pub lookup-extract_descriptors :
    (o : FilterOptions) (c : RequestContext) (key : Str)
    → IsAddressKey key
    → is_used key o.descriptors ≡ true
    → (v : Str) × (lookup key (extract_descriptors o c) ≡ some v)
      × IsTrusted c v
      × All (IsOnly key v) (extract_descriptors o c)
unfolding extract_descriptors
lookup-extract_descriptors o c key a u = (
  runtime_value o c key,
  lookup-extract_from o c key (all_entries o.descriptors) [] refl
      (has_entry-all_entries key o.descriptors ∙ u),
  runtime_value-IsTrusted o c key a,
  IsOnly-extract_from o c key (all_entries o.descriptors) [],
)
