-- ===== src/Selector/Sets/Laws.antt =====
-- Adding a selector to a compiled list (internal/selector/selector.go).
use hypergate_engine.Prelude.{
  Bool, ◌&&◌, ◌||◌, List, [], ◌∷◌, ◌++◌, Option, none, some, ◌==◌, eq_iff, nat_eq, list_eq, any,
  ◌≡◌, refl, arith, Eq, ◌∙◌, list_beq, length, ltb,
}
use hypergate_engine.Prelude.Text.{Str, lit, cut, has_suffix}
use hypergate_engine.Net.{Addr, contains, addr_eq}
use hypergate_engine.Identity.Workload.{Workload}
use hypergate_engine.Selector.Kinds.{Kind}
use hypergate_engine.Selector.Parse.{Selector, selector_string}
use hypergate_engine.Selector.Sets.{
  Set, member, add_key, add_kind, add_selector, match_source, match_destination, label_matches,
}
use hypergate_engine.Selector.Sets.Meaning.{
  source_of_kind, destination_of_kind, selects_source, selects_destination,
}

module _ {ℓ} {A : Type ℓ} where
  any-snoc : (p : A → Bool) (xs : List A) (x : A) → any p (xs ++ x ∷ []) ≡ any p xs || p x
  any-snoc p [] x = ground arith
  any-snoc p (y ∷ ys) x = ground (arith, any-snoc p ys x)

module _ {ℓ} {A : Type ℓ} ⦃e : Eq A⦄ where
  member-add_key : (m : List A) (k a : A) → member a (add_key m k) ≡ (a == k || member a m)
  unfolding add_key member
  member-add_key m k a = ground (arith, member-eq m k a, eq_iff a k)
    where
      member-eq : (l : List A) (b c : A) → c ≡ b → member c l ≡ member b l
      member-eq l b c q = cc

-- A test that lets more elements through, by another test.
any-extend {ℓ} :
    {A : Type ℓ} (p' p r : A → Bool) (xs : List A)
    → ((x : A) → p' x ≡ p x || r x)
    → any p' xs ≡ any p xs || any r xs
any-extend p' p r [] h = refl
any-extend p' p r (x ∷ xs) h = ground (arith, h x, any-extend p' p r xs h)

module _ (a : Addr) (ext : Bool) where
  match_source-add_kind :
      (k : Kind) (sel : Selector) (s : Set) (w : Option Workload)
      → match_source (some (add_kind k sel s)) a w ext
        ≡ match_source (some s) a w ext || source_of_kind k sel a w ext
  unfolding match_source list_beq
  match_source-add_kind Kind.any sel s w = ground arith
  match_source-add_kind Kind.ip sel s w = ground (arith, member-add_key s.addrs sel.addr a)
  match_source-add_kind Kind.cidr sel s w =
      ground (arith, any-snoc (λ p. contains p a) s.prefixes sel.prefix)
  match_source-add_kind Kind.host sel s w = ground arith
  match_source-add_kind Kind.external sel s w = ground arith
  match_source-add_kind _ sel s none = ground arith
  match_source-add_kind Kind.service sel s (some w) = ground (
    arith,
    any-extend (λ svc. member svc (add_key s.services sel.value)) (λ svc. member svc s.services)
        (λ svc. svc == sel.value) w.services
        (λ svc. ground (arith, member-add_key s.services sel.value svc)),
  )
  match_source-add_kind Kind.namespace sel s (some w) =
      ground (arith, member-add_key s.namespaces sel.value w.namespace)
  match_source-add_kind Kind.sa sel s (some w) =
      ground (arith, member-add_key s.sas sel.value (w.namespace ++ lit "/" ++ w.service_account))
  match_source-add_kind Kind.spiffe sel s (some w) = ground (
    arith,
    member-add_key s.spiffe (lit "spiffe:" ++ sel.value) w.spiffe_id,
    eq_iff w.spiffe_id (lit "spiffe:" ++ sel.value),
    eq_iff w.spiffe_id (lit ""),
  )
  match_source-add_kind Kind.labels sel s (some w) = ground (
    arith,
    any-snoc (λ l. label_matches l w) s.labels
        (record { namespace = sel.label_ns; kv = sel.label_kv }),
  )

  -- Adding a selector adds what it selects, and nothing else.
  pub match_source-add_selector :
      (sel : Selector) (s : Set) (w : Option Workload)
      → match_source (some (add_selector sel s)) a w ext
        ≡ match_source (some s) a w ext || selects_source sel a w ext
  unfolding add_selector selects_source
  match_source-add_selector sel s w =
      match_source-add_kind sel.kind sel (record s { raw = s.raw ++ selector_string sel ∷ [] }) w
      ∙ unfold match_source in refl

module _ (a : Addr) (host : Str) (services : List Str) where
  match_destination-add_kind :
      (k : Kind) (sel : Selector) (s : Set)
      → match_destination (some (add_kind k sel s)) a host services
        ≡ match_destination (some s) a host services || destination_of_kind k sel a host services
  unfolding match_destination list_beq
  match_destination-add_kind Kind.any sel s = ground arith
  match_destination-add_kind Kind.ip sel s = ground (arith, member-add_key s.addrs sel.addr a)
  match_destination-add_kind Kind.cidr sel s =
      ground (arith, any-snoc (λ p. contains p a) s.prefixes sel.prefix)
  match_destination-add_kind Kind.host sel s = ground (
    arith,
    member-add_key s.hosts sel.host host,
    any-snoc (λ suffix. ltb (length suffix) (length host) && has_suffix host suffix) s.suffixes
        sel.host,
  )
  match_destination-add_kind Kind.service sel s = ground (
    arith,
    any-extend
        (λ svc. member svc (add_key s.services sel.value) || member (cut b'/' svc).0 s.namespaces)
        (λ svc. member svc s.services || member (cut b'/' svc).0 s.namespaces)
        (λ svc. svc == sel.value) services
        (λ svc. ground (arith, member-add_key s.services sel.value svc)),
  )
  match_destination-add_kind Kind.namespace sel s = ground (
    arith,
    any-extend
        (λ svc. member svc s.services || member (cut b'/' svc).0 (add_key s.namespaces sel.value))
        (λ svc. member svc s.services || member (cut b'/' svc).0 s.namespaces)
        (λ svc. (cut b'/' svc).0 == sel.value) services
        (λ svc. ground (arith, member-add_key s.namespaces sel.value (cut b'/' svc).0)),
  )
  match_destination-add_kind _ sel s = ground arith

  -- The same for the target of a request.
  pub match_destination-add_selector :
      (sel : Selector) (s : Set)
      → match_destination (some (add_selector sel s)) a host services
        ≡ match_destination (some s) a host services || selects_destination sel a host services
  unfolding add_selector selects_destination
  match_destination-add_selector sel s =
      match_destination-add_kind sel.kind sel (record s { raw = s.raw ++ selector_string sel ∷ [] })
      ∙ unfold match_destination in refl
