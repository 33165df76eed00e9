-- ===== src/Selector/Sets/Compiled.antt =====
-- Compile for whole lists (internal/selector/selector.go).
use hypergate_engine.Prelude.{
  Bool, false, ◌&&◌, ◌||◌, not, List, [], ◌∷◌, ◌++◌, Option, none, some, any, all, is_some, is_none,
  ◌≡◌, refl, arith, Option-cases, inl, inr, length, ◌==◌, nat_eq, list_eq, list_beq,
}
use hypergate_engine.Prelude.Text.{Str, cut}
use hypergate_engine.Net.{Addr}
use hypergate_engine.Identity.Workload.{Workload}
use hypergate_engine.Selector.Kinds.{Kind, Side, source, destination, info}
use hypergate_engine.Selector.Parse.{Netip, Selector, parse, selector_string}
use hypergate_engine.Selector.Sets.{
  Set, empty_set, add_kind, add_selector, compile_from, compile, match_source, match_destination,
  uses_workloads, member,
}
use hypergate_engine.Selector.Sets.Meaning.{selects_source, selects_destination}
use hypergate_engine.Selector.Sets.Laws.{match_source-add_selector, match_destination-add_selector}

-- An entry of a list that Compile does not refuse.
abbrev allowed : Bool → Option Selector → Bool
allowed allow none = false
allowed allow (some sel) = not ((info sel.kind).workload && not allow)

abbrev pub acceptable : Netip → Side → Bool → Str → Bool
acceptable net side allow raw = allowed allow (parse net raw side)

-- A test of selectors on the entries of a list.
abbrev on_parsed : (Selector → Bool) → Option Selector → Bool
on_parsed S none = false
on_parsed S (some sel) = S sel

abbrev pub entry : Netip → Side → (Selector → Bool) → Str → Bool
entry net side S raw = on_parsed S (parse net raw side)

module _ (net : Netip) (side : Side) (allow : Bool) where
  compile_from-accepts :
      (list : List Str) (set : Set)
      → is_some (compile_from net list side allow set) ≡ all (acceptable net side allow) list
  unfolding compile_from
  compile_from-accepts [] set = refl
  compile_from-accepts (raw ∷ list) set = elim (Option-cases (parse net raw side)) [
    | inl e ↦ rw (e, compile_from) refl
    | inr (sel, e) ↦ ground (arith, e, compile_from-accepts list (add_selector sel set))
  ]

  -- Compile succeeds exactly where each entry parses for the side and is no workload selector
  -- without the identity map; an empty list compiles to nil.
  pub compile-accepts :
      (list : List Str)
      → (is_some (compile net list side allow) ≡ all (acceptable net side allow) list)
        × (compile net [] side allow ≡ some none)
  unfolding compile
  compile-accepts [] = (refl, refl)
  compile-accepts (raw ∷ list) = (ground (arith, compile_from-accepts (raw ∷ list) empty_set), refl)

  module _ (M : Set → Bool) (S : Selector → Bool)
      (adds : (sel : Selector) (s : Set) → M (add_selector sel s) ≡ M s || S sel) where
    compile_from-any :
        (list : List Str) (set : Set) {r : Set}
        → compile_from net list side allow set ≡ some r
        → M r ≡ M set || any (entry net side S) list
    unfolding compile_from
    compile_from-any [] set h = ground arith
    compile_from-any (raw ∷ list) set {r} h = elim (Option-cases (parse net raw side)) [
      | inl e ↦ ground arith
      | inr (sel, e) ↦
          ground (arith, adds sel set, compile_from-any list (add_selector sel set) {r = r})
    ]

-- Only workload kinds fill the workload parts of a set.
add_kind-network :
    (k : Kind) (sel : Selector) (s : Set)
    → (info k).workload ≡ false
    → uses_workloads (some s) ≡ false
    → uses_workloads (some (add_kind k sel s)) ≡ false
unfolding uses_workloads info
add_kind-network k sel s h u = ground arith

add_selector-network :
    (sel : Selector) (s : Set)
    → (info sel.kind).workload ≡ false
    → uses_workloads (some s) ≡ false
    → uses_workloads (some (add_selector sel s)) ≡ false
unfolding add_selector
add_selector-network sel s h u =
    add_kind-network sel.kind sel (record s { raw = s.raw ++ selector_string sel ∷ [] }) h
      (unfold uses_workloads in u)

module _ (net : Netip) (side : Side) where
  compile_from-network :
      (list : List Str) (set : Set) {r : Set}
      → compile_from net list side false set ≡ some r
      → uses_workloads (some set) ≡ false
      → uses_workloads (some r) ≡ false
  unfolding compile_from
  compile_from-network [] set h u = ground arith
  compile_from-network (raw ∷ list) set {r} h u = elim (Option-cases (parse net raw side)) [
    | inl e ↦ ground arith
    | inr (sel, e) ↦ ground (
      arith,
      add_selector-network sel set,
      compile_from-network list (add_selector sel set) {r = r},
    )
  ]

  -- Without the identity map no compiled set has a workload selector.
  pub compile-network :
      (list : List Str) {r : Option Set}
      → compile net list side false ≡ some r
      → uses_workloads r ≡ false
  unfolding compile uses_workloads
  compile-network [] h = ground arith
  compile-network (raw ∷ list) {r} h =
      elim (Option-cases (compile_from net (raw ∷ list) side false empty_set)) [
        | inl e ↦ ground arith
        | inr (s, e) ↦ ground (arith, compile_from-network (raw ∷ list) empty_set {r = s})
      ]

any-false {ℓ} :
    {A : Type ℓ} (p : A → Bool) (xs : List A) → ((x : A) → p x ≡ false) → any p xs ≡ false
any-false p [] h = refl
any-false p (x ∷ xs) h = ground (arith, h x, any-false p xs h)

-- The set of no selector matches nothing.
match_source-empty :
    (a : Addr) (w : Option Workload) (ext : Bool) → match_source (some empty_set) a w ext ≡ false
unfolding match_source list_beq
match_source-empty a none ext = ground arith
match_source-empty a (some w) ext =
    ground (arith, any-false (λ svc. member svc ([])) w.services (λ svc. refl))

match_destination-empty :
    (a : Addr) (host : Str) (services : List Str)
    → match_destination (some empty_set) a host services ≡ false
unfolding match_destination list_beq
match_destination-empty a host services = ground (
  arith,
  any-false (λ svc. member svc ([]) || member (cut b'/' svc).0 ([])) services (λ svc. refl),
)

module _ (net : Netip) (allow : Bool) where
  -- A compiled source list lets a caller through exactly where one of its entries selects it; the
  -- empty list lets every caller through.
  pub compile-match_source :
      (list : List Str) (a : Addr) (w : Option Workload) (ext : Bool) {r : Option Set}
      → compile net list source allow ≡ some r
      → match_source r a w ext
        ≡ (length list == 0 || any (entry net source (λ sel. selects_source sel a w ext)) list)
  unfolding compile match_source
  compile-match_source [] a w ext h = ground arith
  compile-match_source (raw ∷ list) a w ext {r} h =
      elim (Option-cases (compile_from net (raw ∷ list) source allow empty_set)) [
        | inl e ↦ ground arith
        | inr (s, e) ↦ ground (
          arith,
          match_source-empty a w ext,
          compile_from-any net source allow (λ t. match_source (some t) a w ext)
              (λ sel. selects_source sel a w ext) (λ sel t. match_source-add_selector a ext sel t w)
              (raw ∷ list) empty_set {r = s},
        )
      ]

  -- A compiled destination list lets a target through exactly where one of its entries selects it; the
  -- empty list lets every target through.
  pub compile-match_destination :
      (list : List Str) (a : Addr) (host : Str) (services : List Str) {r : Option Set}
      → compile net list destination allow ≡ some r
      → match_destination r a host services ≡ (
          length list == 0
          || any (entry net destination (λ sel. selects_destination sel a host services)) list)
  unfolding compile match_destination
  compile-match_destination [] a host services h = ground arith
  compile-match_destination (raw ∷ list) a host services {r} h =
      elim (Option-cases (compile_from net (raw ∷ list) destination allow empty_set)) [
        | inl e ↦ ground arith
        | inr (s, e) ↦ ground (
          arith,
          match_destination-empty a host services,
          compile_from-any net destination allow (λ t. match_destination (some t) a host services)
              (λ sel. selects_destination sel a host services)
              (match_destination-add_selector a host services) (raw ∷ list) empty_set {r = s},
        )
      ]

-- Only the empty list compiles to nil.
pub compile-nil :
    (net : Netip) (side : Side) (allow : Bool) (list : List Str) {r : Option Set}
    → compile net list side allow ≡ some r
    → is_none r ≡ (length list == 0)
unfolding compile
compile-nil net side allow [] h = ground arith
compile-nil net side allow (raw ∷ list) h = ground arith
