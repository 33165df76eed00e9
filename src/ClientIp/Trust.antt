-- ===== src/ClientIp/Trust.antt =====
-- What of the X-Forwarded-For header and of the peer decides the resolved address
-- (internal/clientip/clientip.go).
use mathlib.Core.Path.{ap₂}
use mathlib.Core.List.{append_assoc}
use native.Mathlib.Nat.{zero-add, suc-add}
use hypergate_engine.Prelude.{
  ℕ, zero, suc, ◌+◌, ◌-◌, ◌<◌, List, [], ◌∷◌, ◌++◌, some, ◌==◌, nat_eq, list_eq, list_beq, eq_iff,
  length, get_elem?, length-append, ℤ, pos, ◌≡◌, ◌≢◌, refl, arith, ap, sym, ◌∙◌, Bool-cases,
  Option-cases, inl, inr,
}
use hypergate_engine.Prelude.Text.{Str, split, split-append, lit, trim_space}
use hypergate_engine.ClientIp.{
  strip_port, entries, split_xff, last?, with_peer, pick, resolve, hops_of,
}

entries-append : (xs ys : List Str) → entries (xs ++ ys) ≡ entries xs ++ entries ys
unfolding entries
entries-append [] ys = refl
entries-append (x ∷ xs) ys = ground (arith, entries-append xs ys)

split_xff-eq : (s : Str) → split_xff s ≡ entries (split b',' s)
unfolding split_xff split strip_port trim_space list_beq
split_xff-eq [] = refl
split_xff-eq (c ∷ s) = refl

split_xff-append : (s t : Str) → split_xff (s ++ b',' ∷ t) ≡ split_xff s ++ split_xff t
split_xff-append s t =
    split_xff-eq (s ++ b',' ∷ t)
    ∙ ap entries (split-append b',' s t)
    ∙ entries-append (split b',' s) (split b',' t)
    ∙ ap₂ (λ xs ys. xs ++ ys) (sym (split_xff-eq s)) (sym (split_xff-eq t))

get_elem?-append :
    (xs ys : List Str) (i : ℕ) → get_elem? (xs ++ ys) (length xs + i) ≡ get_elem? ys i
get_elem?-append [] ys i = rw zero-add refl
get_elem?-append (x ∷ xs) ys i = rw suc-add (get_elem?-append xs ys i)

-- What stands further to the left than the trusted hops does not count.
pick-append : (xs ys : List Str) (h : ℕ) → h < length ys → pick (xs ++ ys) h ≡ pick ys h
unfolding pick
pick-append xs ys h lt =
    let e : length (xs ++ ys) - 1 - h ≡ length xs + (length ys - 1 - h) =
      omega (arith, length-append xs ys) in
    rw (e, get_elem?-append xs ys (length ys - 1 - h)) refl

last?-append : (xs ys : List Str) → ys ≢ [] → last? (xs ++ ys) ≡ last? ys
last?-append [] ys h = refl
last?-append (x ∷ xs) [] h = absurd (h refl)
last?-append (x ∷ []) (y ∷ ys) h = refl
last?-append (x ∷ z ∷ xs) (y ∷ ys) h = last?-append (z ∷ xs) (y ∷ ys) h

with_peer-append :
    (xs ys : List Str) (p : Str) → ys ≢ [] → with_peer (xs ++ ys) p ≡ xs ++ with_peer ys p
unfolding with_peer
with_peer-append xs ys p h = ground (arith, last?-append xs ys h, append_assoc xs ys (p ∷ []))

get_elem?-last : (x : Str) (xs : List Str) → get_elem? (x ∷ xs) (length xs) ≡ last? (x ∷ xs)
get_elem?-last x [] = refl
get_elem?-last x (y ∷ xs) = get_elem?-last y xs

pick-last : (xs : List Str) (p : Str) → last? xs ≡ some p → pick xs 0 ≡ p
unfolding pick
pick-last [] p h = cc
pick-last (x ∷ xs) p h =
    let e : length (x ∷ xs) - 1 - 0 ≡ length xs = omega arith in rw (e, get_elem?-last x xs, h) refl

last?-with_peer : (xs : List Str) (p : Str) → p ≢ [] → last? (with_peer xs p) ≡ some p
unfolding with_peer
last?-with_peer xs p h = elim (Option-cases (last? xs)) [
  | inl e ↦ ground (arith, eq_iff p (lit ""), last?-append xs (p ∷ []) (λ q. cc))
  | inr (l, e) ↦ ground (arith, eq_iff p (lit ""), eq_iff l p, last?-append xs (p ∷ []) (λ q. cc))
]

-- The direct peer of Envoy is the client where no proxy hop is trusted, whatever the header says.
pub resolve-peer :
    (xff peer : Str) → strip_port peer ≢ [] → resolve xff peer (pos 0) ≡ strip_port peer
unfolding resolve
resolve-peer xff peer h =
    pick-last (with_peer (split_xff xff) (strip_port peer)) (strip_port peer)
      (last?-with_peer (split_xff xff) (strip_port peer) h)

pick-forged :
    (fs es : List Str) (p : Str) (h : ℕ)
    → h < length (with_peer es p)
    → pick (with_peer (fs ++ es) p) h ≡ pick (with_peer es p) h
pick-forged fs (x ∷ es) p h lt =
    rw (with_peer-append fs (x ∷ es) p (λ q. cc)) (pick-append fs (with_peer (x ∷ es) p) h lt)
pick-forged fs [] p zero lt = elim (Bool-cases (p == [])) [
  | inl e ↦ absurd (unfold with_peer in (ground arith))
  | inr e ↦
      let ne : p ≢ [] = ground (arith, eq_iff p (lit "")) in
      pick-last (with_peer (fs ++ []) p) p (last?-with_peer (fs ++ []) p ne)
      ∙ sym (pick-last (with_peer [] p) p (last?-with_peer [] p ne))
]
pick-forged fs [] p (suc h) lt = absurd (unfold with_peer in (ground arith))

-- Text that a client puts in front of the X-Forwarded-For header does not change the result, where
-- the rest of the header and the peer cover the trusted hops.
pub resolve-forged :
    (forged xff peer : Str) (hops : ℤ)
    → hops_of hops < length (with_peer (split_xff xff) (strip_port peer))
    → resolve (forged ++ b',' ∷ xff) peer hops ≡ resolve xff peer hops
unfolding resolve
resolve-forged forged xff peer hops lt =
    rw (split_xff-append forged xff)
      (pick-forged (split_xff forged) (split_xff xff) (strip_port peer) (hops_of hops) lt)
