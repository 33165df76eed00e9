-- ===== src/Engine/Headers/Keyed.antt =====
-- Slices whose elements have a key (removeHeader, removeKey and containsKey of
-- internal/engine/context.go), and what the removal by swapping with the last element does.
use hypergate_engine.Prelude.{
  ℕ, ◌+◌, ◌-◌, ◌≤◌, ◌≡◌, refl, Bool, true, false, ◌||◌, List, [], ◌∷◌, ◌++◌, Option, none, some,
  arith, if◌then◌else◌, ◌==◌, eq_iff, nat_eq, list_eq, push_second, last_first,
}
use hypergate_engine.Prelude.Text.{Str}

module _ {ℓ} {A : Type ℓ} (key : A → Str) where
  -- The first element with the key.
  unfoldable pub find : List A → Str → Option A
  find [] k = none
  find (x ∷ xs) k = if key x == k then some x else find xs k

  unfoldable pub has_key : List A → Str → Bool
  has_key [] k = false
  has_key (x ∷ xs) k = key x == k || has_key xs k

  unfoldable pub count_key : List A → Str → ℕ
  count_key [] k = 0
  count_key (x ∷ xs) k = (if key x == k then 1 else 0) + count_key xs k

  -- `s[i] = s[len(s)-1]; return s[:len(s)-1]` at the first element with the key.
  unfoldable pub swap_remove : List A → Str → List A
  unfolding last_first
  swap_remove [] k = []
  swap_remove (x ∷ xs) k = if key x == k then last_first xs else x ∷ swap_remove xs k

  pub has_key-eq-count :
      (xs : List A) (k : Str) → has_key xs k ≡ (if count_key xs k == 0 then false else true)
  unfolding has_key count_key
  has_key-eq-count [] k = refl
  has_key-eq-count (x ∷ xs) k = ground (arith, has_key-eq-count xs k)

  pub find-eq-none : (xs : List A) (k : Str) → count_key xs k ≡ 0 → find xs k ≡ none
  unfolding find count_key
  find-eq-none [] k h = refl
  find-eq-none (x ∷ xs) k h = ground (arith, find-eq-none xs k)

  pub count_key-append :
      (xs ys : List A) (k : Str) → count_key (xs ++ ys) k ≡ count_key xs k + count_key ys k
  unfolding count_key
  count_key-append [] ys k = omega arith
  count_key-append (x ∷ xs) ys k = omega (arith, count_key-append xs ys k)

  count_key-push_second :
      (x : A) (xs : List A) (k : Str) → count_key (push_second x xs) k ≡ count_key (x ∷ xs) k
  unfolding count_key
  count_key-push_second x [] k = refl
  count_key-push_second x (y ∷ ys) k = omega arith

  count_key-last_first : (xs : List A) (k : Str) → count_key (last_first xs) k ≡ count_key xs k
  unfolding last_first count_key
  count_key-last_first [] k = refl
  count_key-last_first (x ∷ xs) k =
      omega (arith, count_key-push_second x (last_first xs) k, count_key-last_first xs k)

  find-push_second :
      (x : A) (xs : List A) (k : Str)
      → count_key (x ∷ xs) k ≤ 1
      → find (push_second x xs) k ≡ find (x ∷ xs) k
  unfolding find count_key
  find-push_second x [] k h = refl
  find-push_second x (y ∷ ys) k h = ground arith

  find-last_first :
      (xs : List A) (k : Str) → count_key xs k ≤ 1 → find (last_first xs) k ≡ find xs k
  unfolding last_first find count_key
  find-last_first [] k h = refl
  find-last_first (x ∷ xs) k h =
      ground (
        arith,
        find-push_second x (last_first xs) k,
        count_key-last_first xs k,
        find-last_first xs k,
      )

  -- One element with the key goes; the others stay, as often.
  pub count_key-swap_remove :
      (xs : List A) (k j : Str)
      → count_key (swap_remove xs k) j ≡ (if k == j then count_key xs j - 1 else count_key xs j)
  unfolding swap_remove count_key
  count_key-swap_remove [] k j = ground arith
  count_key-swap_remove (x ∷ xs) k j = ground (
    arith,
    count_key-last_first xs j,
    count_key-swap_remove xs k j,
    eq_iff (key x) k,
    eq_iff (key x) j,
    eq_iff k j,
  )

  -- Where no key stands twice, removal is that of a map.
  pub find-swap_remove :
      (xs : List A) (k j : Str)
      → count_key xs j ≤ 1
      → find (swap_remove xs k) j ≡ (if k == j then none else find xs j)
  unfolding swap_remove find count_key
  find-swap_remove [] k j h = ground arith
  find-swap_remove (x ∷ xs) k j h = ground (
    arith,
    find-last_first xs j,
    find-eq-none xs j,
    find-swap_remove xs k j,
    eq_iff (key x) k,
    eq_iff (key x) j,
    eq_iff k j,
  )
