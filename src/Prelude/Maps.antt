-- ===== src/Prelude/Maps.antt =====
-- Go's map[string]V as a list of pairs. The list's order stands for the order in which a `range`
-- meets the entries. A write replaces the entry of its key, or adds one.
use Prim.Native.Nat.{ℕ, ◌+◌, ◌≤◌}
use Prim.Native.String.{String}
use mathlib.Core.Path.{◌≡◌, refl}
use mathlib.Core.Bool.{Bool, true, false}
use mathlib.Core.Option.{Option, none, some}
use mathlib.Core.List.{List, [], ◌∷◌}
use native.Mathlib.Omega.{arith}
use healthops.Prelude.Tests.{if◌then◌else◌, is_some}
use healthops.Prelude.Text.{str_eq, str_eq_iff}

abbrev pub Map {ℓ} : Type ℓ → Type ℓ
Map V = List (String × V)

module _ {ℓ} {V : Type ℓ} where
  -- m[k], with `none` for a missing key.
  unfoldable pub lookup : String → Map V → Option V
  lookup k [] = none
  lookup k ((j, v) ∷ m) = if str_eq j k then some v else lookup k m

  -- m[k] = v
  unfoldable pub insert : String → V → Map V → Map V
  insert k v [] = (k, v) ∷ []
  insert k v ((j, w) ∷ m) = if str_eq j k then (j, v) ∷ m else (j, w) ∷ insert k v m

  -- delete(m, k)
  unfoldable pub delete : String → Map V → Map V
  delete k [] = []
  delete k ((j, w) ∷ m) = if str_eq j k then delete k m else (j, w) ∷ delete k m

  abbrev pub has : String → Map V → Bool
  has k m = is_some (lookup k m)

  pub lookup-insert :
      (k j : String) (v : V) (m : Map V)
      → lookup j (insert k v m) ≡ (if str_eq k j then some v else lookup j m)
  unfolding lookup insert
  lookup-insert k j v [] = refl
  lookup-insert k j v ((i, w) ∷ m) =
      ground (arith, str_eq_iff k j, str_eq_iff i k, str_eq_iff i j, lookup-insert k j v m)

  pub lookup-delete :
      (k j : String) (m : Map V) → lookup j (delete k m) ≡ (if str_eq k j then none else lookup j m)
  unfolding lookup delete
  lookup-delete k j [] = ground (arith, str_eq_iff k j)
  lookup-delete k j ((i, w) ∷ m) =
      ground (arith, str_eq_iff k j, str_eq_iff i k, str_eq_iff i j, lookup-delete k j m)

-- How often a test holds of the values, before and after a write.
module _ {ℓ} {V : Type ℓ} (p : V → Bool) where
  unfoldable pub count_values : Map V → ℕ
  count_values [] = 0
  count_values ((k, v) ∷ m) = (if p v then 1 else 0) + count_values m

  -- The first entry of the list whose value passes the test.
  unfoldable pub find_value : Map V → Option V
  find_value [] = none
  find_value ((k, v) ∷ m) = if p v then some v else find_value m

  pub count_values-insert_old :
      (k : String) (old new : V) (m : Map V)
      → lookup k m ≡ some old
      → count_values (insert k new m) + (if p old then 1 else 0)
        ≡ count_values m + (if p new then 1 else 0)
  unfolding lookup insert count_values
  count_values-insert_old k old new [] h = cc
  count_values-insert_old k old new ((j, w) ∷ m) h =
      ground (arith, count_values-insert_old k old new m)

  pub count_values-insert_new :
      (k : String) (new : V) (m : Map V)
      → lookup k m ≡ none
      → count_values (insert k new m) ≡ count_values m + (if p new then 1 else 0)
  unfolding lookup insert count_values
  count_values-insert_new k new [] h = omega arith
  count_values-insert_new k new ((j, w) ∷ m) h = ground (arith, count_values-insert_new k new m)

  pub count_values-delete_le : (k : String) (m : Map V) → count_values (delete k m) ≤ count_values m
  unfolding delete count_values
  count_values-delete_le k [] = omega arith
  count_values-delete_le k ((j, w) ∷ m) = ground (arith, count_values-delete_le k m)

  pub find_value-none : (m : Map V) → find_value m ≡ none → count_values m ≡ 0
  unfolding count_values find_value
  find_value-none [] h = refl
  find_value-none ((k, v) ∷ m) h = ground (arith, find_value-none m)

  pub find_value-of_zero : (m : Map V) → count_values m ≡ 0 → find_value m ≡ none
  unfolding count_values find_value
  find_value-of_zero [] h = refl
  find_value-of_zero ((k, v) ∷ m) h = ground (arith, find_value-of_zero m)

  pub find_value-holds : (m : Map V) {v : V} → find_value m ≡ some v → p v ≡ true
  unfolding find_value
  find_value-holds [] h = cc
  find_value-holds ((k, w) ∷ m) {v} h = ground (arith, find_value-holds m {v = v})

  -- for k, v := range m { if p(v) { delete(m, k) } }
  unfoldable pub delete_values : Map V → Map V
  delete_values [] = []
  delete_values ((k, v) ∷ m) = if p v then delete_values m else (k, v) ∷ delete_values m

-- Maps whose keys are distinct and are the values' own identifiers.
module _ {ℓ} {V : Type ℓ} where
  unfoldable pub IsDistinct : Map V → Type ℓ
  IsDistinct [] = Unit
  IsDistinct ((k, v) ∷ m) = (lookup k m ≡ none) × IsDistinct m

  unfoldable pub IsKeyed : (V → String) → Map V → Type 0
  IsKeyed key [] = Unit
  IsKeyed key ((k, v) ∷ m) = (k ≡ key v) × IsKeyed key m

  pub insert-IsDistinct :
      (k : String) (v : V) (m : Map V) → IsDistinct m → IsDistinct (insert k v m)
  unfolding lookup insert IsDistinct
  insert-IsDistinct k v [] h = (refl, tt)
  insert-IsDistinct k v ((j, w) ∷ m) h =
      ground (arith, lookup-insert k j v m, insert-IsDistinct k v m, str_eq_iff j k, str_eq_iff k j)

  pub insert-IsKeyed :
      (key : V → String) (v : V) (m : Map V) → IsKeyed key m → IsKeyed key (insert (key v) v m)
  unfolding insert IsKeyed
  insert-IsKeyed key v [] h = (refl, tt)
  insert-IsKeyed key v ((j, w) ∷ m) h = ground (arith, insert-IsKeyed key v m, str_eq_iff j (key v))

  pub find_value-lookup :
      (p : V → Bool) (key : V → String) (m : Map V) {v : V}
      → IsDistinct m
      → IsKeyed key m
      → find_value p m ≡ some v
      → lookup (key v) m ≡ some v
  unfolding lookup IsDistinct IsKeyed find_value
  find_value-lookup p key [] d h e = cc
  find_value-lookup p key ((k, w) ∷ m) {v} d h e =
      ground (
        arith,
        find_value-lookup p key m {v = v} d.1 h.1,
        str_eq_iff k (key v),
        str_eq_iff k (key w),
      )

  pub lookup-key :
      (key : V → String) (k : String) (m : Map V) {v : V}
      → IsKeyed key m
      → lookup k m ≡ some v
      → key v ≡ k
  unfolding lookup IsKeyed
  lookup-key key k [] h e = cc
  lookup-key key k ((j, w) ∷ m) {v} h e =
      ground (arith, lookup-key key k m {v = v} h.1, str_eq_iff j k)

  module _ (p : V → Bool) where
    pub lookup-delete_values :
        (k : String) (m : Map V)
        → IsDistinct m
        → lookup k (delete_values p m)
          ≡ elim (lookup k m) [ none ↦ none | some v ↦ if p v then none else some v ]
    unfolding lookup delete_values IsDistinct
    lookup-delete_values k [] d = refl
    lookup-delete_values k ((j, w) ∷ m) d =
        ground (arith, lookup-delete_values k m d.1, str_eq_iff j k)

    pub delete_values-IsDistinct : (m : Map V) → IsDistinct m → IsDistinct (delete_values p m)
    unfolding delete_values IsDistinct
    delete_values-IsDistinct [] d = tt
    delete_values-IsDistinct ((j, w) ∷ m) d =
        ground (arith, delete_values-IsDistinct m d.1, lookup-delete_values j m d.1)

    pub delete_values-IsKeyed :
        (key : V → String) (m : Map V) → IsKeyed key m → IsKeyed key (delete_values p m)
    unfolding delete_values IsKeyed
    delete_values-IsKeyed key [] h = tt
    delete_values-IsKeyed key ((j, w) ∷ m) h = ground (arith, delete_values-IsKeyed key m h.1)

    pub count_values-delete_values :
        (q : V → Bool) (m : Map V) → count_values q (delete_values p m) ≤ count_values q m
    unfolding count_values delete_values
    count_values-delete_values q [] = omega arith
    count_values-delete_values q ((k, v) ∷ m) = ground (arith, count_values-delete_values q m)

-- Searches after a write.
module _ {ℓ} {V : Type ℓ} (p : V → Bool) where
  pub find_value-insert_new :
      (k : String) (v : V) (m : Map V)
      → lookup k m ≡ none
      → find_value p m ≡ none
      → p v ≡ true
      → find_value p (insert k v m) ≡ some v
  unfolding lookup insert find_value
  find_value-insert_new k v [] h e t = ground arith
  find_value-insert_new k v ((j, w) ∷ m) h e t = ground (arith, find_value-insert_new k v m)

  pub find_value-insert_skip :
      (k : String) (old new : V) (m : Map V)
      → lookup k m ≡ some old
      → p old ≡ false
      → p new ≡ false
      → find_value p (insert k new m) ≡ find_value p m
  unfolding lookup insert find_value
  find_value-insert_skip k old new [] h e t = cc
  find_value-insert_skip k old new ((j, w) ∷ m) h e t =
      ground (arith, find_value-insert_skip k old new m)

  -- The value that the search finds stays the one that it finds.
  pub find_value-insert_first :
      (key : V → String) (old new : V) (m : Map V)
      → IsKeyed key m
      → find_value p m ≡ some old
      → lookup (key old) m ≡ some old
      → p new ≡ true
      → find_value p (insert (key old) new m) ≡ some new
  unfolding lookup insert find_value IsKeyed
  find_value-insert_first key old new [] k h e t = cc
  find_value-insert_first key old new ((j, w) ∷ m) k h e t = ground (
    arith,
    str_eq_iff j (key old),
    str_eq_iff j (key w),
    find_value-holds p m {v = old},
    find_value-insert_first key old new m k.1,
  )
