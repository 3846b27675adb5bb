-- ===== src/Base/Dict.antt =====
-- A Go map with string keys, as an association list with one entry for a key. A `range` over a map
-- visits its entries in an order of the runtime's choosing; `values` is one such order, and code
-- that ranges takes the order as an argument.
use Prim.Native.String.{String}
use Prim.Native.Nat.{ℕ, ◌+◌}
use mathlib.Core.Path.{◌≡◌, refl, subst₂}
use mathlib.Core.Logic.{◌≢◌, ◌⊎◌, inl, inr}
use mathlib.Core.Option.{Option, none, some}
use mathlib.Core.List.{List, [], ◌∷◌}
use native.Mathlib.Omega.{arith}
use text.Mathlib.Text.{◌==◌ as str_eq}
use text.Mathlib.TextEquality.{eq_iff}
use chihuo.Base.Tests.{if◌then◌else◌, Bool-cases}

abbrev pub Dict {ℓ} : Type ℓ → Type ℓ
Dict V = List (String × V)

module _ {ℓ} {V : Type ℓ} where
  -- `v, ok := m[k]`
  unfoldable pub lookup : String → Dict V → Option V
  lookup k [] = none
  lookup k ((j, v) ∷ m) = if str_eq j k then some v else lookup k m

  -- `m[k]`, with the zero value where the key is missing
  unfoldable pub get_or : V → String → Dict V → V
  unfolding lookup
  get_or zero_value k m = elim (lookup k m) [ none ↦ zero_value | some v ↦ v ]

  -- `m[k] = v`
  unfoldable pub insert : String → V → Dict V → Dict V
  insert k v [] = (k, v) ∷ []
  insert k v ((j, w) ∷ m) = if str_eq j k then (j, v) ∷ m else (j, w) ∷ insert k v m

  unfoldable pub values : Dict V → List V
  values [] = []
  values ((k, v) ∷ m) = v ∷ values m

  pub lookup-insert :
      (k j : String) (v : V) (m : Dict V)
      → lookup j (insert k v m) ≡ (if str_eq k j then some v else lookup j m)
  unfolding lookup insert
  lookup-insert k j v [] = refl
  lookup-insert k j v ((first, old) ∷ rest) = elim (Bool-cases (str_eq first k)) [
    | inl here ↦ ground (arith, here, eq_iff first k, eq_iff first j, eq_iff k j)
    | inr further ↦
        ground
          (arith, further, lookup-insert k j v rest, eq_iff first j, eq_iff k j, eq_iff first k)
  ]

  pub lookup-insert_self : (k : String) (v : V) (m : Dict V) → lookup k (insert k v m) ≡ some v
  lookup-insert_self k v m = ground (arith, lookup-insert k k v m, eq_iff k k)

  pub lookup-insert_ne :
      (k j : String) (v : V) (m : Dict V) → k ≢ j → lookup j (insert k v m) ≡ lookup j m
  lookup-insert_ne k j v m h = ground (arith, lookup-insert k j v m, eq_iff k j)

-- A property of each entry that a lookup finds.
abbrev pub Each {ℓ κ} : {V : Type ℓ} → (String → V → Type κ) → Dict V → Type (ℓ ⊔ κ)
Each {V} P m = (k : String) (v : V) → lookup k m ≡ some v → P k v

-- What a lookup finds after an insertion is the new value, under its key, or an old one.
pub lookup-insert_cases {ℓ} :
    {V : Type ℓ} (k j : String) (v w : V) (m : Dict V)
    → lookup j (insert k v m) ≡ some w
    → ((k ≡ j) × (v ≡ w)) ⊎ ((k ≢ j) × (lookup j m ≡ some w))
lookup-insert_cases k j v w m e = ground (arith, lookup-insert k j v m, eq_iff k j)

-- An insertion removes no key.
pub lookup-insert-none {ℓ} :
    {V : Type ℓ} (k j : String) (v : V) (m : Dict V)
    → lookup j (insert k v m) ≡ none
    → lookup j m ≡ none
lookup-insert-none k j v m e = ground (arith, lookup-insert k j v m)

pub Each-insert {ℓ κ} :
    {V : Type ℓ} (P : String → V → Type κ) (k : String) (v : V) (m : Dict V)
    → P k v
    → Each P m
    → Each P (insert k v m)
Each-insert P k v m here there j w e = elim (lookup-insert_cases k j v w m e) [
  | inl (same_key, same_value) ↦ subst₂ P same_key same_value here
  | inr (other_key, old) ↦ there j w old
]

-- The sum of a measure over a list, such as the values of a map.
unfoldable pub total {ℓ} : {A : Type ℓ} → (A → ℕ) → List A → ℕ
total f [] = 0
total f (x ∷ xs) = f x + total f xs

module _ {ℓ} {V : Type ℓ} (f : V → ℕ) (k : String) (v : V) where
  pub total-insert_new :
      (m : Dict V) → lookup k m ≡ none → total f (values (insert k v m)) ≡ total f (values m) + f v
  unfolding lookup insert values total
  total-insert_new [] h = omega arith
  total-insert_new ((j, w) ∷ m) h = elim (Bool-cases (str_eq j k)) [
    | inl same ↦ ground arith
    | inr other ↦ ground (arith, total-insert_new m)
  ]

  pub total-insert_old :
      (w : V) (m : Dict V)
      → lookup k m ≡ some w
      → total f (values (insert k v m)) + f w ≡ total f (values m) + f v
  unfolding lookup insert values total
  total-insert_old w [] h = cc
  total-insert_old w ((j, u) ∷ m) h = elim (Bool-cases (str_eq j k)) [
    | inl same ↦ ground arith
    | inr other ↦ ground (arith, total-insert_old w m)
  ]

pub lookup-insert_at {ℓ} :
    {V : Type ℓ} (k j : String) (v : V) (m : Dict V) → k ≡ j → lookup j (insert k v m) ≡ some v
lookup-insert_at k j v m e = ground (arith, lookup-insert k j v m, eq_iff k j)
