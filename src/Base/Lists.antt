-- ===== src/Base/Lists.antt =====
-- Lists measured by native numbers, and predicates over all their elements.
use Prim.Native.Nat.{ℕ, zero, suc, ◌+◌, ◌-◌, min}
use mathlib.Core.Path.{◌≡◌, refl}
use mathlib.Core.List.{List, [], ◌∷◌, ◌++◌}
use mathlib.Core.Bool.{Bool}
use native.Mathlib.Omega.{arith}
use chihuo.Base.Tests.{if◌then◌else◌}

module _ {ℓ} {A : Type ℓ} where
  abbrev pub length : List A → ℕ
  length [] = 0
  length (x ∷ xs) = suc (length xs)

  abbrev pub take : ℕ → List A → List A
  take zero xs = []
  take (suc n) [] = []
  take (suc n) (x ∷ xs) = x ∷ take n xs

  abbrev pub drop : ℕ → List A → List A
  drop zero xs = xs
  drop (suc n) [] = []
  drop (suc n) (x ∷ xs) = drop n xs

  pub length-take : (n : ℕ) (xs : List A) → length (take n xs) ≡ min n (length xs)
  length-take zero xs = omega arith
  length-take (suc n) [] = omega arith
  length-take (suc n) (x ∷ xs) = omega (arith, length-take n xs)

  pub length-drop : (n : ℕ) (xs : List A) → length (drop n xs) ≡ length xs - n
  length-drop zero xs = omega arith
  length-drop (suc n) [] = omega arith
  length-drop (suc n) (x ∷ xs) = omega (arith, length-drop n xs)

  pub length-append : (xs ys : List A) → length (xs ++ ys) ≡ length xs + length ys
  length-append [] ys = omega arith
  length-append (x ∷ xs) ys = omega (arith, length-append xs ys)

  pub take-append-drop : (n : ℕ) (xs : List A) → take n xs ++ drop n xs ≡ xs
  take-append-drop zero xs = refl
  take-append-drop (suc n) [] = refl
  take-append-drop (suc n) (x ∷ xs) = rw (take-append-drop n xs)

-- A predicate that holds of every element.
abbrev pub All {ℓ κ} : {A : Type ℓ} → (A → Type κ) → List A → Type κ
All P [] = Unit
All P (x ∷ xs) = P x × All P xs

-- A loop that skips some elements and appends the others to its result.
unfoldable pub keep {ℓ} : {A : Type ℓ} → (A → Bool) → List A → List A
keep test [] = []
keep test (x ∷ xs) = let rest = keep test xs in if test x then x ∷ rest else rest

-- `sort.Slice` with the given `less`; here a stable insertion sort.
unfoldable pub insert_sorted {ℓ} : {A : Type ℓ} → (A → A → Bool) → A → List A → List A
insert_sorted less x [] = x ∷ []
insert_sorted less x (y ∷ ys) =
    let rest = insert_sorted less x ys in if less y x then y ∷ rest else x ∷ y ∷ ys

unfoldable pub sort_slice {ℓ} : {A : Type ℓ} → (A → A → Bool) → List A → List A
unfolding insert_sorted
sort_slice less [] = []
sort_slice less (x ∷ xs) = insert_sorted less x (sort_slice less xs)
