-- ===== src/Store/Listing/Sets.antt =====
-- When equalStringSet compares two lists as sets.
use Prim.{Unit}
use chihuo.Base.{
  suc, ◌≤◌, String, ◌≡◌, refl, sym, ◌∙◌, ◌≢◌, ◌↔◌, Bool, true, false, inl, inr, List, [], ◌∷◌, map,
  arith, str_eq, eq_iff, length, Bool-cases, if◌then◌else◌,
}
use chihuo.Store.Listing.{contains, all_seen, constraint_key, equal_string_set}

-- No two of the keys are equal.
abbrev pub AreDistinct : List String → Type 0
AreDistinct [] = Unit
AreDistinct (k ∷ ks) = (contains k ks ≡ false) × AreDistinct ks

-- The lists have the same members.
abbrev pub HaveSameKeys : List String → List String → Type 0
HaveSameKeys ks js = (k : String) → contains k ks ≡ contains k js

-- The list without the first of its members that is k.
unfoldable remove_first : String → List String → List String
remove_first k [] = []
remove_first k (x ∷ xs) = if str_eq x k then xs else x ∷ remove_first k xs

length-remove_first :
    (k : String) (xs : List String)
    → contains k xs ≡ true
    → length xs ≡ suc (length (remove_first k xs))
unfolding contains remove_first
length-remove_first k [] there = cc
length-remove_first k (x ∷ xs) there = elim (Bool-cases (str_eq x k)) [
  | inl same ↦ ground (arith, same)
  | inr other ↦ ground (arith, other, length-remove_first k xs (ground (arith, there, other)))
]

contains-remove_first :
    (k j : String) (xs : List String)
    → contains j xs ≡ true
    → k ≢ j
    → contains j (remove_first k xs) ≡ true
unfolding contains remove_first
contains-remove_first k j [] there differs = cc
contains-remove_first k j (x ∷ xs) there differs = elim (Bool-cases (str_eq x j)) [
  | inl same ↦ ground (arith, same, differs, eq_iff x j, eq_iff x k, there)
  | inr other ↦
      let rest = contains-remove_first k j xs (ground (arith, there, other)) differs in
      ground (arith, other, rest, there)
]

all_seen-remove_first :
    (k : String) (seen ks : List String)
    → all_seen seen ks ≡ true
    → contains k ks ≡ false
    → all_seen (remove_first k seen) ks ≡ true
unfolding all_seen contains
all_seen-remove_first k seen [] covered new = refl
all_seen-remove_first k seen (j ∷ ks) covered new =
    let here =
      contains-remove_first k j seen (ground (arith, covered))
        (λ same. ground (arith, same, new, eq_iff j k)) in
    let rest = all_seen-remove_first k seen ks (ground (arith, covered)) (ground (arith, new)) in
    ground (arith, here, rest)

-- Distinct members of a list are no more than the list has.
distinct_are_few :
    (seen ks : List String) → all_seen seen ks ≡ true → AreDistinct ks → length ks ≤ length seen
unfolding all_seen
distinct_are_few seen [] covered distinct = omega arith
distinct_are_few seen (k ∷ ks) covered (new, distinct) =
    let fewer =
      distinct_are_few (remove_first k seen) ks
        (all_seen-remove_first k seen ks (ground (arith, covered)) new) distinct in
    omega (arith, fewer, length-remove_first k seen (ground (arith, covered)))

contains_of_all_seen :
    (seen ks : List String) (k : String)
    → all_seen seen ks ≡ true
    → contains k ks ≡ true
    → contains k seen ≡ true
unfolding all_seen contains
contains_of_all_seen seen [] k covered there = cc
contains_of_all_seen seen (j ∷ ks) k covered there = elim (Bool-cases (str_eq j k)) [
  | inl same ↦ rw (sym ((eq_iff j k).0 same)) (ground (arith, covered))
  | inr other ↦
      contains_of_all_seen seen ks k (ground (arith, covered)) (ground (arith, there, other))
]

all_seen_of_contains :
    (seen ks : List String)
    → ((k : String) → contains k ks ≡ true → contains k seen ≡ true)
    → all_seen seen ks ≡ true
unfolding all_seen contains
all_seen_of_contains seen [] covers = refl
all_seen_of_contains seen (k ∷ ks) covers =
    let here = covers k (ground (arith, eq_iff k k)) in
    let rest = all_seen_of_contains seen ks (λ j there. covers j (ground (arith, there))) in
    ground (arith, here, rest)

-- Where the lists are as long, a distinct list of members of the other has all of them.
seen_are_members :
    (seen ks : List String) (k : String)
    → all_seen seen ks ≡ true
    → AreDistinct ks
    → length seen ≡ length ks
    → contains k seen ≡ true
    → contains k ks ≡ true
seen_are_members seen ks k covered distinct as_long there = elim (Bool-cases (contains k ks)) [
  | inl known ↦ known
  | inr new ↦
      let few =
        distinct_are_few seen (k ∷ ks) (unfold all_seen in ground (arith, there, covered))
          (new, distinct) in
      absurd (omega (arith, few, as_long))
]

both_true : (a b : Bool) → (a ≡ true → b ≡ true) → (b ≡ true → a ≡ true) → a ≡ b
both_true true b f g = sym (f refl)
both_true false true f g = g refl
both_true false false f g = refl

HaveSameKeys-of_all_seen :
    (seen ks : List String)
    → all_seen seen ks ≡ true
    → AreDistinct ks
    → length seen ≡ length ks
    → HaveSameKeys seen ks
HaveSameKeys-of_all_seen seen ks covered distinct as_long k =
    both_true (contains k seen) (contains k ks)
      (seen_are_members seen ks k covered distinct as_long) (contains_of_all_seen seen ks k covered)

all_seen_of_same : (seen ks : List String) → HaveSameKeys seen ks → all_seen seen ks ≡ true
all_seen_of_same seen ks same = all_seen_of_contains seen ks (λ k there. same k ∙ there)

as_long_of_same :
    (ks js : List String)
    → AreDistinct ks
    → AreDistinct js
    → HaveSameKeys ks js
    → length ks ≡ length js
as_long_of_same ks js distinct distinct' same =
    let few = distinct_are_few ks js (all_seen_of_same ks js same) distinct' in
    let few' = distinct_are_few js ks (all_seen_of_same js ks (λ k. sym (same k))) distinct in
    omega (arith, few, few')

length-map : (f : String → String) (xs : List String) → length (map f xs) ≡ length xs
length-map f [] = refl
length-map f (x ∷ xs) = omega (arith, length-map f xs)

module _ (to_lower : String → String) where
  -- On lists that repeat no constraint, trimmed and in lower case, equalStringSet is equality of sets:
  -- it holds exactly when each constraint occurs in both lists or in neither.
  pub equal_string_set_of_distinct :
      (a b : List String)
      → AreDistinct (map (constraint_key to_lower) a)
      → AreDistinct (map (constraint_key to_lower) b)
      → (equal_string_set to_lower a b ≡ true)
        ↔ HaveSameKeys (map (constraint_key to_lower) a) (map (constraint_key to_lower) b)
  unfolding equal_string_set
  equal_string_set_of_distinct a b distinct distinct' = (
    λ equal.
        HaveSameKeys-of_all_seen (keys a) (keys b) (ground (arith, equal)) distinct'
          (as_long a b (ground (arith, equal))),
    λ same. ground (
      arith,
      all_seen_of_same (keys a) (keys b) same,
      given a b (as_long_of_same (keys a) (keys b) distinct distinct' same),
    ),
  )
    where
      keys : List String → List String
      keys = map (constraint_key to_lower)

      as_long : (a b : List String) → length a ≡ length b → length (keys a) ≡ length (keys b)
      as_long a b e =
          omega (
            arith,
            length-map (constraint_key to_lower) a,
            length-map (constraint_key to_lower) b,
            e,
          )

      given : (a b : List String) → length (keys a) ≡ length (keys b) → length a ≡ length b
      given a b e =
          omega (
            arith,
            length-map (constraint_key to_lower) a,
            length-map (constraint_key to_lower) b,
            e,
          )
