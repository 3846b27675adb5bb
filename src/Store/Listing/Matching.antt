-- ===== src/Store/Listing/Matching.antt =====
-- What FindMatchingDemand finds, and where equalStringSet is not symmetric.
use chihuo.Base.{
  String, ◌≡◌, refl, ◌≢◌, ◌⊎◌, Bool, true, false, not, ◌&&◌, inl, inr, ok, err, List, [], ◌∷◌,
  arith, eq_iff, All, Bool-cases,
}
use mathlib.Core.List.{Memᴰ}
use chihuo.Base.Int.{leb_ℤ}
use chihuo.Domain.{DemandSpec, Demand}
use chihuo.Store.{not_found}
use chihuo.Store.Listing.{
  contains, all_seen, constraint_key, equal_string_set, is_joinable, find_matching_demand,
}

-- The demand can be joined and is for this specification.
abbrev pub Fits : (DemandSpec → DemandSpec → Bool) → DemandSpec → Demand → Type 0
Fits matches spec d =
    (is_joinable d.status ≡ true)
    × (leb_ℤ d.maximum_members d.member_count ≡ false)
    × (matches d.spec spec ≡ true)

-- In whatever order the demands are visited, FindMatchingDemand returns one of them that is pending or
-- open, has room and matches, or it returns ErrNotFound and none of them is such.
pub find_matching_demand_lem :
    (matches : DemandSpec → DemandSpec → Bool) (spec : DemandSpec) (visited : List Demand)
    → ((d : Demand) × (find_matching_demand matches spec visited ≡ ok d)
        × Memᴰ d visited
        × Fits matches spec d)
      ⊎ ((find_matching_demand matches spec visited ≡ err not_found)
          × All (λ d. ¬ Fits matches spec d) visited)
unfolding find_matching_demand
find_matching_demand_lem matches spec [] = inr (refl, tt)
find_matching_demand_lem matches spec (d ∷ rest) =
    elim (Bool-cases (
      is_joinable d.status
      && not (leb_ℤ d.maximum_members d.member_count)
      && matches d.spec spec)) [
        | inl fits ↦ inl (
          d,
          ground (arith, fits),
          Memᴰ.head refl,
          (ground (arith, fits), ground (arith, fits), ground (arith, fits)),
        )
        | inr other ↦ elim (find_matching_demand_lem matches spec rest) [
          | inl (e, found, m, fits) ↦ inl (e, ground (arith, other, found), Memᴰ.tail m, fits)
          | inr (missing, none_fits) ↦
              inr (ground (arith, other, missing), (λ f. ground (arith, other, f), none_fits))
        ]
      ]

module _ (to_lower : String → String) where
  -- equalStringSet is not symmetric: of two constraints that differ, the first list having both and
  -- the second one of them twice, it accepts the pair in one order and refuses it in the other.
  pub equal_string_set_asymmetric :
      (x y : String)
      → constraint_key to_lower x ≢ constraint_key to_lower y
      → (equal_string_set to_lower (x ∷ y ∷ []) (x ∷ x ∷ []) ≡ true)
        × (equal_string_set to_lower (x ∷ x ∷ []) (x ∷ y ∷ []) ≡ false)
  unfolding equal_string_set all_seen contains
  equal_string_set_asymmetric x y h =
      let kx = constraint_key to_lower x in
      let ky = constraint_key to_lower y in
      (ground (arith, eq_iff kx kx), ground (arith, eq_iff kx ky, eq_iff kx kx))
