-- ===== src/Http/Contracts/Normal.antt =====
-- What normalizeStrings and createDemandRequest.toSpec make of a request.
use Prim.{tt}
use chihuo.Base.{
  ℕ, zero, suc, ◌+◌, ◌≤◌, String, false, none, some, List, [], ◌∷◌, ◌≡◌, refl, subst, inl, inr, ok,
  arith, All, map, length, eq_iff, Option-cases,
}
use chihuo.Base.Int.{pos, ◌≤ℤ◌, ◌<ℤ◌}
use chihuo.Base.Text.{trim_space}
use chihuo.Domain.{DemandSpec}
use chihuo.Store.Listing.{contains}
use chihuo.Store.Listing.Sets.{AreDistinct}
use chihuo.Http.Contracts.{CreateDemandRequest}
use chihuo.Http.Contracts.Checks.{
  Texts, rune_count, take_runes, shortened, refuse_request, admitted, normalize_from,
  normalize_strings, spec_refusal, spec_of, to_spec,
}

rune_count-take_runes : (n : ℕ) (s : String) → rune_count (take_runes n s) ≤ n
unfolding rune_count take_runes
rune_count-take_runes zero s = omega arith
rune_count-take_runes (suc n) String.[] = omega arith
rune_count-take_runes (suc n) (String.◌∷◌ c s) = omega (arith, rune_count-take_runes n s)

shortened-fits : (most : ℕ) (s : String) → rune_count (shortened most s) ≤ most
unfolding shortened
shortened-fits most s = ground (arith, rune_count-take_runes most s)

module _ (texts : Texts) where
  admitted-facts :
      (max_items max_length n : ℕ) (seen : List String) (value short : String)
      → admitted texts max_items max_length n seen value ≡ some short
      → (suc n ≤ max_items)
        × (rune_count short ≤ max_length)
        × (contains (texts.to_lower short) seen ≡ false)
  unfolding admitted
  admitted-facts max_items max_length n seen value short kept =
      ground (arith, kept, shortened-fits max_length (trim_space value))

  -- What a run of the loop appends once n values are there.
  abbrev AreAdmitted : ℕ → ℕ → ℕ → List String → List String → Type 0
  AreAdmitted max_items max_length n seen result =
      (n + length result ≤ max_items)
      × All (λ v. rune_count v ≤ max_length) result
      × All (λ v. contains (texts.to_lower v) seen ≡ false) result
      × AreDistinct (map texts.to_lower result)

  forget_key :
      (key : String) (seen result : List String)
      → All (λ v. contains (texts.to_lower v) (key ∷ seen) ≡ false) result
      → All (λ v. contains (texts.to_lower v) seen ≡ false) result
        × (contains key (map texts.to_lower result) ≡ false)
  unfolding contains
  forget_key key seen [] unseen = (tt, refl)
  forget_key key seen (v ∷ result) (first, rest) =
      let (unseen, other) = forget_key key seen result rest in
      (
        (ground (arith, first), unseen),
        ground (arith, first, other, eq_iff key (texts.to_lower v), eq_iff (texts.to_lower v) key),
      )

  AreAdmitted-more :
      (max_items max_length n : ℕ) (seen result : List String) (short : String)
      → (suc n ≤ max_items)
        × (rune_count short ≤ max_length)
        × (contains (texts.to_lower short) seen ≡ false)
      → AreAdmitted max_items max_length (suc n) (texts.to_lower short ∷ seen) result
      → AreAdmitted max_items max_length n seen (short ∷ result)
  AreAdmitted-more max_items max_length n seen result short (room, fits, new)
        (few, fit, unseen, distinct) =
      let (still, other) = forget_key (texts.to_lower short) seen result unseen in
      (omega (arith, few), (fits, fit), (new, still), (other, distinct))

  normalize_from-AreAdmitted :
      (max_items max_length n : ℕ) (seen values : List String)
      → n ≤ max_items
      → AreAdmitted max_items max_length n seen
          (normalize_from texts max_items max_length n seen values)
  unfolding normalize_from
  normalize_from-AreAdmitted max_items max_length n seen [] room = (omega (arith, room), tt, tt, tt)
  normalize_from-AreAdmitted max_items max_length n seen (value ∷ values) room =
      elim (Option-cases (admitted texts max_items max_length n seen value)) [
        | inl skipped ↦
            rw (skipped, normalize_from)
              (normalize_from-AreAdmitted max_items max_length n seen values room)
        | inr (short, kept) ↦
            let facts = admitted-facts max_items max_length n seen value short kept in
            rw (kept, normalize_from)
              (AreAdmitted-more max_items max_length n seen _ short facts (
                normalize_from-AreAdmitted max_items max_length (suc n)
                  (texts.to_lower short ∷ seen) values facts.0))
      ]

  -- normalizeStrings returns at most maxItems strings of at most maxLength runes each, no two of which
  -- are equal in lower case.
  pub normalize_strings_bounded :
      (values : List String) (max_items max_length : ℕ)
      → let result = normalize_strings texts values max_items max_length in
        (length result ≤ max_items)
        × All (λ v. rune_count v ≤ max_length) result
        × AreDistinct (map texts.to_lower result)
  unfolding normalize_strings
  normalize_strings_bounded values max_items max_length =
      let (few, fit, _, distinct) =
        normalize_from-AreAdmitted max_items max_length 0 [] values (omega arith) in
      (omega (arith, few), fit, distinct)

  -- The numbers of a demand are in order.
  abbrev pub HasOrderedRanges : DemandSpec → Type 0
  HasOrderedRanges spec =
      (pos 0 <ℤ spec.budget_min_cents)
      × (spec.budget_min_cents ≤ℤ spec.budget_max_cents)
      × (pos 0 <ℤ spec.quantity)
      × (pos 0 <ℤ spec.weight_min_grams)
      × (spec.weight_min_grams ≤ℤ spec.weight_max_grams)

  checked_ranges :
      (v : CreateDemandRequest)
      → spec_refusal texts v ≡ none
      → HasOrderedRanges (spec_of texts v)
        × (pos 0 <ℤ v.minimum_members)
        × (v.minimum_members ≤ℤ v.maximum_members)
  unfolding spec_refusal refuse_request spec_of
  checked_ranges v passed = ground (arith, passed)

  -- What a request and its demand are when the request is accepted.
  abbrev pub IsOrdered : CreateDemandRequest → DemandSpec → Type 0
  IsOrdered v spec =
      HasOrderedRanges spec
      × ((pos 0 <ℤ v.minimum_members) × (v.minimum_members ≤ℤ v.maximum_members))
      × ((length spec.hard_constraints ≤ 20)
          × AreDistinct (map texts.to_lower spec.hard_constraints))
      × ((length spec.preferences ≤ 20) × AreDistinct (map texts.to_lower spec.preferences))

  -- A request that toSpec accepts has 0 < minimum ≤ maximum for its members, and the demand that it
  -- gives has positive, ordered ranges of budget and weight, a positive quantity, and at most twenty
  -- hard constraints and twenty preferences, each list without repetition in lower case.
  pub to_spec-IsOrdered :
      (v : CreateDemandRequest) (spec : DemandSpec) → to_spec texts v ≡ ok spec → IsOrdered v spec
  unfolding to_spec spec_of
  to_spec-IsOrdered v spec accepted = elim (Option-cases (spec_refusal texts v)) [
    | inr (e, refused) ↦ ground (arith, accepted, refused)
    | inl passed ↦
        let (ranges, least, most) = checked_ranges v passed in
        let (few, _, distinct) = normalize_strings_bounded v.hard_constraints 20 80 in
        let (few', _, distinct') = normalize_strings_bounded v.preferences 20 80 in
        let given : spec_of texts v ≡ spec = ground (arith, accepted, passed) in
        subst (IsOrdered v) given (ranges, (least, most), (few, distinct), (few', distinct'))
  ]
