-- ===== src/Store/Listing.antt =====
-- backend-go/internal/store/memory.go: what ranges over a map. The runtime chooses the order of such
-- a loop, so each function takes the map's values in the order visited. Case conversion and folding
-- of Unicode text (`strings.ToLower`, `strings.EqualFold`) are parameters.
pub mod Pages
pub mod Matching
pub mod Sets
pub mod Filters
use chihuo.Base.{
  ℕ, ◌+◌, ◌-◌, String, Bool, true, false, not, ◌&&◌, ◌||◌, none, some, Result, ok, err, List, [],
  ◌∷◌, str_eq, if◌then◌else◌, ltb, leb, ◌==◌, length, take, drop, keep, sort_slice, map,
}
use chihuo.Base.Text.{trim_space, is_empty}
use chihuo.Base.Int.{ℤ, pos, pos_part, leb_ℤ, ltb_ℤ}
use chihuo.Domain.{DemandSpec, Demand, DemandMember, Merchant, Offer, Campaign, Order}
use chihuo.Domain.MerchantStatus
use chihuo.Domain.DemandStatus
use chihuo.Domain.DemandStatus.{DemandStatus}
use chihuo.Domain.OfferStatus
use chihuo.Domain.CampaignStatus
use chihuo.Domain.OrderStatus
use chihuo.Store.{Error, not_found, ListOptions, MemoryStore}
use chihuo.Base.Dict.{lookup}

-- intervalsOverlap
unfoldable pub intervals_overlap : ℤ → ℤ → ℤ → ℤ → Bool
intervals_overlap a_min a_max b_min b_max = leb_ℤ a_min b_max && leb_ℤ b_min a_max

-- Whether a key is in the set `seen`.
unfoldable pub contains : String → List String → Bool
contains k [] = false
contains k (x ∷ xs) = str_eq x k || contains k xs

-- The second loop of equalStringSet: every value's key has been seen.
unfoldable pub all_seen : List String → List String → Bool
unfolding contains
all_seen seen [] = true
all_seen seen (k ∷ ks) = contains k seen && all_seen seen ks

module _ (to_lower : String → String) where
  -- The key under which equalStringSet compares a constraint.
  unfoldable pub constraint_key : String → String
  unfolding trim_space
  constraint_key value = to_lower (trim_space value)

  -- equalStringSet
  unfoldable pub equal_string_set : List String → List String → Bool
  unfolding all_seen constraint_key
  equal_string_set a b =
      if length a == length b then all_seen (map constraint_key a) (map constraint_key b) else false

  -- matchingSpec
  unfoldable pub matching_spec : (String → String → Bool) → DemandSpec → DemandSpec → Bool
  unfolding intervals_overlap equal_string_set
  matching_spec equal_fold a b =
      equal_fold a.category b.category
      && equal_fold a.service_area b.service_area
      && str_eq a.serving_date b.serving_date
      && str_eq a.serving_time b.serving_time
      && intervals_overlap a.budget_min_cents a.budget_max_cents b.budget_min_cents
          b.budget_max_cents
      && intervals_overlap a.weight_min_grams a.weight_max_grams b.weight_min_grams
          b.weight_max_grams
      && equal_string_set a.hard_constraints b.hard_constraints

-- demand.Status == domain.DemandPendingReview || demand.Status == domain.DemandOpen
unfoldable pub is_joinable : DemandStatus → Bool
is_joinable DemandStatus.pending_review = true
is_joinable DemandStatus.open_status = true
is_joinable _ = false

-- FindMatchingDemand, over the demands in the order visited
unfoldable pub find_matching_demand :
    (DemandSpec → DemandSpec → Bool) → DemandSpec → List Demand → Result Error Demand
unfolding is_joinable
find_matching_demand matches spec [] = err not_found
find_matching_demand matches spec (demand ∷ rest) =
    let next = find_matching_demand matches spec rest in
    if not (is_joinable demand.status)
    then next
    else if leb_ℤ demand.maximum_members demand.member_count || not (matches demand.spec spec)
    then next
    else ok demand

-- paginate
unfoldable pub paginate {ℓ} : {A : Type ℓ} → List A → ℤ → ℤ → List A
paginate items offset limit =
    let start = if ltb_ℤ offset (pos 0) then 0 else pos_part offset in
    let size = if leb_ℤ limit (pos 0) || ltb_ℤ (pos 100) limit then 50 else pos_part limit in
    if leb (length items) start
    then []
    else let end = if ltb (length items) (start + size) then length items else start + size in
      take (end - start) (drop start items)

-- A filter of ListOptions: the empty string filters nothing.
unfoldable pub passes : String → String → Bool
passes wanted value = is_empty wanted || str_eq value wanted

-- ListMerchants
unfoldable pub list_merchants : String → List Merchant → List Merchant
unfolding keep sort_slice passes
list_merchants status visited =
    sort_slice (λ a b. ltb b.created_at a.created_at)
      (keep (λ m. passes status (MerchantStatus.string m.status)) visited)

-- ListDemands
unfoldable pub list_demands : ListOptions → List Demand → List Demand
unfolding keep sort_slice passes paginate
list_demands options visited =
    paginate
      (sort_slice (λ a b. ltb b.created_at a.created_at)
        (keep (λ d. passes options.status (DemandStatus.string d.status)) visited))
      options.offset options.limit

-- ListDemandMembers
unfoldable pub list_demand_members :
    String → MemoryStore → List DemandMember → Result Error (List DemandMember)
unfolding keep sort_slice
list_demand_members demand_id s visited = elim (lookup demand_id s.demands) [
  | none ↦ err not_found
  | some demand ↦ ok (
      sort_slice (λ a b. ltb a.created_at b.created_at)
        (keep (λ m. str_eq m.demand_id demand_id) visited))
]

-- ListOffers
unfoldable pub list_offers : ListOptions → List Offer → List Offer
unfolding keep sort_slice passes paginate
list_offers options visited =
    paginate
      (sort_slice (λ a b. ltb b.created_at a.created_at)
        (keep
          (λ o.
            passes options.demand_id o.demand_id
            && passes options.merchant_id o.merchant_id
            && passes options.status (OfferStatus.string o.status))
          visited))
      options.offset options.limit

-- ListCampaigns
unfoldable pub list_campaigns : ListOptions → List Campaign → List Campaign
unfolding keep sort_slice passes paginate
list_campaigns options visited =
    paginate
      (sort_slice (λ a b. ltb b.created_at a.created_at)
        (keep
          (λ c.
            passes options.status (CampaignStatus.string c.status)
            && passes options.merchant_id c.merchant_id
            && passes options.demand_id c.demand_id)
          visited))
      options.offset options.limit

-- ListOrders
unfoldable pub list_orders : ListOptions → List Order → List Order
unfolding keep sort_slice passes paginate
list_orders options visited =
    paginate
      (sort_slice (λ a b. ltb b.created_at a.created_at)
        (keep
          (λ o.
            passes options.consumer_id o.consumer_id
            && passes options.status (OrderStatus.string o.status))
          visited))
      options.offset options.limit
