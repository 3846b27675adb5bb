-- ===== src/Examples/Listings.antt =====
-- Listings, matching and pages.
use Prim.{tt}
use chihuo.Store.Listing.{contains}
use chihuo.Store.Listing.Sets.{AreDistinct, HaveSameKeys, equal_string_set_of_distinct}
use chihuo.Base.{
  ℕ, ◌*◌, String, ◌≡◌, ◌≢◌, ◌↔◌, ◌⊎◌, refl, Bool, true, false, List, [], ◌∷◌, map, take, All, arith,
  ok, err, str_eq, eq_iff,
}
use mathlib.Core.List.{Memᴰ}
use chihuo.Base.Text.{trim_space}
use chihuo.Base.Int.{pos}
use chihuo.Domain.{DemandSpec, Demand, Order}
use chihuo.Domain.OrderStatus
use chihuo.Domain.DemandStatus
use chihuo.Store.{ListOptions, zero_demand, zero_spec, not_found}
use chihuo.Store.Listing.{
  constraint_key, equal_string_set, matching_spec, find_matching_demand, list_orders,
}
use chihuo.Store.Listing.Pages.{first_pages, first_pages-eq-take}
use chihuo.Store.Listing.Matching.{Fits, find_matching_demand_lem, equal_string_set_asymmetric}
use chihuo.Store.Listing.Filters.{list_orders_own}

-- Case conversion and folding, of text that is in lower case already.
abbrev same_case : String → String
same_case s = s

abbrev matches : DemandSpec → DemandSpec → Bool
matches = matching_spec same_case (λ a b. true)

abbrev demands : List Demand
demands =
    zero_demand
    ∷ record zero_demand { status = DemandStatus.open_status; maximum_members = pos 3 }
    ∷ []

find_matching_demand_lem_example :
    ((d : Demand) × (find_matching_demand matches zero_spec demands ≡ ok d)
      × Memᴰ d demands
      × Fits matches zero_spec d)
    ⊎ ((find_matching_demand matches zero_spec demands ≡ err not_found)
        × All (λ d. ¬ Fits matches zero_spec d) demands)
find_matching_demand_lem_example = find_matching_demand_lem matches zero_spec demands

abbrev spicy : List String
spicy = "no pork" ∷ "spicy" ∷ []

abbrev reordered : List String
reordered = "spicy" ∷ " no pork" ∷ []

spicy-AreDistinct : AreDistinct (map (constraint_key same_case) spicy)
unfolding contains constraint_key trim_space
spicy-AreDistinct = (refl, (refl, tt))

reordered-AreDistinct : AreDistinct (map (constraint_key same_case) reordered)
unfolding contains constraint_key trim_space
reordered-AreDistinct = (refl, (refl, tt))

equal_string_set_of_distinct_example :
    (equal_string_set same_case spicy reordered ≡ true)
    ↔ HaveSameKeys (map (constraint_key same_case) spicy) (map (constraint_key same_case) reordered)
equal_string_set_of_distinct_example =
    equal_string_set_of_distinct same_case spicy reordered spicy-AreDistinct reordered-AreDistinct

unequal_keys :
    str_eq (constraint_key same_case "spicy") (constraint_key same_case "no pork") ≡ false
unfolding constraint_key trim_space
unequal_keys = refl

different_keys : constraint_key same_case "spicy" ≢ constraint_key same_case "no pork"
different_keys e = ground (
  arith,
  e,
  unequal_keys,
  eq_iff (constraint_key same_case "spicy") (constraint_key same_case "no pork"),
)

equal_string_set_asymmetric_example :
    (equal_string_set same_case ("spicy" ∷ "no pork" ∷ []) ("spicy" ∷ "spicy" ∷ []) ≡ true)
    × (equal_string_set same_case ("spicy" ∷ "spicy" ∷ []) ("spicy" ∷ "no pork" ∷ []) ≡ false)
equal_string_set_asymmetric_example =
    equal_string_set_asymmetric same_case "spicy" "no pork" different_keys

abbrev numbers : List ℕ
numbers = 10 ∷ 20 ∷ 30 ∷ []

first_pages-eq-take_example : first_pages 2 2 numbers ≡ take (2 * 2) numbers
first_pages-eq-take_example = first_pages-eq-take 2 2 numbers (omega arith) (omega arith)

abbrev order_of : String → Order
order_of consumer = record {
  id = consumer;
  campaign_id = "c";
  consumer_id = consumer;
  quantity = pos 1;
  delivery_address = "";
  contact_name = "";
  contact_phone = "";
  status = OrderStatus.pending_payment;
  unit_price_cents = pos 1_500;
  subtotal_cents = pos 1_500;
  delivery_fee_cents = pos 0;
  platform_fee_cents = pos 0;
  total_cents = pos 1_500;
  created_at = 1;
  updated_at = 1;
}

abbrev orders_of_ann : ListOptions
orders_of_ann = record {
  status = "";
  merchant_id = "";
  consumer_id = "ann";
  demand_id = "";
  limit = pos 10;
  offset = pos 0;
}

list_orders_own_example :
    All
      (λ o. o.consumer_id ≡ "ann")
      (list_orders orders_of_ann (order_of "bob" ∷ order_of "ann" ∷ []))
list_orders_own_example = list_orders_own orders_of_ann (order_of "bob" ∷ order_of "ann" ∷ []) refl
