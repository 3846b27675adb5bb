-- ===== src/Examples/Histories.antt =====
-- The histories of the in-memory store, at a store with one order and one member.
use Prim.{tt}
use chihuo.Base.{◌≡◌, refl, ◌⊎◌, some, arith}
use chihuo.Base.Dict.{lookup, insert}
use chihuo.Base.Int.{pos, ◌≤ℤ◌, ◌+64◌, wrap64, ◌+ℤ◌}
use chihuo.Domain.{Demand, Campaign}
use chihuo.Domain.DemandStatus
use chihuo.Domain.CampaignStatus
use chihuo.Domain.MerchantStatus
use chihuo.Store.{new_memory_store}
use chihuo.Store.Accounts.{create_or_get_merchant, review_merchant}
use chihuo.Store.Demands.{create_demand, review_demand, add_demand_member, admit_member, join}
use chihuo.Store.Offers.{create_offer}
use chihuo.Store.Campaigns.{create_campaign, review_campaign, new_campaign, reviewed_campaign}
use chihuo.Store.Orders.{create_order, place_order, take_order, priced}
use chihuo.Store.Demands.Invariant.{members_of}
use chihuo.Store.Orders.Invariant.{ordered_of}
use chihuo.Store.History.{
  Call, step, IsAdmissible, Reachable, IsConsistent, Reachable-IsConsistent, Reachable-members,
  Reachable-orders,
}
use chihuo.Examples.Stores.{
  review, merchant_input, demand_input, member_input, offer_input, campaign_input, prepared,
  order_call, finished,
}

prepared-Reachable : Reachable prepared
unfolding step create_or_get_merchant review_merchant create_demand review_demand add_demand_member
    create_offer create_campaign review_campaign create_order new_memory_store lookup insert
    DemandStatus.parse MerchantStatus.parse CampaignStatus.parse admit_member ◌+64◌ wrap64 ◌+ℤ◌
    place_order take_order join new_campaign reviewed_campaign priced
prepared-Reachable =
    Reachable.next (Call.reviews_campaign 8 "c" (review "OPEN"))
      (Reachable.next (Call.creates_campaign "c" 7 campaign_input)
        (Reachable.next (Call.creates_offer "o" 6 offer_input)
          (Reachable.next (Call.adds_member "j" 5 5 member_input)
            (Reachable.next (Call.reviews_demand 4 "d" (review "OPEN"))
              (Reachable.next (Call.creates_demand "d" 3 demand_input)
                (Reachable.next (Call.reviews_merchant 2 "m" (review "APPROVED"))
                  (Reachable.next (Call.creates_merchant "m" 1 merchant_input) Reachable.start tt)
                  tt)
                (refl, omega arith))
              tt)
            tt)
          tt)
        (refl, omega arith))
      tt

order-IsAdmissible : IsAdmissible order_call prepared
unfolding step create_or_get_merchant review_merchant create_demand review_demand add_demand_member
    create_offer create_campaign review_campaign create_order new_memory_store lookup insert
    DemandStatus.parse MerchantStatus.parse CampaignStatus.parse admit_member ◌+64◌ wrap64 ◌+ℤ◌
    place_order take_order join new_campaign reviewed_campaign priced
order-IsAdmissible = (refl, (2, refl, omega arith))

finished-Reachable : Reachable finished
finished-Reachable = Reachable.next order_call prepared-Reachable order-IsAdmissible

pub prepared-IsConsistent : IsConsistent prepared
prepared-IsConsistent = Reachable-IsConsistent prepared-Reachable

pub joined_demand : (d : Demand) × (lookup "d" finished.demands ≡ some d)
unfolding step create_or_get_merchant review_merchant create_demand review_demand add_demand_member
    create_offer create_campaign review_campaign create_order new_memory_store lookup insert
    DemandStatus.parse MerchantStatus.parse CampaignStatus.parse admit_member ◌+64◌ wrap64 ◌+ℤ◌
    place_order take_order join new_campaign reviewed_campaign priced
joined_demand = (_, refl)

pub booked_campaign : (c : Campaign) × (lookup "c" finished.campaigns ≡ some c)
unfolding step create_or_get_merchant review_merchant create_demand review_demand add_demand_member
    create_offer create_campaign review_campaign create_order new_memory_store lookup insert
    DemandStatus.parse MerchantStatus.parse CampaignStatus.parse admit_member ◌+64◌ wrap64 ◌+ℤ◌
    place_order take_order join new_campaign reviewed_campaign priced
booked_campaign = (_, refl)

Reachable-members_example :
    (joined_demand.0.id ≡ "d")
    × (joined_demand.0.member_count ≡ pos (members_of "d" finished.members))
    × ((members_of "d" finished.members ≡ 0)
        ⊎ (pos (members_of "d" finished.members) ≤ℤ joined_demand.0.maximum_members))
Reachable-members_example = Reachable-members "d" joined_demand.0 finished-Reachable joined_demand.1

Reachable-orders_example :
    (booked_campaign.0.id ≡ "c")
    × (booked_campaign.0.current_orders ≡ pos (ordered_of "c" finished.orders))
    × ((ordered_of "c" finished.orders ≡ 0)
        ⊎ (pos (ordered_of "c" finished.orders) ≤ℤ booked_campaign.0.maximum_orders))
Reachable-orders_example =
    Reachable-orders "c" booked_campaign.0 finished-Reachable booked_campaign.1
