-- ===== src/Examples/Orders.antt =====
-- Orders and members, at the store of Stores.antt.
use chihuo.Base.{◌+◌, ◌*◌, ◌/◌, ◌≤◌, ◌≡◌, refl, true, some, ok, [], ◌∷◌, arith}
use chihuo.Base.Dict.{lookup}
use chihuo.Base.Int.{pos, ◌<ℤ◌}
use chihuo.Domain.{Campaign}
use chihuo.Domain.CampaignStatus
use chihuo.Store.{CreateMemberInput, CreateOrderInput, MemoryStore, new_memory_store}
use chihuo.Store.Demands.{add_demand_member}
use chihuo.Store.Demands.Effects.{Outcome as MemberOutcome, add_demand_member_effect}
use chihuo.Store.Orders.{is_open, priced, create_order}
use chihuo.Store.Orders.Effects.{Outcome as OrderOutcome, create_order_effect}
use chihuo.Store.Orders.Prices.{priced_exact, create_order_overflow}
use chihuo.Examples.Stores.{member_input, order_input, campaign_input, prepared}
use chihuo.Examples.Histories.{prepared-IsConsistent}

create_order_effect_example :
    OrderOutcome "x" 9 order_input prepared (create_order "x" 9 order_input prepared)
create_order_effect_example =
    create_order_effect "x" 9 order_input prepared
      (λ k c there. (prepared-IsConsistent.orders.each k c there).keyed)

second_member : CreateMemberInput
second_member = record member_input { user_id = "bob" }

add_demand_member_effect_example :
    MemberOutcome second_member prepared (add_demand_member "k" 9 10 second_member prepared)
add_demand_member_effect_example =
    add_demand_member_effect "k" 9 10 second_member prepared
      (λ k d there. (prepared-IsConsistent.members.each k d there).keyed)

-- The campaign of the store with two orders booked, open.
abbrev open_campaign : Campaign
open_campaign = record {
  id = "c";
  demand_id = "d";
  offer_id = "o";
  merchant_id = "m";
  title = "Lunch";
  description = "";
  unit_price_cents = pos 1_500;
  delivery_fee_cents = pos 300;
  platform_fee_bps = pos 500;
  minimum_orders = pos 1;
  maximum_orders = pos 5;
  current_orders = pos 2;
  starts_at = 1;
  ends_at = 100;
  pickup_point = "gate";
  food_spec = campaign_input.food_spec;
  status = CampaignStatus.open_status;
  review_reason = "";
  reviewed_at = some 8;
  created_at = 7;
  updated_at = 9;
}

priced_exact_example :
    let o = priced "y" 10 order_input open_campaign in
    (o.subtotal_cents ≡ pos (1_500 * 2))
    × (o.platform_fee_cents ≡ pos (1_500 * 2 * 500 / 10_000))
    × (o.delivery_fee_cents ≡ pos 300)
    × (o.total_cents ≡ pos (1_500 * 2 + 1_500 * 2 * 500 / 10_000 + 300))
    × (1_500 * 2 * 500 / 10_000 * 5 ≤ 1_500 * 2)
priced_exact_example =
    priced_exact "y" 10 order_input open_campaign 1_500 2 500 300 refl refl refl refl (omega arith)
      (omega arith) (omega arith)

abbrev campaign_store : MemoryStore
campaign_store = record new_memory_store { campaigns = ("c", open_campaign) ∷ [] }

abbrev huge_input : CreateOrderInput
huge_input = record order_input { quantity = pos 9_223_372_036_854_775_807 }

campaign_found : lookup "c" campaign_store.campaigns ≡ some open_campaign
unfolding lookup
campaign_found = refl

campaign_open : is_open open_campaign.status ≡ true
unfolding is_open
campaign_open = refl

create_order_overflow_example :
    (c' : Campaign) × ((create_order "y" 10 huge_input campaign_store).0
      ≡ ok (priced "y" 10 huge_input open_campaign))
    × (lookup "c" (create_order "y" 10 huge_input campaign_store).1.campaigns ≡ some c')
    × (c'.current_orders <ℤ pos 0)
create_order_overflow_example =
    create_order_overflow "y" 10 huge_input campaign_store open_campaign 5 2
      9_223_372_036_854_775_807 campaign_found refl campaign_open refl refl (omega arith) refl
      (omega arith) (omega arith)
