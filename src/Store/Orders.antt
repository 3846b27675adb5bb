-- ===== src/Store/Orders.antt =====
-- backend-go/internal/store/memory.go: orders against a campaign's capacity, and their prices.
pub mod Invariant
pub mod Prices
pub mod Effects
use chihuo.Base.{String, Bool, true, false, none, some, Result, if◌then◌else◌}
use chihuo.Base.Dict.{lookup, insert}
use chihuo.Base.Int.{ℤ, ltb_ℤ, leb_ℤ, ◌+64◌, ◌*64◌, quot_by}
use chihuo.Domain.{Time, Campaign, Order}
use chihuo.Domain.CampaignStatus.{CampaignStatus}
use chihuo.Domain.OrderStatus
use chihuo.Store.{Error, not_found, conflict, invalid, CreateOrderInput, MemoryStore, done, fail}

-- campaign.Status == domain.CampaignOpen
unfoldable pub is_open : CampaignStatus → Bool
is_open CampaignStatus.open_status = true
is_open _ = false

-- The prices of CreateOrder, in int64.
unfoldable pub subtotal_of : Campaign → ℤ → ℤ
subtotal_of campaign quantity = campaign.unit_price_cents *64 quantity

unfoldable pub platform_fee_of : Campaign → ℤ → ℤ
unfolding subtotal_of
platform_fee_of campaign quantity =
    quot_by (subtotal_of campaign quantity *64 campaign.platform_fee_bps) 10_000

unfoldable pub priced : String → Time → CreateOrderInput → Campaign → Order
unfolding subtotal_of platform_fee_of
priced new_id now input campaign =
    let subtotal = subtotal_of campaign input.quantity in
    let platform_fee = platform_fee_of campaign input.quantity in
    record {
      id = new_id;
      campaign_id = input.campaign_id;
      consumer_id = input.consumer_id;
      quantity = input.quantity;
      delivery_address = input.delivery_address;
      contact_name = input.contact_name;
      contact_phone = input.contact_phone;
      status = OrderStatus.pending_payment;
      unit_price_cents = campaign.unit_price_cents;
      subtotal_cents = subtotal;
      delivery_fee_cents = campaign.delivery_fee_cents;
      platform_fee_cents = platform_fee;
      total_cents = subtotal +64 campaign.delivery_fee_cents +64 platform_fee;
      created_at = now;
      updated_at = now;
    }

-- The campaign after an order of this quantity.
unfoldable pub take_order : Time → ℤ → Campaign → Campaign
take_order now quantity campaign =
    let current = campaign.current_orders +64 quantity in
    record campaign {
      current_orders = current;
      status =
          if leb_ℤ campaign.maximum_orders current
          then CampaignStatus.sold_out
          else campaign.status;
      updated_at = now;
    }

-- The rest of CreateOrder, when its checks have passed.
unfoldable pub place_order :
    String → Time → CreateOrderInput → Campaign → MemoryStore → Result Error Order × MemoryStore
unfolding priced take_order
place_order new_id now input campaign s =
    let order : Order = priced new_id now input campaign in
    done order (record s {
      orders = insert order.id order s.orders;
      campaigns = insert campaign.id (take_order now input.quantity campaign) s.campaigns;
    })

-- CreateOrder
unfoldable pub create_order :
    String → Time → CreateOrderInput → MemoryStore → Result Error Order × MemoryStore
unfolding is_open
create_order new_id now input s = elim (lookup input.campaign_id s.campaigns) [
  | none ↦ fail not_found s
  | some campaign ↦
      if is_open campaign.status
      then (if ltb_ℤ campaign.maximum_orders (campaign.current_orders +64 input.quantity)
          then fail conflict s
          else place_order new_id now input campaign s)
      else fail invalid s
]

-- GetOrder
unfoldable pub get_order : String → MemoryStore → Result Error Order × MemoryStore
get_order id s = elim (lookup id s.orders) [ none ↦ fail not_found s | some order ↦ done order s ]
