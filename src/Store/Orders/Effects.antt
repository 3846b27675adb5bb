-- ===== src/Store/Orders/Effects.antt =====
-- What a successful CreateOrder has done, and that a refused call has done nothing.
use chihuo.Base.{
  String, ◌≡◌, refl, sym, ◌∙◌, ◌≢◌, ◌⊎◌, true, false, inl, inr, some, Result, ok, err, arith,
  if◌then◌else◌,
}
use chihuo.Base.Dict.{Each, lookup, lookup-insert_at, lookup-insert_ne, lookup-insert_self}
use chihuo.Base.Int.{leb_ℤ, ltb_ℤ, ◌+64◌}
use chihuo.Domain.{Time, Campaign, Order}
use chihuo.Domain.CampaignStatus.{CampaignStatus}
use chihuo.Domain.OrderStatus
use chihuo.Store.{Error, CreateOrderInput, MemoryStore}
use chihuo.Store.Orders.{is_open, priced, take_order, place_order, create_order}
use chihuo.Store.Orders.Invariant.{create_order_cases}

-- What an order of quantity q for the campaign under `k` has done: the campaign was open, is now the
-- campaign c', booked for q more and sold out exactly when that fills it; the order is stored under
-- its id; and every other campaign and order is as it was.
pub record HasOrdered (k : String) (o : Order) (s s' : MemoryStore) (c c' : Campaign) : Type 0 where
  pub was : lookup k s.campaigns ≡ some c
  pub was_open : c.status ≡ CampaignStatus.open_status
  pub now_is : lookup k s'.campaigns ≡ some c'
  pub booked : c'.current_orders ≡ c.current_orders +64 o.quantity
  pub limit : c'.maximum_orders ≡ c.maximum_orders
  pub within : ltb_ℤ c'.maximum_orders c'.current_orders ≡ false
  pub status_now : c'.status ≡ (
      if leb_ℤ c'.maximum_orders c'.current_orders
      then CampaignStatus.sold_out
      else CampaignStatus.open_status)
  pub stored : lookup o.id s'.orders ≡ some o
  pub unpaid : o.status ≡ OrderStatus.pending_payment
  pub other_campaigns : (j : String) → k ≢ j → lookup j s'.campaigns ≡ lookup j s.campaigns
  pub other_orders : (j : String) → o.id ≢ j → lookup j s'.orders ≡ lookup j s.orders

open_status_of : (t : CampaignStatus) → is_open t ≡ true → t ≡ CampaignStatus.open_status
unfolding is_open
open_status_of t h = ground arith

place_order-HasOrdered :
    (new_id : String) (now : Time) (input : CreateOrderInput) (s : MemoryStore) (c : Campaign)
    → c.id ≡ input.campaign_id
    → lookup input.campaign_id s.campaigns ≡ some c
    → is_open c.status ≡ true
    → ltb_ℤ c.maximum_orders (c.current_orders +64 input.quantity) ≡ false
    → HasOrdered input.campaign_id
        (priced new_id now input c)
        s
        (place_order new_id now input c s).1
        c
        (take_order now input.quantity c)
unfolding place_order take_order priced
place_order-HasOrdered new_id now input s c keyed found opened room = record {
  was = found;
  was_open = open_status_of c.status opened;
  now_is =
      lookup-insert_at c.id input.campaign_id (take_order now input.quantity c) s.campaigns keyed;
  booked = refl;
  limit = refl;
  within = room;
  status_now = rw (open_status_of c.status opened);
  stored = lookup-insert_self new_id (priced new_id now input c) s.orders;
  unpaid = refl;
  other_campaigns = λ j ne.
      lookup-insert_ne c.id j (take_order now input.quantity c) s.campaigns
        (λ e. ne (sym keyed ∙ e));
  other_orders = λ j ne. lookup-insert_ne new_id j (priced new_id now input c) s.orders ne;
}

-- How a call of CreateOrder ends: with an error and the store as it was, or with an order.
abbrev pub Outcome :
    String → Time → CreateOrderInput → MemoryStore → Result Error Order × MemoryStore → Type 0
Outcome new_id now input s (r, s') =
    ((e : Error) × (r ≡ err e) × (s' ≡ s))
    ⊎ ((c : Campaign) × (c' : Campaign) × (r ≡ ok (priced new_id now input c))
        × HasOrdered input.campaign_id (priced new_id now input c) s s' c c')

-- CreateOrder, in a store whose campaigns carry their keys as ids, either returns an error and leaves
-- the store exactly as it was, or returns the order priced from the campaign that was stored, and has
-- done what HasOrdered lists.
pub create_order_effect :
    (new_id : String) (now : Time) (input : CreateOrderInput) (s : MemoryStore)
    → Each (λ k c. c.id ≡ k) s.campaigns
    → Outcome new_id now input s (create_order new_id now input s)
create_order_effect new_id now input s keyed =
    create_order_cases (Outcome new_id now input s) new_id now input s (λ e. inl (e, refl, refl))
      (λ c found opened room. inr (
        c,
        take_order now input.quantity c,
        (unfold place_order in refl),
        place_order-HasOrdered new_id now input s c (keyed input.campaign_id c found) found opened
            room,
      ))
