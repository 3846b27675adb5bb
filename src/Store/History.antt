-- ===== src/Store/History.antt =====
-- The in-memory store over any history of its calls, in the order in which they took its lock.
use chihuo.Base.{ℕ, String, ◌≡◌, ◌^◌, ◌<◌, ◌⊎◌, none, some}
use chihuo.Base.Dict.{lookup}
use chihuo.Base.Int.{pos, ◌≤ℤ◌, ◌<ℤ◌}
use chihuo.Domain.{Time, Demand, Campaign, IdempotencyRecord}
use chihuo.Store.{
  CreateUserInput, CreateMerchantInput, CreateDemandInput, CreateMemberInput, CreateOfferInput,
  CreateCampaignInput, CreateOrderInput, ReviewInput, MemoryStore, new_memory_store,
}
use chihuo.Store.Frames.{
  SameMembers, SameOrders, create_or_get_user-frame, create_or_get_merchant-frame,
  review_merchant-frame, put_idempotency-frame, create_offer-frame, create_demand-frame,
  review_demand-frame, add_demand_member-frame, create_campaign-frame, review_campaign-frame,
  create_order-frame,
}
use chihuo.Store.Accounts.{
  create_or_get_user, create_or_get_merchant, review_merchant, put_idempotency,
}
use chihuo.Store.Demands.{create_demand, add_demand_member, review_demand}
use chihuo.Store.Demands.Invariant.{
  members_of, MembersConsistent, new-MembersConsistent, create_demand-MembersConsistent,
  add_demand_member-MembersConsistent, review_demand-MembersConsistent,
}
use chihuo.Store.Offers.{create_offer}
use chihuo.Store.Campaigns.{create_campaign, review_campaign}
use chihuo.Store.Orders.{create_order}
use chihuo.Store.Orders.Invariant.{
  ordered_of, OrdersConsistent, new-OrdersConsistent, create_campaign-OrdersConsistent,
  review_campaign-OrdersConsistent, create_order-OrdersConsistent,
}

-- The calls that write, with the ids that they draw and the times that they read.
pub data Call : Type 0 where
  creates_user : String → Time → CreateUserInput → Call
  creates_merchant : String → Time → CreateMerchantInput → Call
  reviews_merchant : Time → String → ReviewInput → Call
  creates_demand : String → Time → CreateDemandInput → Call
  adds_member : String → Time → Time → CreateMemberInput → Call
  reviews_demand : Time → String → ReviewInput → Call
  creates_offer : String → Time → CreateOfferInput → Call
  creates_campaign : String → Time → CreateCampaignInput → Call
  reviews_campaign : Time → String → ReviewInput → Call
  creates_order : String → Time → CreateOrderInput → Call
  puts_idempotency : IdempotencyRecord → Call

-- The store after a call, whatever the call returned.
unfoldable pub step : Call → MemoryStore → MemoryStore
step (creates_user id now input) s = (create_or_get_user id now input s).1
step (creates_merchant id now input) s = (create_or_get_merchant id now input s).1
step (reviews_merchant now id input) s = (review_merchant now id input s).1
step (creates_demand id now input) s = (create_demand id now input s).1
step (adds_member id now later input) s = (add_demand_member id now later input s).1
step (reviews_demand now id input) s = (review_demand now id input s).1
step (creates_offer id now input) s = (create_offer id now input s).1
step (creates_campaign id now input) s = (create_campaign id now input s).1
step (reviews_campaign now id input) s = (review_campaign now id input s).1
step (creates_order id now input) s = (create_order id now input s).1
step (puts_idempotency entry) s = (put_idempotency entry s).1

-- What a call may assume: random ids are fresh, limits are numbers of 64 bits (of 63 for the limits
-- and quantities of orders), and a quantity is not negative, as the handlers check.
abbrev pub IsAdmissible : Call → MemoryStore → Type 0
IsAdmissible (creates_demand id now input) s =
    (lookup id s.demands ≡ none) × (input.maximum_members <ℤ pos (2 ^ 63))
IsAdmissible (creates_campaign id now input) s =
    (lookup id s.campaigns ≡ none) × (input.maximum_orders <ℤ pos (2 ^ 62))
IsAdmissible (creates_order id now input) s =
    (lookup id s.orders ≡ none) × ((q : ℕ) × (input.quantity ≡ pos q) × (q < 2 ^ 62))
IsAdmissible _ s = Unit {0}

-- The stores that histories of such calls lead to.
pub data Reachable : MemoryStore → Type 0 where
  start : Reachable new_memory_store
  next : {s : MemoryStore} (c : Call) → Reachable s → IsAdmissible c s → Reachable (step c s)

pub record IsConsistent (s : MemoryStore) : Type 0 where
  pub members : MembersConsistent s.demands s.members
  pub orders : OrdersConsistent s.campaigns s.orders

keep_members :
    {s s' : MemoryStore}
    → SameMembers s s'
    → MembersConsistent s.demands s.members
    → MembersConsistent s'.demands s'.members
keep_members f inv = rw (f.demands, f.members) inv

keep_orders :
    {s s' : MemoryStore}
    → SameOrders s s'
    → OrdersConsistent s.campaigns s.orders
    → OrdersConsistent s'.campaigns s'.orders
keep_orders f inv = rw (f.campaigns, f.orders) inv

keep_both :
    {s s' : MemoryStore} → SameMembers s s' × SameOrders s s' → IsConsistent s → IsConsistent s'
keep_both f inv = record {
  members = keep_members f.0 inv.members;
  orders = keep_orders f.1 inv.orders;
}

-- Every admissible call, in every consistent store and whatever it returns, leaves a consistent one.
pub step-IsConsistent :
    (c : Call) (s : MemoryStore) → IsAdmissible c s → IsConsistent s → IsConsistent (step c s)
unfolding step
step-IsConsistent (creates_user id now input) s a inv =
    keep_both (create_or_get_user-frame s id now input) inv
step-IsConsistent (creates_merchant id now input) s a inv =
    keep_both (create_or_get_merchant-frame s id now input) inv
step-IsConsistent (reviews_merchant now id input) s a inv =
    keep_both (review_merchant-frame s now id input) inv
step-IsConsistent (creates_demand id now input) s (fresh, fits) inv = record {
  members = create_demand-MembersConsistent id now input s fresh fits inv.members;
  orders = keep_orders (create_demand-frame s id now input) inv.orders;
}
step-IsConsistent (adds_member id now later input) s a inv = record {
  members = add_demand_member-MembersConsistent id now later input s inv.members;
  orders = keep_orders (add_demand_member-frame s id now later input) inv.orders;
}
step-IsConsistent (reviews_demand now id input) s a inv = record {
  members = review_demand-MembersConsistent now id input s inv.members;
  orders = keep_orders (review_demand-frame s now id input) inv.orders;
}
step-IsConsistent (creates_offer id now input) s a inv =
    keep_both (create_offer-frame s id now input) inv
step-IsConsistent (creates_campaign id now input) s (fresh, fits) inv = record {
  members = keep_members (create_campaign-frame s id now input) inv.members;
  orders = create_campaign-OrdersConsistent id now input s fresh fits inv.orders;
}
step-IsConsistent (reviews_campaign now id input) s a inv = record {
  members = keep_members (review_campaign-frame s now id input) inv.members;
  orders = review_campaign-OrdersConsistent now id input s inv.orders;
}
step-IsConsistent (creates_order id now input) s (fresh, (q, quantity, small)) inv = record {
  members = keep_members (create_order-frame s id now input) inv.members;
  orders = create_order-OrdersConsistent id now input q s fresh quantity small inv.orders;
}
step-IsConsistent (puts_idempotency entry) s a inv = keep_both (put_idempotency-frame s entry) inv

-- Every reachable store is consistent.
pub Reachable-IsConsistent : {s : MemoryStore} → Reachable s → IsConsistent s
Reachable-IsConsistent start = record {
  members = new-MembersConsistent;
  orders = new-OrdersConsistent;
}
Reachable-IsConsistent (next {s} c r a) = step-IsConsistent c s a (Reachable-IsConsistent r)

-- In a store that admissible calls lead to, the demand stored under a key has that key for its id,
-- its counter is the number of the members stored for it, and no demand with members has more of
-- them than its limit.
pub Reachable-members :
    {s : MemoryStore} (k : String) (d : Demand)
    → Reachable s
    → lookup k s.demands ≡ some d
    → (d.id ≡ k)
      × (d.member_count ≡ pos (members_of k s.members))
      × ((members_of k s.members ≡ 0) ⊎ (pos (members_of k s.members) ≤ℤ d.maximum_members))
Reachable-members k d r found =
    let inv = (Reachable-IsConsistent r).members.each k d found in
    (inv.keyed, inv.counted, inv.limited)

-- In a store that admissible calls lead to, the campaign stored under a key has that key for its id,
-- its counter is the sum of the quantities of the orders stored for it, and a campaign with such
-- quantities has no more of them than its maximum.
pub Reachable-orders :
    {s : MemoryStore} (k : String) (c : Campaign)
    → Reachable s
    → lookup k s.campaigns ≡ some c
    → (c.id ≡ k)
      × (c.current_orders ≡ pos (ordered_of k s.orders))
      × ((ordered_of k s.orders ≡ 0) ⊎ (pos (ordered_of k s.orders) ≤ℤ c.maximum_orders))
Reachable-orders k c r found =
    let inv = (Reachable-IsConsistent r).orders.each k c found in
    (inv.keyed, inv.counted, inv.limited)
