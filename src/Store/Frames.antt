-- ===== src/Store/Frames.antt =====
-- Which parts of the store the operations leave alone.
use chihuo.Base.{String, ◌≡◌, refl, arith}
use chihuo.Domain.{Time, IdempotencyRecord}
use chihuo.Store.{
  CreateUserInput, CreateMerchantInput, CreateDemandInput, CreateMemberInput, CreateOfferInput,
  CreateCampaignInput, CreateOrderInput, ReviewInput, MemoryStore,
}
use chihuo.Store.Accounts.{
  create_or_get_user, create_or_get_merchant, review_merchant, put_idempotency,
}
use chihuo.Store.Demands.{create_demand, admit_member, add_demand_member, review_demand}
use chihuo.Store.Demands.Invariant.{add_demand_member_cases}
use chihuo.Store.Offers.{create_offer}
use chihuo.Store.Campaigns.{create_campaign, review_campaign}
use chihuo.Store.Campaigns.Reviews.{create_campaign_cases, review_campaign_cases}
use chihuo.Store.Orders.{place_order, create_order}
use chihuo.Store.Orders.Invariant.{create_order_cases}

-- The demands and their members are the same in both stores.
pub record SameMembers (s s' : MemoryStore) : Type 0 where
  pub demands : s'.demands ≡ s.demands
  pub members : s'.members ≡ s.members

-- The campaigns and their orders are the same in both stores.
pub record SameOrders (s s' : MemoryStore) : Type 0 where
  pub campaigns : s'.campaigns ≡ s.campaigns
  pub orders : s'.orders ≡ s.orders

module _ (s : MemoryStore) where
  pub create_or_get_user-frame :
      (id : String) (now : Time) (input : CreateUserInput)
      → let s' = (create_or_get_user id now input s).1 in SameMembers s s' × SameOrders s s'
  unfolding create_or_get_user
  create_or_get_user-frame id now input = ground arith

  pub create_or_get_merchant-frame :
      (id : String) (now : Time) (input : CreateMerchantInput)
      → let s' = (create_or_get_merchant id now input s).1 in SameMembers s s' × SameOrders s s'
  unfolding create_or_get_merchant
  create_or_get_merchant-frame id now input = ground arith

  pub review_merchant-frame :
      (now : Time) (id : String) (input : ReviewInput)
      → let s' = (review_merchant now id input s).1 in SameMembers s s' × SameOrders s s'
  unfolding review_merchant
  review_merchant-frame now id input = ground arith

  pub put_idempotency-frame :
      (entry : IdempotencyRecord)
      → let s' = (put_idempotency entry s).1 in SameMembers s s' × SameOrders s s'
  unfolding put_idempotency
  put_idempotency-frame entry = ground arith

  pub create_offer-frame :
      (id : String) (now : Time) (input : CreateOfferInput)
      → let s' = (create_offer id now input s).1 in SameMembers s s' × SameOrders s s'
  unfolding create_offer
  create_offer-frame id now input = ground arith

  pub create_demand-frame :
      (id : String) (now : Time) (input : CreateDemandInput)
      → SameOrders s (create_demand id now input s).1
  unfolding create_demand
  create_demand-frame id now input = ground arith

  pub review_demand-frame :
      (now : Time) (id : String) (input : ReviewInput)
      → SameOrders s (review_demand now id input s).1
  unfolding review_demand
  review_demand-frame now id input = ground arith

  pub add_demand_member-frame :
      (id : String) (now later : Time) (input : CreateMemberInput)
      → SameOrders s (add_demand_member id now later input s).1
  add_demand_member-frame id now later input =
      add_demand_member_cases (λ r. SameOrders s r.1) id now later input s
        (λ e. record { campaigns = refl; orders = refl })
        (λ d _ _ _ _. unfold admit_member in record { campaigns = refl; orders = refl })

  pub create_campaign-frame :
      (id : String) (now : Time) (input : CreateCampaignInput)
      → SameMembers s (create_campaign id now input s).1
  create_campaign-frame id now input =
      create_campaign_cases (λ r. SameMembers s r.1) id now input s
        (λ e. record { demands = refl; members = refl })
        (λ d o _ _ _ _ _. record { demands = refl; members = refl })

  pub review_campaign-frame :
      (now : Time) (id : String) (input : ReviewInput)
      → SameMembers s (review_campaign now id input s).1
  review_campaign-frame now id input =
      review_campaign_cases (λ r. SameMembers s r.1) now id input s
        (λ e. record { demands = refl; members = refl })
        (λ c _ _ _ _. record { demands = refl; members = refl })
        (λ c _ _. record { demands = refl; members = refl })

  pub create_order-frame :
      (id : String) (now : Time) (input : CreateOrderInput)
      → SameMembers s (create_order id now input s).1
  create_order-frame id now input =
      create_order_cases (λ r. SameMembers s r.1) id now input s
        (λ e. record { demands = refl; members = refl })
        (λ c _ _ _. unfold place_order in record { demands = refl; members = refl })
