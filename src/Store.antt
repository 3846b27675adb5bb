-- ===== src/Store.antt =====
-- backend-go/internal/store: the errors and inputs of store.go and the state of the in-memory store,
-- memory.go. Each operation holds the store's lock throughout, so it is one step. It takes the
-- ids that `newID` draws and the times that `time.Now` reads as arguments, and returns its result
-- and the store afterwards.
pub mod Accounts
pub mod Demands
pub mod Offers
pub mod Campaigns
pub mod Orders
pub mod Listing
pub mod Frames
pub mod History
use chihuo.Base.{String, Option, none, List, [], Bool, true, false, Result, ok, err}
use chihuo.Base.Dict.{Dict}
use chihuo.Base.Int.{ℤ, pos}
use chihuo.Domain.{
  Time, User, Merchant, DemandSpec, Demand, DemandMember, Offer, FoodSpec, Campaign, Order,
  IdempotencyRecord,
}
use chihuo.Domain.Role
use chihuo.Domain.Role.{Role}
use chihuo.Domain.MerchantStatus
use chihuo.Domain.DemandStatus
use chihuo.Domain.OfferStatus
use chihuo.Domain.Value
use chihuo.Domain.Value.{Fields}

pub data Error : Type 0 where
  not_found conflict forbidden invalid : Error

pub record CreateUserInput : Type 0 where
  pub name : String
  pub role : Role
  pub external_key : String

pub record CreateMerchantInput : Type 0 where
  pub owner_user_id : String
  pub name : String
  pub license : Fields

pub record CreateDemandInput : Type 0 where
  pub created_by : String
  pub minimum_members : ℤ
  pub maximum_members : ℤ
  pub spec : DemandSpec

pub record CreateMemberInput : Type 0 where
  pub demand_id : String
  pub user_id : String
  pub quantity : ℤ
  pub weight_grams : ℤ
  pub preferences : List String
  pub notes : String

pub record CreateOfferInput : Type 0 where
  pub demand_id : String
  pub merchant_id : String
  pub unit_price_cents : ℤ
  pub production_capacity : ℤ
  pub weight_grams : ℤ
  pub ingredients : List String
  pub allergens : List String
  pub oil_level : String
  pub salt_level : String
  pub production_time : String
  pub shelf_life_minutes : ℤ
  pub storage_instructions : String
  pub notes : String

pub record CreateCampaignInput : Type 0 where
  pub demand_id : String
  pub offer_id : String
  pub merchant_id : String
  pub title : String
  pub description : String
  pub unit_price_cents : ℤ
  pub delivery_fee_cents : ℤ
  pub platform_fee_bps : ℤ
  pub minimum_orders : ℤ
  pub maximum_orders : ℤ
  pub starts_at : Time
  pub ends_at : Time
  pub pickup_point : String
  pub food_spec : FoodSpec

pub record CreateOrderInput : Type 0 where
  pub campaign_id : String
  pub consumer_id : String
  pub quantity : ℤ
  pub delivery_address : String
  pub contact_name : String
  pub contact_phone : String

pub record ListOptions : Type 0 where
  pub status : String
  pub merchant_id : String
  pub consumer_id : String
  pub demand_id : String
  pub limit : ℤ
  pub offset : ℤ

pub record ReviewInput : Type 0 where
  pub status : String
  pub reviewer_id : String
  pub reason : String

pub record MemoryStore : Type 0 where
  pub users : Dict User
  pub users_by_key : Dict String
  pub merchants : Dict Merchant
  pub merchant_by_owner : Dict String
  pub demands : Dict Demand
  pub members : Dict DemandMember
  pub offers : Dict Offer
  pub campaigns : Dict Campaign
  pub orders : Dict Order
  pub idempotency : Dict IdempotencyRecord

-- NewMemoryStore
unfoldable pub new_memory_store : MemoryStore
new_memory_store = record {
  users = [];
  users_by_key = [];
  merchants = [];
  merchant_by_owner = [];
  demands = [];
  members = [];
  offers = [];
  campaigns = [];
  orders = [];
  idempotency = [];
}

-- A call that succeeds, and one that returns an error; both come with the store afterwards.
abbrev pub done {ℓ} : {A : Type ℓ} → A → MemoryStore → Result Error A × MemoryStore
done a s = (ok a, s)

abbrev pub fail {ℓ} : {A : Type ℓ} → Error → MemoryStore → Result Error A × MemoryStore
fail e s = (err e, s)

-- The zero values that a map read yields for a missing key.
abbrev pub zero_spec : DemandSpec
zero_spec = record {
  category = "";
  title = "";
  service_area = "";
  serving_date = "";
  serving_time = "";
  budget_min_cents = pos 0;
  budget_max_cents = pos 0;
  quantity = pos 0;
  weight_min_grams = pos 0;
  weight_max_grams = pos 0;
  hard_constraints = [];
  preferences = [];
  notes = "";
}

abbrev pub zero_user : User
zero_user = record { id = ""; name = ""; role = Role.other ""; created_at = 0 }

abbrev pub zero_merchant : Merchant
zero_merchant = record {
  id = "";
  owner_user_id = "";
  name = "";
  status = MerchantStatus.other "";
  license = Value.end;
  review_reason = "";
  reviewed_at = none;
  created_at = 0;
}

abbrev pub zero_demand : Demand
zero_demand = record {
  spec = zero_spec;
  id = "";
  created_by = "";
  minimum_members = pos 0;
  maximum_members = pos 0;
  member_count = pos 0;
  status = DemandStatus.other "";
  reviewed_by = "";
  reviewed_at = none;
  review_reason = "";
  created_at = 0;
  updated_at = 0;
}

abbrev pub zero_offer : Offer
zero_offer = record {
  id = "";
  demand_id = "";
  merchant_id = "";
  unit_price_cents = pos 0;
  production_capacity = pos 0;
  weight_grams = pos 0;
  ingredients = [];
  allergens = [];
  oil_level = "";
  salt_level = "";
  production_time = "";
  shelf_life_minutes = pos 0;
  storage_instructions = "";
  notes = "";
  status = OfferStatus.other "";
  created_at = 0;
}
