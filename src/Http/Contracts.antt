-- ===== src/Http/Contracts.antt =====
-- backend-go/internal/httpapi/contracts.go: the bodies of requests, and their checks.
pub mod Checks
pub mod Normal
use chihuo.Base.{String, List}
use chihuo.Base.Int.{ℤ}
use chihuo.Domain.{Time}
use chihuo.Domain.Role.{Role}

-- devLoginRequest
pub record DevLoginRequest : Type 0 where
  pub code : String
  pub name : String
  pub role : Role
  pub merchant_name : String

-- createDemandRequest
pub record CreateDemandRequest : Type 0 where
  pub category : String
  pub title : String
  pub service_area : String
  pub serving_date : String
  pub serving_time : String
  pub budget_min_cents : ℤ
  pub budget_max_cents : ℤ
  pub quantity : ℤ
  pub weight_min_grams : ℤ
  pub weight_max_grams : ℤ
  pub hard_constraints : List String
  pub preferences : List String
  pub notes : String
  pub minimum_members : ℤ
  pub maximum_members : ℤ

-- joinDemandRequest
pub record JoinDemandRequest : Type 0 where
  pub quantity : ℤ
  pub weight_grams : ℤ
  pub preferences : List String
  pub notes : String

-- reviewRequest
pub record ReviewRequest : Type 0 where
  pub status : String
  pub reason : String

-- createOfferRequest
pub record CreateOfferRequest : Type 0 where
  pub demand_id : String
  pub unit_price_cents : ℤ
  pub production_capacity : ℤ
  pub weight_grams : ℤ
  pub ingredients : List String
  pub allergens : List String
  pub oil_level : String
  pub salt_level : String
  pub production_time : String
  pub shelf_life_minutes : ℤ
  pub storage_instructions : String
  pub notes : String

-- foodSpecDTO
pub record FoodSpecDto : Type 0 where
  pub weight_grams : ℤ
  pub ingredients : List String
  pub allergens : List String
  pub oil_level : String
  pub salt_level : String
  pub production_time : String
  pub shelf_life_minutes : ℤ
  pub storage_instructions : String

-- createCampaignRequest
pub record CreateCampaignRequest : Type 0 where
  pub demand_id : String
  pub offer_id : String
  pub title : String
  pub description : String
  pub unit_price_cents : ℤ
  pub delivery_fee_cents : ℤ
  pub platform_fee_bps : ℤ
  pub minimum_orders : ℤ
  pub maximum_orders : ℤ
  pub starts_at : Time
  pub ends_at : Time
  pub pickup_point : String
  pub food_spec : FoodSpecDto

-- createOrderRequest
pub record CreateOrderRequest : Type 0 where
  pub quantity : ℤ
  pub delivery_address : String
  pub contact_name : String
  pub contact_phone : String
