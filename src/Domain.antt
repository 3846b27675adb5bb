-- ===== src/Domain.antt =====
-- backend-go/internal/domain/models.go. Go's int and int64 are ℤ, within 64 bits. A `time.Time` is
-- the number of nanoseconds since Go's zero time, which is 0; earlier times do not occur.
pub mod Role
pub mod MerchantStatus
pub mod DemandStatus
pub mod OfferStatus
pub mod CampaignStatus
pub mod OrderStatus
pub mod Value
use chihuo.Base.{ℕ, String, List, Option}
use chihuo.Base.Int.{ℤ}

abbrev pub Time : Type 0
Time = ℕ

pub record User : Type 0 where
  pub id : String
  pub name : String
  pub role : Role.Role
  pub created_at : Time

pub record Merchant : Type 0 where
  pub id : String
  pub owner_user_id : String
  pub name : String
  pub status : MerchantStatus.MerchantStatus
  pub license : Value.Fields
  pub review_reason : String
  pub reviewed_at : Option Time
  pub created_at : Time

pub record DemandSpec : Type 0 where
  pub category : String
  pub title : String
  pub service_area : String
  pub serving_date : String
  pub serving_time : String
  pub budget_min_cents : ℤ
  pub budget_max_cents : ℤ
  pub quantity : ℤ
  pub weight_min_grams : ℤ
  pub weight_max_grams : ℤ
  pub hard_constraints : List String
  pub preferences : List String
  pub notes : String

pub record Demand : Type 0 where
  pub spec : DemandSpec
  pub id : String
  pub created_by : String
  pub minimum_members : ℤ
  pub maximum_members : ℤ
  pub member_count : ℤ
  pub status : DemandStatus.DemandStatus
  pub reviewed_by : String
  pub reviewed_at : Option Time
  pub review_reason : String
  pub created_at : Time
  pub updated_at : Time

pub record DemandMember : Type 0 where
  pub id : String
  pub demand_id : String
  pub user_id : String
  pub quantity : ℤ
  pub weight_grams : ℤ
  pub preferences : List String
  pub notes : String
  pub created_at : Time

pub record FoodSpec : Type 0 where
  pub weight_grams : ℤ
  pub ingredients : List String
  pub allergens : List String
  pub oil_level : String
  pub salt_level : String
  pub production_time : String
  pub shelf_life_minutes : ℤ
  pub storage_instructions : String

pub record Offer : Type 0 where
  pub id : String
  pub demand_id : String
  pub merchant_id : String
  pub unit_price_cents : ℤ
  pub production_capacity : ℤ
  pub weight_grams : ℤ
  pub ingredients : List String
  pub allergens : List String
  pub oil_level : String
  pub salt_level : String
  pub production_time : String
  pub shelf_life_minutes : ℤ
  pub storage_instructions : String
  pub notes : String
  pub status : OfferStatus.OfferStatus
  pub created_at : Time

pub record Campaign : Type 0 where
  pub id : String
  pub demand_id : String
  pub offer_id : String
  pub merchant_id : String
  pub title : String
  pub description : String
  pub unit_price_cents : ℤ
  pub delivery_fee_cents : ℤ
  pub platform_fee_bps : ℤ
  pub minimum_orders : ℤ
  pub maximum_orders : ℤ
  pub current_orders : ℤ
  pub starts_at : Time
  pub ends_at : Time
  pub pickup_point : String
  pub food_spec : FoodSpec
  pub status : CampaignStatus.CampaignStatus
  pub review_reason : String
  pub reviewed_at : Option Time
  pub created_at : Time
  pub updated_at : Time

pub record Order : Type 0 where
  pub id : String
  pub campaign_id : String
  pub consumer_id : String
  pub quantity : ℤ
  pub delivery_address : String
  pub contact_name : String
  pub contact_phone : String
  pub status : OrderStatus.OrderStatus
  pub unit_price_cents : ℤ
  pub subtotal_cents : ℤ
  pub delivery_fee_cents : ℤ
  pub platform_fee_cents : ℤ
  pub total_cents : ℤ
  pub created_at : Time
  pub updated_at : Time

pub record IdempotencyRecord : Type 0 where
  pub actor_id : String
  pub key : String
  pub fingerprint : String
  pub status : ℤ
  pub response : List ℕ
  pub created_at : Time
