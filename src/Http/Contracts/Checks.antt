-- ===== src/Http/Contracts/Checks.antt =====
-- backend-go/internal/httpapi/contracts.go: the checks of request bodies, and what they make of texts
-- and lists of texts.
use Prim.Native.String.{◌++◌ as str_append}
use chihuo.Base.{
  ℕ, zero, suc, String, Bool, true, false, not, ◌&&◌, ◌||◌, Option, none, some, List, [], ◌∷◌,
  str_eq, Result, ok, err, if◌then◌else◌, then_check, ltb, leb,
}
use chihuo.Base.Int.{pos, leb_ℤ, ltb_ℤ}
use chihuo.Base.Text.{trim_space, is_empty}
use chihuo.Domain.{DemandSpec}
use chihuo.Domain.Role.{Role, valid}
use chihuo.Store.Listing.{contains}
use chihuo.Safety.Validation.{is_zero, is_after}
use chihuo.Http.Replies.{Details, RequestError, new_request_error}
use chihuo.Http.Contracts.{
  DevLoginRequest, CreateDemandRequest, JoinDemandRequest, ReviewRequest, CreateOfferRequest,
  CreateCampaignRequest, CreateOrderRequest,
}

-- Go's libraries: strings.ToUpper and strings.ToLower, the number of bytes of a string, and whether
-- time.Parse accepts it as YYYY-MM-DD or as HH:mm.
pub record Texts : Type 0 where
  pub to_upper : String → String
  pub to_lower : String → String
  pub byte_length : String → ℕ
  pub is_date : String → Bool
  pub is_clock : String → Bool

-- len([]rune(s)) and string([]rune(s)[:n])
unfoldable pub rune_count : String → ℕ
rune_count String.[] = 0
rune_count (String.◌∷◌ c s) = suc (rune_count s)

unfoldable pub take_runes : ℕ → String → String
take_runes zero s = String.[]
take_runes (suc n) String.[] = String.[]
take_runes (suc n) (String.◌∷◌ c s) = String.◌∷◌ c (take_runes n s)

-- if condition { return newRequestError(http.StatusBadRequest, code, message, nil) }
unfoldable pub refuse_request : Bool → String → String → Option RequestError
unfolding new_request_error
refuse_request condition code message =
    if condition then some (new_request_error (pos 400) code message Details.nothing) else none

-- validFoodLevel
unfoldable pub valid_food_level : String → Bool
valid_food_level value =
    is_empty value
    || str_eq value "UNKNOWN"
    || str_eq value "LOW"
    || str_eq value "MEDIUM"
    || str_eq value "HIGH"

-- The string, or its first runes where it has more.
unfoldable pub shortened : ℕ → String → String
unfolding rune_count take_runes
shortened most s = if ltb most (rune_count s) then take_runes most s else s

-- optionalText
unfoldable pub optional_text : String → ℕ → String
unfolding trim_space shortened
optional_text value most = shortened most (trim_space value)

-- joinDemandRequest.validate
unfoldable pub validate_join : JoinDemandRequest → Option RequestError
unfolding refuse_request
validate_join v =
    then_check
      (refuse_request (leb_ℤ v.quantity (pos 0)) "INVALID_QUANTITY" "quantity must be positive")
      (refuse_request (ltb_ℤ v.weight_grams (pos 0)) "INVALID_WEIGHT"
        "weight_grams must not be negative")

-- v.Role == domain.RoleMerchant, and the role that an empty one stands for
unfoldable pub is_merchant : Role → Bool
is_merchant Role.merchant = true
is_merchant _ = false

unfoldable pub defaulted_role : Role → Role
defaulted_role (Role.other name) = if is_empty name then Role.consumer else Role.other name
defaulted_role role = role

module _ (texts : Texts) where
  -- requiredText
  unfoldable pub required_text : String → String → ℕ → Option RequestError
  unfolding trim_space refuse_request rune_count
  required_text value field most =
      let trimmed = trim_space value in
      let code = str_append "INVALID_" (texts.to_upper field) in
      then_check (refuse_request (is_empty trimmed) code (str_append field " is required"))
        (refuse_request (ltb most (rune_count trimmed)) code (str_append field " is too long"))

  -- What normalizeStrings appends for a value, once it has n results whose keys are `seen`.
  unfoldable pub admitted : ℕ → ℕ → ℕ → List String → String → Option String
  unfolding trim_space shortened contains
  admitted max_items max_length n seen value =
      let trimmed = trim_space value in
      let short = shortened max_length trimmed in
      if is_empty trimmed || leb max_items n || contains (texts.to_lower short) seen
      then none
      else some short

  -- The loop of normalizeStrings: the values that it appends.
  unfoldable pub normalize_from : ℕ → ℕ → ℕ → List String → List String → List String
  unfolding admitted
  normalize_from max_items max_length n seen [] = []
  normalize_from max_items max_length n seen (value ∷ values) =
      elim (admitted max_items max_length n seen value) [
        | none ↦ normalize_from max_items max_length n seen values
        | some short ↦
            short ∷ normalize_from max_items max_length (suc n) (texts.to_lower short ∷ seen) values
      ]

  -- normalizeStrings
  unfoldable pub normalize_strings : List String → ℕ → ℕ → List String
  unfolding normalize_from
  normalize_strings values max_items max_length = normalize_from max_items max_length 0 [] values

  -- devLoginRequest.validate
  unfoldable pub validate_login : DevLoginRequest → Option RequestError
  unfolding required_text refuse_request valid is_merchant defaulted_role
  validate_login v =
      let role = defaulted_role v.role in
      then_check (required_text v.code "code" 128) (
        then_check (required_text v.name "name" 80) (
          then_check (refuse_request (not (valid role)) "INVALID_ROLE" "role is invalid") (
            if is_merchant role && not (is_empty v.merchant_name)
            then required_text v.merchant_name "merchant_name" 120
            else none)))

  -- The checks of createDemandRequest.toSpec.
  unfoldable pub spec_refusal : CreateDemandRequest → Option RequestError
  unfolding required_text refuse_request
  spec_refusal v = then_check (required_text v.category "category" 80) (
      then_check (required_text v.title "title" 120) (
        then_check (required_text v.service_area "service_area" 120) (
          then_check
            (refuse_request (not (texts.is_date v.serving_date)) "INVALID_DATE"
              "serving_date must be YYYY-MM-DD")
            (then_check
              (refuse_request (not (texts.is_clock v.serving_time)) "INVALID_TIME"
                "serving_time must be HH:mm")
              (then_check
                (refuse_request
                  (leb_ℤ v.budget_min_cents (pos 0) || ltb_ℤ v.budget_max_cents v.budget_min_cents)
                  "INVALID_BUDGET" "budget range is invalid")
                (then_check
                  (refuse_request
                    (leb_ℤ v.quantity (pos 0)
                      || leb_ℤ v.weight_min_grams (pos 0)
                      || ltb_ℤ v.weight_max_grams v.weight_min_grams)
                    "INVALID_QUANTITY" "quantity or weight range is invalid")
                  (refuse_request
                    (leb_ℤ v.minimum_members (pos 0) || ltb_ℤ v.maximum_members v.minimum_members)
                    "INVALID_MEMBER_LIMIT" "member limits are invalid")))))))

  -- The DemandSpec that createDemandRequest.toSpec returns.
  unfoldable pub spec_of : CreateDemandRequest → DemandSpec
  unfolding trim_space normalize_strings optional_text
  spec_of v = record {
    category = trim_space v.category;
    title = trim_space v.title;
    service_area = trim_space v.service_area;
    serving_date = v.serving_date;
    serving_time = v.serving_time;
    budget_min_cents = v.budget_min_cents;
    budget_max_cents = v.budget_max_cents;
    quantity = v.quantity;
    weight_min_grams = v.weight_min_grams;
    weight_max_grams = v.weight_max_grams;
    hard_constraints = normalize_strings v.hard_constraints 20 80;
    preferences = normalize_strings v.preferences 20 80;
    notes = optional_text v.notes 1000;
  }

  -- createDemandRequest.toSpec
  unfoldable pub to_spec : CreateDemandRequest → Result RequestError DemandSpec
  unfolding spec_refusal spec_of
  to_spec v = elim (spec_refusal v) [ none ↦ ok (spec_of v) | some e ↦ err e ]

  -- reviewRequest.validate
  unfoldable pub validate_review : List String → ReviewRequest → Option RequestError
  unfolding contains refuse_request new_request_error
  validate_review allowed v =
      if contains v.status allowed
      then refuse_request (ltb 500 (texts.byte_length v.reason)) "INVALID_REASON"
          "reason is too long"
      else some (
          new_request_error (pos 400) "INVALID_STATUS" "status is not allowed"
            (Details.names allowed))

  -- createOfferRequest.validate, less the lists that it assigns to its own copy of the request
  unfoldable pub validate_offer : CreateOfferRequest → Option RequestError
  unfolding required_text refuse_request valid_food_level
  validate_offer v = then_check (required_text v.demand_id "demand_id" 64) (
      then_check
        (refuse_request
          (leb_ℤ v.unit_price_cents (pos 0)
            || leb_ℤ v.production_capacity (pos 0)
            || leb_ℤ v.weight_grams (pos 0)
            || leb_ℤ v.shelf_life_minutes (pos 0))
          "INVALID_OFFER" "offer numeric fields are invalid")
        (then_check (required_text v.storage_instructions "storage_instructions" 300) (
          then_check
            (refuse_request (not (texts.is_clock v.production_time)) "INVALID_TIME"
              "production_time must be HH:mm")
            (refuse_request
              (not (valid_food_level v.oil_level) || not (valid_food_level v.salt_level))
              "INVALID_FOOD_LEVEL" "oil_level and salt_level are invalid"))))

  -- createCampaignRequest.validate: the food it offers, and the whole
  unfoldable pub food_spec_refusal : CreateCampaignRequest → Option RequestError
  unfolding required_text refuse_request valid_food_level
  food_spec_refusal v =
      let food = v.food_spec in
      then_check
        (refuse_request (leb_ℤ food.weight_grams (pos 0) || leb_ℤ food.shelf_life_minutes (pos 0))
          "INVALID_FOOD_SPEC" "food_spec numeric fields are invalid")
        (then_check
          (refuse_request (not (texts.is_clock food.production_time)) "INVALID_TIME"
            "food_spec.production_time must be HH:mm")
          (then_check
            (refuse_request
              (not (valid_food_level food.oil_level) || not (valid_food_level food.salt_level))
              "INVALID_FOOD_LEVEL" "food_spec oil_level and salt_level are invalid")
            (required_text food.storage_instructions "food_spec.storage_instructions" 300)))

  unfoldable pub validate_campaign : CreateCampaignRequest → Option RequestError
  unfolding required_text refuse_request is_zero is_after food_spec_refusal
  validate_campaign v = then_check (required_text v.demand_id "demand_id" 64) (
      then_check (required_text v.offer_id "offer_id" 64) (
        then_check (required_text v.title "title" 120) (
          then_check
            (refuse_request
              (leb_ℤ v.unit_price_cents (pos 0)
                || ltb_ℤ v.delivery_fee_cents (pos 0)
                || ltb_ℤ v.platform_fee_bps (pos 0)
                || ltb_ℤ (pos 2000) v.platform_fee_bps)
              "INVALID_PRICE" "campaign price fields are invalid")
            (then_check
              (refuse_request
                (leb_ℤ v.minimum_orders (pos 0) || ltb_ℤ v.maximum_orders v.minimum_orders)
                "INVALID_ORDER_LIMIT" "campaign order limits are invalid")
              (then_check
                (refuse_request
                  (is_zero v.ends_at || is_zero v.starts_at || not (is_after v.ends_at v.starts_at))
                  "INVALID_TIME_RANGE" "campaign time range is invalid")
                (then_check (required_text v.pickup_point "pickup_point" 200)
                  (food_spec_refusal v)))))))

  -- createOrderRequest.validate
  unfoldable pub validate_order : CreateOrderRequest → Option RequestError
  unfolding required_text refuse_request
  validate_order v =
      then_check
        (refuse_request (leb_ℤ v.quantity (pos 0)) "INVALID_QUANTITY" "quantity must be positive")
        (then_check (required_text v.delivery_address "delivery_address" 300) (
          then_check (required_text v.contact_name "contact_name" 80)
            (required_text v.contact_phone "contact_phone" 30)))
