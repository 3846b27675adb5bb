-- ===== src/Examples/Stores.antt =====
-- A store in which a merchant's offer has become an open campaign with one order, and a demand with
-- one member.
use chihuo.Base.{String, [], ◌∷◌}
use chihuo.Base.Int.{pos}
use chihuo.Domain.{FoodSpec}
use chihuo.Domain.Value
use chihuo.Store.{
  CreateMerchantInput, CreateDemandInput, CreateMemberInput, CreateOfferInput, CreateCampaignInput,
  CreateOrderInput, ReviewInput, MemoryStore, new_memory_store, zero_spec,
}
use chihuo.Store.History.{Call, step}

abbrev pub review : String → ReviewInput
review status = record { status = status; reviewer_id = "admin"; reason = "" }

abbrev pub food : FoodSpec
food = record {
  weight_grams = pos 400;
  ingredients = "rice" ∷ [];
  allergens = [];
  oil_level = "low";
  salt_level = "low";
  production_time = "11:00";
  shelf_life_minutes = pos 240;
  storage_instructions = "";
}

abbrev pub merchant_input : CreateMerchantInput
merchant_input = record { owner_user_id = "owner"; name = "Kitchen"; license = Value.end }

abbrev pub demand_input : CreateDemandInput
demand_input = record {
  created_by = "ann";
  minimum_members = pos 1;
  maximum_members = pos 2;
  spec = zero_spec;
}

abbrev pub member_input : CreateMemberInput
member_input = record {
  demand_id = "d";
  user_id = "ann";
  quantity = pos 1;
  weight_grams = pos 400;
  preferences = [];
  notes = "";
}

abbrev pub offer_input : CreateOfferInput
offer_input = record {
  demand_id = "d";
  merchant_id = "m";
  unit_price_cents = pos 1_500;
  production_capacity = pos 10;
  weight_grams = pos 400;
  ingredients = "rice" ∷ [];
  allergens = [];
  oil_level = "low";
  salt_level = "low";
  production_time = "11:00";
  shelf_life_minutes = pos 240;
  storage_instructions = "";
  notes = "";
}

abbrev pub campaign_input : CreateCampaignInput
campaign_input = record {
  demand_id = "d";
  offer_id = "o";
  merchant_id = "m";
  title = "Lunch";
  description = "";
  unit_price_cents = pos 1_500;
  delivery_fee_cents = pos 300;
  platform_fee_bps = pos 500;
  minimum_orders = pos 1;
  maximum_orders = pos 5;
  starts_at = 1;
  ends_at = 100;
  pickup_point = "gate";
  food_spec = food;
}

abbrev pub order_input : CreateOrderInput
order_input = record {
  campaign_id = "c";
  consumer_id = "ann";
  quantity = pos 2;
  delivery_address = "";
  contact_name = "Ann";
  contact_phone = "";
}

-- The store before the order, and the order's call.
abbrev pub prepared : MemoryStore
prepared = step (Call.reviews_campaign 8 "c" (review "OPEN")) (
    step (Call.creates_campaign "c" 7 campaign_input) (
      step (Call.creates_offer "o" 6 offer_input) (
        step (Call.adds_member "j" 5 5 member_input) (
          step (Call.reviews_demand 4 "d" (review "OPEN")) (
            step (Call.creates_demand "d" 3 demand_input) (
              step (Call.reviews_merchant 2 "m" (review "APPROVED"))
                (step (Call.creates_merchant "m" 1 merchant_input) new_memory_store)))))))

abbrev pub order_call : Call
order_call = Call.creates_order "x" 9 order_input

abbrev pub finished : MemoryStore
finished = step order_call prepared
