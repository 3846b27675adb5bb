-- ===== src/Store/Offers.antt =====
-- backend-go/internal/store/memory.go: merchants' offers for a demand.
use chihuo.Base.{String, Bool, true, false, none, some, Result, if◌then◌else◌}
use chihuo.Base.Dict.{lookup, insert}
use chihuo.Domain.{Time, Offer}
use chihuo.Domain.MerchantStatus.{MerchantStatus}
use chihuo.Domain.OfferStatus
use chihuo.Store.{Error, not_found, forbidden, invalid, CreateOfferInput, MemoryStore, done, fail}
use chihuo.Store.Demands.{is_rejected_or_closed}

-- merchant.Status == domain.MerchantApproved
unfoldable pub is_approved : MerchantStatus → Bool
is_approved MerchantStatus.approved = true
is_approved _ = false

-- CreateOffer
unfoldable pub create_offer :
    String → Time → CreateOfferInput → MemoryStore → Result Error Offer × MemoryStore
unfolding is_rejected_or_closed is_approved
create_offer new_id now input s = elim (lookup input.demand_id s.demands) [
  | none ↦ fail not_found s
  | some demand ↦
      if is_rejected_or_closed demand.status
      then fail invalid s
      else elim (lookup input.merchant_id s.merchants) [
        | none ↦ fail not_found s
        | some merchant ↦
            if is_approved merchant.status
            then (let offer : Offer = record {
              id = new_id;
              demand_id = input.demand_id;
              merchant_id = input.merchant_id;
              unit_price_cents = input.unit_price_cents;
              production_capacity = input.production_capacity;
              weight_grams = input.weight_grams;
              ingredients = input.ingredients;
              allergens = input.allergens;
              oil_level = input.oil_level;
              salt_level = input.salt_level;
              production_time = input.production_time;
              shelf_life_minutes = input.shelf_life_minutes;
              storage_instructions = input.storage_instructions;
              notes = input.notes;
              status = OfferStatus.submitted;
              created_at = now;
            } in
                done offer (record s { offers = insert offer.id offer s.offers }))
            else fail forbidden s
      ]
]

-- GetOffer
unfoldable pub get_offer : String → MemoryStore → Result Error Offer × MemoryStore
get_offer id s = elim (lookup id s.offers) [ none ↦ fail not_found s | some offer ↦ done offer s ]
