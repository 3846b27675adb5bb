-- ===== src/Store/Campaigns.antt =====
-- backend-go/internal/store/memory.go: campaigns, the presales that an offer leads to.
pub mod Reviews
use chihuo.Base.{String, not, ◌||◌, none, some, Result, str_eq, if◌then◌else◌}
use chihuo.Base.Dict.{lookup, get_or, insert}
use chihuo.Base.Int.{pos, ltb_ℤ}
use chihuo.Domain.{Time, Campaign, Offer}
use chihuo.Domain.CampaignStatus
use chihuo.Domain.OfferStatus
use chihuo.Store.{
  Error, not_found, conflict, invalid, CreateCampaignInput, ReviewInput, MemoryStore, done, fail,
  zero_demand, zero_offer,
}
use chihuo.Store.Demands.{is_rejected_or_closed}

-- The campaign that CreateCampaign builds.
unfoldable pub new_campaign : String → Time → CreateCampaignInput → Campaign
new_campaign new_id now input = record {
  id = new_id;
  demand_id = input.demand_id;
  offer_id = input.offer_id;
  merchant_id = input.merchant_id;
  title = input.title;
  description = input.description;
  unit_price_cents = input.unit_price_cents;
  delivery_fee_cents = input.delivery_fee_cents;
  platform_fee_bps = input.platform_fee_bps;
  minimum_orders = input.minimum_orders;
  maximum_orders = input.maximum_orders;
  current_orders = pos 0;
  starts_at = input.starts_at;
  ends_at = input.ends_at;
  pickup_point = input.pickup_point;
  food_spec = input.food_spec;
  status = CampaignStatus.pending_review;
  review_reason = "";
  reviewed_at = none;
  created_at = now;
  updated_at = now;
}

-- CreateCampaign
unfoldable pub create_campaign :
    String → Time → CreateCampaignInput → MemoryStore → Result Error Campaign × MemoryStore
unfolding is_rejected_or_closed new_campaign
create_campaign new_id now input s = elim (lookup input.demand_id s.demands) [
  | none ↦ fail not_found s
  | some demand ↦ elim (lookup input.offer_id s.offers) [
    | none ↦ fail conflict s
    | some offer ↦
        if not (str_eq offer.demand_id input.demand_id)
          || not (str_eq offer.merchant_id input.merchant_id)
        then fail conflict s
        else if is_rejected_or_closed demand.status
        then fail invalid s
        else let campaign = new_campaign new_id now input in
          done campaign (record s { campaigns = insert campaign.id campaign s.campaigns })
  ]
]

-- GetCampaign
unfoldable pub get_campaign : String → MemoryStore → Result Error Campaign × MemoryStore
get_campaign id s = elim (lookup id s.campaigns) [
  | none ↦ fail not_found s
  | some campaign ↦ done campaign s
]

-- The campaign as the end of ReviewCampaign writes it.
unfoldable pub reviewed_campaign : Time → ReviewInput → Campaign → Campaign
reviewed_campaign now input campaign = record campaign {
  status = CampaignStatus.parse input.status;
  review_reason = input.reason;
  reviewed_at = some now;
  updated_at = now;
}

-- ReviewCampaign; opening a campaign accepts its offer
unfoldable pub review_campaign :
    Time → String → ReviewInput → MemoryStore → Result Error Campaign × MemoryStore
unfolding is_rejected_or_closed get_or reviewed_campaign
review_campaign now id input s = elim (lookup id s.campaigns) [
  | none ↦ fail not_found s
  | some campaign ↦
      let reviewed : Campaign = reviewed_campaign now input campaign in
      if str_eq input.status "OPEN"
      then (let demand = get_or zero_demand campaign.demand_id s.demands in
          if is_rejected_or_closed demand.status
          then fail invalid s
          else if ltb_ℤ campaign.maximum_orders campaign.minimum_orders
          then fail invalid s
          else let offer : Offer = record (get_or zero_offer campaign.offer_id s.offers) {
            status = OfferStatus.accepted;
          } in
            done reviewed (record s {
              offers = insert offer.id offer s.offers;
              campaigns = insert id reviewed s.campaigns;
            }))
      else done reviewed (record s { campaigns = insert id reviewed s.campaigns })
]
