-- ===== src/Store/Campaigns/Reviews.antt =====
-- How ReviewCampaign ends, and that it writes only what a review may change.
use chihuo.Base.{
  String, ◌≡◌, true, false, inl, inr, some, Result, err, str_eq, Bool-cases, Option-cases, if_cases,
  arith,
}
use chihuo.Base.Dict.{lookup, get_or, insert}
use chihuo.Base.Int.{ltb_ℤ}
use chihuo.Domain.{Time, Campaign, Demand, Offer}
use chihuo.Domain.OfferStatus
use chihuo.Store.{
  Error, not_found, invalid, conflict, CreateCampaignInput, ReviewInput, MemoryStore, done,
  zero_demand, zero_offer,
}
use chihuo.Store.Demands.{is_rejected_or_closed}
use chihuo.Store.Campaigns.{new_campaign, create_campaign, reviewed_campaign, review_campaign}

-- The offer of a campaign as opening the campaign leaves it.
abbrev pub accepted_offer : Campaign → MemoryStore → Offer
accepted_offer campaign s = record (get_or zero_offer campaign.offer_id s.offers) {
  status = OfferStatus.accepted;
}

pub review_campaign_cases {ℓ} :
    (P : Result Error Campaign × MemoryStore → Type ℓ) (now : Time) (id : String)
    (input : ReviewInput) (s : MemoryStore)
    → ((e : Error) → P (err e, s))
    → ((c : Campaign)
        → lookup id s.campaigns ≡ some c
        → str_eq input.status "OPEN" ≡ true
        → is_rejected_or_closed (get_or zero_demand c.demand_id s.demands).status ≡ false
        → ltb_ℤ c.maximum_orders c.minimum_orders ≡ false
        → P (
            done (reviewed_campaign now input c) (record s {
              offers = insert (accepted_offer c s).id (accepted_offer c s) s.offers;
              campaigns = insert id (reviewed_campaign now input c) s.campaigns;
            })))
    → ((c : Campaign)
        → lookup id s.campaigns ≡ some c
        → str_eq input.status "OPEN" ≡ false
        → P (
            done
              (reviewed_campaign now input c)
              (record s { campaigns = insert id (reviewed_campaign now input c) s.campaigns })))
    → P (review_campaign now id input s)
unfolding review_campaign
review_campaign_cases P now id input s failed opened other =
    elim (Option-cases (lookup id s.campaigns)) [
      | inl missing ↦ rw (missing, review_campaign) (failed not_found)
      | inr (c, found) ↦ elim (Bool-cases (str_eq input.status "OPEN")) [
        | inr not_open ↦ rw (found, review_campaign) (rw not_open (other c found not_open))
        | inl opens ↦
            elim (Bool-cases
              (is_rejected_or_closed (get_or zero_demand c.demand_id s.demands).status)) [
                | inl refused ↦ rw (found, review_campaign) (rw opens (rw refused (failed invalid)))
                | inr active ↦ elim (Bool-cases (ltb_ℤ c.maximum_orders c.minimum_orders)) [
                  | inl empty ↦
                      rw (found, review_campaign) (rw opens (rw active (rw empty (failed invalid))))
                  | inr room ↦
                      rw (found, review_campaign)
                        (rw opens (rw active (rw room (opened c found opens active room))))
                ]
              ]
      ]
    ]

-- How CreateCampaign ends.
pub create_campaign_cases {ℓ} :
    (P : Result Error Campaign × MemoryStore → Type ℓ) (new_id : String) (now : Time)
    (input : CreateCampaignInput) (s : MemoryStore)
    → ((e : Error) → P (err e, s))
    → ((d : Demand) (o : Offer)
        → lookup input.demand_id s.demands ≡ some d
        → lookup input.offer_id s.offers ≡ some o
        → str_eq o.demand_id input.demand_id ≡ true
        → str_eq o.merchant_id input.merchant_id ≡ true
        → is_rejected_or_closed d.status ≡ false
        → P (
            done
              (new_campaign new_id now input)
              (record s { campaigns = insert new_id (new_campaign new_id now input) s.campaigns })))
    → P (create_campaign new_id now input s)
unfolding create_campaign
create_campaign_cases P new_id now input s failed created =
    elim (Option-cases (lookup input.demand_id s.demands)) [
      | inl missing ↦ rw (missing, create_campaign) (failed not_found)
      | inr (d, demanded) ↦ elim (Option-cases (lookup input.offer_id s.offers)) [
        | inl missing ↦
            rw (demanded, create_campaign) (rw (missing, create_campaign) (failed conflict))
        | inr (o, offered) ↦
            rw (demanded, create_campaign)
              (rw (offered, create_campaign)
                (if_cases P _ _ _ (λ _. failed conflict)
                  (λ matching.
                    if_cases P _ _ _ (λ _. failed invalid)
                      (λ active.
                        created d o demanded offered (ground (arith, matching))
                          (ground (arith, matching)) active))))
      ]
    ]
