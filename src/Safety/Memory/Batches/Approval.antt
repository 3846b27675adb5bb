-- ===== src/Safety/Memory/Batches/Approval.antt =====
-- A batch is created only for a merchant that is approved.
use chihuo.Base.{
  String, true, false, Option, none, some, List, [], ◌∷◌, ◌≡◌, refl, sym, subst, ◌∙◌, ◌⊎◌, inl, inr,
  arith, is_nil, Bool-cases, Option-cases, ok, ◌<◌, eq_iff,
}
use mathlib.Core.List.{Memᴰ}
use chihuo.Domain.{Time}
use chihuo.Safety.Status.{QualificationStatus}
use chihuo.Safety.Model.{MerchantQualification, FoodBatch}
use chihuo.Safety.Inputs.{CreateBatchInput}
use chihuo.Safety.Errors.{refuse}
use chihuo.Safety.Platform.{Platform}
use chihuo.Safety.Validation.{is_approved_qualification, is_after}
use chihuo.Safety.Memory.{MemoryService, Env}
use chihuo.Safety.Memory.Batches.{
  qualifies, select, approved_from, approved_qualification, create_batch_refusal, create_batch,
}
use chihuo.Safety.Memory.Cases.{create_batch_cases}

-- A qualification of the merchant, APPROVED, with both its permits valid at the time.
pub record IsCurrent (merchant_id : String) (now : Time) (q : MerchantQualification) : Type 0 where
  pub owned : q.merchant_id ≡ merchant_id
  pub approved : q.status ≡ QualificationStatus.approved
  pub licensed : now < q.business_license_expires_at
  pub permitted : now < q.food_permit_expires_at

qualifies-IsCurrent :
    (merchant_id : String) (now : Time) (q : MerchantQualification)
    → qualifies merchant_id now q ≡ true
    → IsCurrent merchant_id now q
unfolding qualifies is_approved_qualification is_after
qualifies-IsCurrent merchant_id now q h = record {
  owned = ground (arith, eq_iff q.merchant_id merchant_id);
  approved = ground arith;
  licensed = ground arith;
  permitted = ground arith;
}

taken_is : (x q : MerchantQualification) → some x ≡ some q → q ≡ x
taken_is x q h = cc

unfold_selection :
    (merchant_id : String) (now : Time) (visited : List MerchantQualification)
    → approved_from merchant_id now none visited ≡ approved_qualification merchant_id now visited
unfolding approved_qualification
unfold_selection merchant_id now visited = refl

select_either :
    (selected : Option MerchantQualification) (q : MerchantQualification)
    → (select selected q ≡ selected) ⊎ (select selected q ≡ some q)
unfolding select
select_either selected q = ground arith

approved_from-qualifies :
    (merchant_id : String) (now : Time) (selected : Option MerchantQualification)
    (visited : List MerchantQualification) (q : MerchantQualification)
    → approved_from merchant_id now selected visited ≡ some q
    → (selected ≡ some q) ⊎ (Memᴰ q visited × (qualifies merchant_id now q ≡ true))
unfolding approved_from
approved_from-qualifies merchant_id now selected [] q h = inl h
approved_from-qualifies merchant_id now selected (x ∷ xs) q h =
    elim (Bool-cases (qualifies merchant_id now x)) [
      | inl good ↦
          elim (approved_from-qualifies merchant_id now (select selected x) xs q
            (ground (arith, good, h))) [
              | inr (later, fits) ↦ inr (Memᴰ.tail later, fits)
              | inl chosen ↦ elim (select_either selected x) [
                | inl kept ↦ inl (ground (arith, kept, chosen))
                | inr taken ↦ inr (
                  Memᴰ.head (taken_is x q (sym taken ∙ chosen)),
                  subst (λ y. qualifies merchant_id now y ≡ true)
                      (sym (taken_is x q (sym taken ∙ chosen))) good,
                )
              ]
            ]
      | inr bad ↦
          elim (approved_from-qualifies merchant_id now selected xs q (ground (arith, bad, h))) [
            | inl kept ↦ inl kept
            | inr (later, fits) ↦ inr (Memᴰ.tail later, fits)
          ]
    ]

selection_was_made :
    (platform : Platform) (env : Env) (visited : List MerchantQualification)
    (input : CreateBatchInput)
    → create_batch_refusal platform env visited input ≡ none
    → is_nil (approved_qualification input.merchant_id (env.clock 0) visited) ≡ false
unfolding create_batch_refusal refuse
selection_was_made platform env visited input passed = ground arith

selected-IsCurrent :
    (merchant_id : String) (now : Time) (visited : List MerchantQualification)
    → is_nil (approved_qualification merchant_id now visited) ≡ false
    → (q : MerchantQualification) × Memᴰ q visited × IsCurrent merchant_id now q
selected-IsCurrent merchant_id now visited there =
    elim (Option-cases (approved_qualification merchant_id now visited)) [
      | inl missing ↦ ground (arith, missing, there)
      | inr (q, chosen) ↦
          elim (approved_from-qualifies merchant_id now none visited q
            (unfold_selection merchant_id now visited ∙ chosen)) [
              | inl never ↦ ground (arith, never)
              | inr (member, fits) ↦ (q, member, qualifies-IsCurrent merchant_id now q fits)
            ]
    ]

-- CreateBatch succeeds only for a merchant that has a qualification, among those that the service
-- visits, that is APPROVED and whose business licence and food permit are valid at the time of the
-- call.
pub created_batch_was_approved :
    (platform : Platform) (env : Env) (visited : List MerchantQualification)
    (input : CreateBatchInput) (s : MemoryService) (b : FoodBatch)
    → (create_batch platform env visited input s).0 ≡ ok b
    → (q : MerchantQualification) × Memᴰ q visited × IsCurrent input.merchant_id (env.clock 0) q
created_batch_was_approved platform env visited input s b =
    create_batch_cases
      (λ r.
        r.0 ≡ ok b
        → (q : MerchantQualification) × Memᴰ q visited
          × IsCurrent input.merchant_id (env.clock 0) q)
      platform env visited input s (λ e failed. ground (arith, failed))
      (λ passed _.
        selected-IsCurrent input.merchant_id (env.clock 0) visited
          (selection_was_made platform env visited input passed))
