-- ===== src/Safety/Memory/Lifecycle/Batches.antt =====
-- Every call of the in-memory service lets its batches live on.
use chihuo.Base.{
  ℕ, suc, String, true, false, some, none, List, [], ◌∷◌, ◌≡◌, refl, inl, inr, arith, Option-cases,
  eq_iff,
}
use chihuo.Base.Text.{trim_space}
use chihuo.Base.Dict.{Dict, lookup, get_or, insert, lookup-insert}
use chihuo.Base.Int.{pos, ◌≤ℤ◌, ◌<ℤ◌}
use chihuo.Domain.{Time}
use chihuo.Safety.Status.{FoodBatchStatus}
use chihuo.Safety.Transitions.{can_transition_batch}
use chihuo.Safety.Model.{FoodBatch}
use chihuo.Safety.Inputs.{RecordProductionInput, TransitionInput}
use chihuo.Safety.Errors.{refuse}
use chihuo.Safety.Validation.Resources.{is_inactive}
use chihuo.Safety.Memory.{MemoryService, Env, append_status_change}
use chihuo.Safety.Memory.Batches.{
  produced, production_input_refusal, production_refusal, is_producing, batch_refusal, transitioned,
}
use chihuo.Safety.Memory.Incidents.{
  can_quarantine_batch, can_quarantine_all, quarantined, quarantine_batch, quarantine_all,
}
use chihuo.Safety.Memory.Incidents.Quarantine.{quarantine_batch_cases, quarantine_all_loop}
use chihuo.Safety.Memory.Recalls.Marks.{mark_recalled_cases, mark_all_loop}
use chihuo.Safety.Validation.{blank}
use chihuo.Safety.Zero.{zero_batch}
use chihuo.Safety.Memory.Recalls.{
  check_recall_batches, can_mark_recalled, can_mark_all, recalled_batch, mark_recalled, mark_all,
  linked_batch, link_batches,
}
use chihuo.Safety.Memory.Lifecycle.{
  BatchStep, BatchLife-one, BatchesLive, BatchesLive-refl, BatchesLive-trans, BatchesLive-update,
}

batch_refusal-allows :
    (id : String) (target : FoodBatchStatus) (input : TransitionInput) (s : MemoryService)
    (b : FoodBatch)
    → batch_refusal id target input s b ≡ none
    → can_transition_batch b.status target ≡ true
unfolding batch_refusal refuse
batch_refusal-allows id target input s b passed = ground arith

was_producing :
    (env : Env) (input : RecordProductionInput) (b : FoodBatch)
    → production_refusal env input b ≡ none
    → b.status ≡ FoodBatchStatus.producing
unfolding production_refusal refuse is_producing
was_producing env input b passed = ground arith

production_is_positive :
    (env : Env) (input : RecordProductionInput)
    → production_input_refusal env input ≡ none
    → pos 0 <ℤ input.quantity
unfolding production_input_refusal refuse
production_is_positive env input checked = ground arith

production_within_plan :
    (env : Env) (input : RecordProductionInput) (b : FoodBatch)
    → production_refusal env input b ≡ none
    → input.quantity ≤ℤ b.quantity_planned
unfolding production_refusal refuse
production_within_plan env input b passed = ground arith

can_quarantine-allows :
    (id : String) (b : FoodBatch) (m : Dict FoodBatch)
    → can_quarantine_batch m id ≡ none
    → lookup id m ≡ some b
    → is_inactive b.status ≡ false
    → can_transition_batch b.status FoodBatchStatus.quarantined ≡ true
unfolding can_quarantine_batch refuse
can_quarantine-allows id b m can found active = ground arith

pub transitioned-BatchStep :
    (env : Env) (id : String) (target : FoodBatchStatus) (input : TransitionInput)
    (s : MemoryService) (b : FoodBatch)
    → batch_refusal id target input s b ≡ none
    → BatchStep b (transitioned env target input b)
unfolding transitioned append_status_change
transitioned-BatchStep env id target input s b passed =
    BatchStep.moves _ _ _ refl (batch_refusal-allows id target input s b passed)

pub produced-BatchStep :
    (env : Env) (input : RecordProductionInput) (b : FoodBatch)
    → production_input_refusal env input ≡ none
    → production_refusal env input b ≡ none
    → BatchStep b (produced env input b)
unfolding produced
produced-BatchStep env input b checked passed =
    BatchStep.produces _ _ _ _ _ (was_producing env input b passed)
      (production_is_positive env input checked) (production_within_plan env input b passed)

quarantined-BatchStep :
    (actor_id reason : String) (now : Time) (b : FoodBatch)
    → can_transition_batch b.status FoodBatchStatus.quarantined ≡ true
    → BatchStep b (quarantined actor_id reason now b)
unfolding quarantined append_status_change
quarantined-BatchStep actor_id reason now b allowed =
    BatchStep.moves _ b.evidence_ids now refl allowed

recalled-BatchStep :
    (actor_id reason : String) (now : Time) (b : FoodBatch)
    → can_transition_batch b.status FoodBatchStatus.recalled ≡ true
    → BatchStep b (recalled_batch actor_id reason now b)
unfolding recalled_batch append_status_change
recalled-BatchStep actor_id reason now b allowed = BatchStep.moves _ b.evidence_ids now refl allowed

module _ (actor_id reason : String) (now : Time) where
  quarantine_batch-BatchesLive :
      (id : String) (m : Dict FoodBatch)
      → can_quarantine_batch m id ≡ none
      → BatchesLive m (quarantine_batch actor_id reason now id m).1
  quarantine_batch-BatchesLive id m can =
      quarantine_batch_cases actor_id reason now (λ r. BatchesLive m r.1) id m can
        (λ _ _ _. BatchesLive-refl m)
        (λ b found active. BatchesLive-update id b _ m found (
          BatchLife-one (
            quarantined-BatchStep actor_id reason now b
              (can_quarantine-allows id b m can found active))))

  pub quarantine_all-BatchesLive :
      (ids : List String) (m : Dict FoodBatch)
      → can_quarantine_all m ids ≡ none
      → BatchesLive m (quarantine_all actor_id reason now ids m).1
  quarantine_all-BatchesLive ids m can =
      (quarantine_all_loop actor_id reason now BatchesLive BatchesLive-refl
        (λ a b c f g. BatchesLive-trans f g) quarantine_batch-BatchesLive ids m can).1

  mark_recalled-BatchesLive :
      (id : String) (m : Dict FoodBatch)
      → can_mark_recalled m id ≡ none
      → BatchesLive m (mark_recalled actor_id reason now id m)
  mark_recalled-BatchesLive id m can =
      mark_recalled_cases actor_id reason now (BatchesLive m) id m can (λ _ _ _. BatchesLive-refl m)
        (λ b found allowed.
          BatchesLive-update id b _ m found
            (BatchLife-one (recalled-BatchStep actor_id reason now b allowed)))

  pub mark_all-BatchesLive :
      (ids : List String) (m : Dict FoodBatch)
      → can_mark_all m ids ≡ none
      → BatchesLive m (mark_all actor_id reason now ids m)
  mark_all-BatchesLive =
      mark_all_loop actor_id reason now BatchesLive BatchesLive-refl
        (λ a b c f g. BatchesLive-trans f g) mark_recalled-BatchesLive

zero_merchant_is_blank : blank zero_batch.merchant_id ≡ true
unfolding blank zero_batch trim_space
zero_merchant_is_blank = refl

checked-found :
    (m : Dict FoodBatch) (known : List String) (merchant_id id : String) (ids : List String)
    → blank merchant_id ≡ false
    → check_recall_batches m known merchant_id (id ∷ ids) ≡ none
    → (b : FoodBatch) × (lookup id m ≡ some b)
unfolding check_recall_batches get_or refuse
checked-found m known merchant_id id ids named checked = elim (Option-cases (lookup id m)) [
  | inr found ↦ found
  | inl missing ↦
      ground (arith, missing, zero_merchant_is_blank, eq_iff zero_batch.merchant_id merchant_id)
]

linked-BatchesLive :
    (recall_id : String) (now : Time) (id : String) (b : FoodBatch) (m : Dict FoodBatch)
    → lookup id m ≡ some b
    → BatchesLive m (insert id (linked_batch recall_id now (get_or zero_batch id m)) m)
unfolding linked_batch get_or
linked-BatchesLive recall_id now id b m found =
    rw (found, get_or)
      (BatchesLive-update id b _ m found (BatchLife-one (BatchStep.joins_recall recall_id now)))

-- Linking a batch leaves its merchant alone.
checked_rest :
    (recall_id : String) (now : Time) (known : List String) (merchant_id id : String)
    (ids : List String) (m : Dict FoodBatch)
    → check_recall_batches m known merchant_id ids ≡ none
    → check_recall_batches
        (insert id (linked_batch recall_id now (get_or zero_batch id m)) m)
        known
        merchant_id
        ids
      ≡ none
unfolding check_recall_batches refuse get_or linked_batch
checked_rest recall_id now known merchant_id id [] m checked = refl
checked_rest recall_id now known merchant_id id (j ∷ ids) m checked = ground (
  arith,
  lookup-insert id j (linked_batch recall_id now (get_or zero_batch id m)) m,
  eq_iff id j,
  checked_rest recall_id now known merchant_id id ids m,
)

checked_tail :
    (m : Dict FoodBatch) (known : List String) (merchant_id id : String) (ids : List String)
    → check_recall_batches m known merchant_id (id ∷ ids) ≡ none
    → check_recall_batches m known merchant_id ids ≡ none
unfolding check_recall_batches
checked_tail m known merchant_id id ids checked = ground arith

-- The batches of a recall that CreateRecall links were all found.
pub link_batches-BatchesLive :
    (clock : ℕ → Time) (recall_id : String) (known : List String) (merchant_id : String) (i : ℕ)
    (ids : List String) (m : Dict FoodBatch)
    → blank merchant_id ≡ false
    → check_recall_batches m known merchant_id ids ≡ none
    → BatchesLive m (link_batches clock recall_id i ids m)
unfolding link_batches
link_batches-BatchesLive clock recall_id known merchant_id i [] m named checked = BatchesLive-refl m
link_batches-BatchesLive clock recall_id known merchant_id i (id ∷ ids) m named checked =
    let (b, found) = checked-found m known merchant_id id ids named checked in
    let next = insert id (linked_batch recall_id (clock i) (get_or zero_batch id m)) m in
    BatchesLive-trans (linked-BatchesLive recall_id (clock i) id b m found) (
      link_batches-BatchesLive clock recall_id known merchant_id (suc i) ids next named (
        checked_rest recall_id (clock i) known merchant_id id ids m
          (checked_tail m known merchant_id id ids checked)))
