-- ===== src/Safety/Memory/Recalls.antt =====
-- backend-go/internal/safety/memory.go: recalls, and the batches that they mark.
pub mod Marks
use chihuo.Base.{
  ℕ, suc, String, Bool, true, false, not, ◌&&◌, ◌||◌, Option, none, some, List, [], ◌∷◌, str_eq,
  if◌then◌else◌, then_check,
}
use chihuo.Base.Text.{trim_space, is_empty}
use chihuo.Base.Dict.{Dict, lookup, get_or, insert}
use chihuo.Base.Int.{pos, leb_ℤ}
use chihuo.Domain.{Time}
use chihuo.Safety.Status.{FoodBatchStatus, IncidentStatus, RecallStatus}
use chihuo.Safety.Transitions.{can_transition_batch, can_transition_recall}
use chihuo.Safety.Kinds.{RecallScope, EvidenceSubjectType, valid_recall}
use chihuo.Safety.Model.{ProductSpec, FoodBatch, FoodSafetyIncident, Recall}
use chihuo.Safety.Zero.{zero_batch, zero_recall}
use chihuo.Safety.Inputs.{CreateRecallInput, TransitionInput, RecallTransitionInput}
use chihuo.Safety.Errors.{
  Error, not_found, conflict, invalid_state, invalid_transition, field_error, refuse, check_context,
}
use chihuo.Safety.Validation.{blank}
use chihuo.Safety.Validation.Resources.{no_elements, exceeds_affected, validate_recall}
use chihuo.Safety.Memory.{
  MemoryService, Env, Answer, answer, fail, unless_error, if_found, guarded, append_unique,
  append_status_change, unique_strings, contains_string, validate_evidence_refs,
}

-- The recall that CreateRecall builds, before it looks at the incident.
unfoldable pub drafted_recall : Env → CreateRecallInput → Recall
unfolding trim_space unique_strings
drafted_recall env input = record {
  id = env.new_id 0;
  incident_id = trim_space input.incident_id;
  merchant_id = trim_space input.merchant_id;
  scope = input.scope;
  reason = trim_space input.reason;
  batch_ids = unique_strings input.batch_ids;
  order_ids = unique_strings input.order_ids;
  affected_quantity = input.affected_quantity;
  recovered_quantity = pos 0;
  disposed_quantity = pos 0;
  status = RecallStatus.draft;
  evidence_ids = [];
  disposition_ids = [];
  status_history = [];
  initiated_by = "";
  notified_at = none;
  completed_at = none;
  created_at = env.clock 0;
  updated_at = env.clock 1;
}

-- if recall.MerchantID == "" { recall.MerchantID = incident.MerchantID }
unfoldable pub with_merchant : FoodSafetyIncident → Recall → Recall
with_merchant incident recall = record recall {
  merchant_id = if is_empty recall.merchant_id then incident.merchant_id else recall.merchant_id;
}

-- The statuses in which an incident has recalls.
unfoldable pub is_recallable : IncidentStatus → Bool
is_recallable IncidentStatus.confirmed = true
is_recallable IncidentStatus.recalling = true
is_recallable IncidentStatus.compensating = true
is_recallable _ = false

-- What validateRecallTargetsLocked asks for a scope.
unfoldable pub scope_refusal : Recall → Option Error
unfolding refuse
scope_refusal recall = elim recall.scope [
  | RecallScope.batch ↦
      refuse (no_elements recall.batch_ids) (field_error "batch_ids" "is required for BATCH recall")
  | RecallScope.order ↦
      refuse (no_elements recall.order_ids) (field_error "order_ids" "is required for ORDER recall")
  | _ ↦ none
]

-- The two loops of validateRecallTargetsLocked.
unfoldable pub check_recall_batches :
    Dict FoodBatch → List String → String → List String → Option Error
unfolding refuse contains_string get_or zero_batch
check_recall_batches batches known merchant_id [] = none
check_recall_batches batches known merchant_id (id ∷ ids) =
    then_check (refuse (not (contains_string known id)) conflict) (
      then_check
        (refuse (not (str_eq (get_or zero_batch id batches).merchant_id merchant_id)) conflict)
        (check_recall_batches batches known merchant_id ids))

unfoldable pub check_recall_orders : List String → List String → Option Error
unfolding refuse contains_string
check_recall_orders known [] = none
check_recall_orders known (id ∷ ids) =
    then_check (refuse (not (contains_string known id)) conflict) (check_recall_orders known ids)

-- validateRecallTargetsLocked
unfoldable pub validate_recall_targets : Dict FoodBatch → FoodSafetyIncident → Recall → Option Error
unfolding scope_refusal check_recall_batches check_recall_orders
validate_recall_targets batches incident recall = then_check (scope_refusal recall) (
    then_check (check_recall_batches batches incident.batch_ids recall.merchant_id recall.batch_ids)
      (check_recall_orders incident.order_ids recall.order_ids))

-- The checks of CreateRecall on the incident found.
unfoldable pub recall_refusal : Dict FoodBatch → Recall → FoodSafetyIncident → Option Error
unfolding refuse validate_recall is_recallable validate_recall_targets with_merchant
recall_refusal batches drafted incident =
    let recall = with_merchant incident drafted in
    then_check (refuse (not (str_eq recall.merchant_id incident.merchant_id)) conflict) (
      then_check (validate_recall recall) (
        then_check (refuse (not (is_recallable incident.status)) invalid_state)
          (validate_recall_targets batches incident recall)))

-- A batch with one more recall.
unfoldable pub linked_batch : String → Time → FoodBatch → FoodBatch
unfolding append_unique
linked_batch recall_id now batch = record batch {
  recall_ids = append_unique batch.recall_ids (recall_id ∷ []);
  updated_at = now;
}

-- The loop of CreateRecall over its batches, from the clock's place i.
unfoldable pub link_batches :
    (ℕ → Time) → String → ℕ → List String → Dict FoodBatch → Dict FoodBatch
unfolding linked_batch get_or zero_batch insert
link_batches clock recall_id i [] batches = batches
link_batches clock recall_id i (id ∷ ids) batches =
    link_batches clock recall_id (suc i) ids
      (insert id (linked_batch recall_id (clock i) (get_or zero_batch id batches)) batches)

-- The incident after CreateRecall.
unfoldable pub recalled_incident : Env → String → FoodSafetyIncident → FoodSafetyIncident
unfolding append_unique
recalled_incident env recall_id incident = record incident {
  recall_ids = append_unique incident.recall_ids (recall_id ∷ []);
  updated_at = env.clock 2;
}

-- The writes of CreateRecall.
unfoldable pub open_recall : Env → Recall → FoodSafetyIncident → MemoryService → Answer Recall
unfolding insert recalled_incident link_batches
open_recall env recall incident s = answer recall (record s {
  recalls = insert recall.id recall s.recalls;
  incidents = insert incident.id (recalled_incident env recall.id incident) s.incidents;
  batches = link_batches env.clock recall.id 3 recall.batch_ids s.batches;
})

-- CreateRecall
unfoldable pub create_recall : Env → CreateRecallInput → MemoryService → Answer Recall
unfolding guarded check_context refuse lookup drafted_recall recall_refusal with_merchant
    open_recall
create_recall env input s =
    let drafted = drafted_recall env input in
    guarded
      (then_check (check_context env.context)
        (refuse (not (no_elements input.evidence_ids)) conflict))
      (lookup drafted.incident_id s.incidents) (recall_refusal s.batches drafted) s
      (λ incident. open_recall env (with_merchant incident drafted) incident s)

-- GetRecall
unfoldable pub get_recall : Env → String → MemoryService → Answer Recall
unfolding check_context unless_error if_found lookup
get_recall env id s =
    unless_error (check_context env.context) s
      (if_found (lookup id s.recalls) s (λ recall. answer recall s))

-- batch.Status == BatchRecalled
unfoldable pub is_recalled : FoodBatchStatus → Bool
is_recalled FoodBatchStatus.recalled = true
is_recalled _ = false

-- batch.Status == BatchDisposed || batch.Status == BatchCancelled
unfoldable pub is_gone : FoodBatchStatus → Bool
is_gone FoodBatchStatus.disposed = true
is_gone FoodBatchStatus.cancelled = true
is_gone _ = false

-- canMarkBatchRecalledLocked
unfoldable pub can_mark_recalled : Dict FoodBatch → String → Option Error
unfolding lookup is_recalled is_gone refuse can_transition_batch
can_mark_recalled batches id = elim (lookup id batches) [
  | none ↦ some not_found
  | some batch ↦
      if is_recalled batch.status
      then none
      else then_check
          (refuse (is_gone batch.status || leb_ℤ batch.quantity_produced (pos 0)) invalid_state)
          (refuse (not (can_transition_batch batch.status FoodBatchStatus.recalled))
            invalid_transition)
]

-- The loop of TransitionRecall that checks the batches.
unfoldable pub can_mark_all : Dict FoodBatch → List String → Option Error
unfolding can_mark_recalled
can_mark_all batches [] = none
can_mark_all batches (id ∷ ids) =
    then_check (can_mark_recalled batches id) (can_mark_all batches ids)

-- The batch after markBatchRecalledLocked, when it was not recalled.
unfoldable pub recalled_batch : String → String → Time → FoodBatch → FoodBatch
unfolding append_status_change
recalled_batch actor_id reason now batch = record batch {
  status_history =
      append_status_change batch.status_history batch.status FoodBatchStatus.recalled actor_id
        reason now;
  status = FoodBatchStatus.recalled;
  updated_at = now;
}

-- markBatchRecalledLocked
unfoldable pub mark_recalled : String → String → Time → String → Dict FoodBatch → Dict FoodBatch
unfolding get_or zero_batch insert is_recalled recalled_batch
mark_recalled actor_id reason now id batches =
    let batch = get_or zero_batch id batches in
    if is_recalled batch.status
    then batches
    else insert id (recalled_batch actor_id reason now batch) batches

-- The loop of TransitionRecall that marks the batches.
unfoldable pub mark_all : String → String → Time → List String → Dict FoodBatch → Dict FoodBatch
unfolding mark_recalled
mark_all actor_id reason now [] batches = batches
mark_all actor_id reason now (id ∷ ids) batches =
    mark_all actor_id reason now ids (mark_recalled actor_id reason now id batches)

-- The checks of TransitionRecall for a target beyond the transition itself.
unfoldable pub recall_target_refusal :
    RecallStatus
    → RecallTransitionInput
    → Dict FoodBatch
    → FoodSafetyIncident
    → Recall
    → Option Error
unfolding refuse blank is_recallable can_mark_all exceeds_affected
recall_target_refusal RecallStatus.initiated input batches incident recall =
    then_check (refuse (not (is_recallable incident.status)) invalid_state)
      (can_mark_all batches recall.batch_ids)
recall_target_refusal RecallStatus.completed input batches incident recall =
    refuse
      (exceeds_affected recall.affected_quantity input.recovered_quantity input.disposed_quantity)
      (field_error "quantities" "recovered and disposed quantities exceed affected quantity")
recall_target_refusal RecallStatus.cancelled input batches incident recall =
    refuse (blank input.transition.reason)
      (field_error "reason" "is required when cancelling a recall")
recall_target_refusal _ input batches incident recall = none

-- The incident once a recall of it is initiated.
unfoldable pub recalling_incident :
    Env → RecallTransitionInput → Recall → FoodSafetyIncident → FoodSafetyIncident
unfolding append_status_change
recalling_incident env input recall incident = elim incident.status [
  | IncidentStatus.confirmed ↦ record incident {
    status_history =
        append_status_change incident.status_history incident.status IncidentStatus.recalling
          input.transition.actor_id recall.reason (env.clock 0);
    status = IncidentStatus.recalling;
  }
  | _ ↦ incident
]

-- What TransitionRecall writes into the recall for a target, besides its status and history.
unfoldable pub targeted_recall : Env → RecallStatus → RecallTransitionInput → Recall → Recall
targeted_recall env RecallStatus.initiated input recall = record recall {
  initiated_by = input.transition.actor_id;
  notified_at = elim input.notified_at [ none ↦ some (env.clock 0) | some at ↦ some at ];
}
targeted_recall env RecallStatus.completed input recall = record recall {
  recovered_quantity = input.recovered_quantity;
  disposed_quantity = input.disposed_quantity;
  completed_at = some (env.clock 0);
}
targeted_recall env _ input recall = recall

-- The recall after TransitionRecall.
unfoldable pub moved_recall : Env → RecallStatus → RecallTransitionInput → Recall → Recall
unfolding targeted_recall append_unique append_status_change
moved_recall env target input recall =
    let change = input.transition in
    record (targeted_recall env target input recall) {
      status = target;
      evidence_ids = append_unique recall.evidence_ids change.evidence_ids;
      updated_at = env.clock 0;
      status_history =
          append_status_change recall.status_history recall.status target change.actor_id
            change.reason (env.clock 0);
    }

-- What TransitionRecall writes into the batches and the incident for a target.
unfoldable pub carry_out :
    Env
    → RecallStatus
    → RecallTransitionInput
    → Recall
    → FoodSafetyIncident
    → MemoryService
    → MemoryService
unfolding mark_all recalling_incident insert
carry_out env RecallStatus.initiated input recall incident s = record s {
  batches =
      mark_all input.transition.actor_id recall.reason (env.clock 0) recall.batch_ids s.batches;
  incidents = insert incident.id (recalling_incident env input recall incident) s.incidents;
}
carry_out env _ input recall incident s = s

-- The checks of TransitionRecall once the incident is found too.
unfoldable pub recall_transition_refusal :
    String
    → RecallStatus
    → RecallTransitionInput
    → MemoryService
    → Recall
    → FoodSafetyIncident
    → Option Error
unfolding validate_evidence_refs recall_target_refusal
recall_transition_refusal id target input s recall incident =
    then_check
      (validate_evidence_refs s EvidenceSubjectType.recall id input.transition.evidence_ids)
      (recall_target_refusal target input s.batches incident recall)

-- The end of TransitionRecall.
unfoldable pub put_recall : String → Recall → MemoryService → Answer Recall
unfolding insert
put_recall id recall s = answer recall (record s { recalls = insert id recall s.recalls })

-- TransitionRecall, once the recall is found and may be transitioned
unfoldable pub transition_found :
    Env → String → RecallStatus → RecallTransitionInput → MemoryService → Recall → Answer Recall
unfolding guarded lookup recall_transition_refusal carry_out moved_recall put_recall
transition_found env id target input s recall =
    guarded none (lookup recall.incident_id s.incidents)
      (recall_transition_refusal id target input s recall) s
      (λ incident.
        put_recall id (moved_recall env target input recall)
          (carry_out env target input recall incident s))

-- if !CanTransitionRecall(recall.Status, target) { return …, invalidTransition(…) }
unfoldable pub recall_order_refusal : RecallStatus → Recall → Option Error
unfolding refuse can_transition_recall
recall_order_refusal target recall =
    refuse (not (can_transition_recall recall.status target)) invalid_transition

-- TransitionRecall
unfoldable pub transition_recall :
    Env → String → RecallStatus → RecallTransitionInput → MemoryService → Answer Recall
unfolding guarded check_context refuse blank valid_recall lookup recall_order_refusal
    transition_found
transition_recall env id target input s =
    guarded
      (then_check (check_context env.context) (
        then_check (refuse (blank input.transition.actor_id) (field_error "actor_id" "is required"))
          (refuse (not (valid_recall target)) (field_error "status" "is invalid"))))
      (lookup id s.recalls) (recall_order_refusal target) s (transition_found env id target input s)
