-- ===== src/Safety/Memory/Dispositions.antt =====
-- backend-go/internal/safety/memory.go: dispositions.
use chihuo.Base.{
  String, Bool, true, false, not, ◌&&◌, ◌||◌, Option, none, some, List, [], ◌∷◌, str_eq,
  if◌then◌else◌, then_check,
}
use chihuo.Base.Text.{trim_space, is_empty}
use chihuo.Base.Dict.{Dict, lookup, get_or, insert}
use chihuo.Base.Int.{ltb_ℤ, ◌+64◌}
use chihuo.Safety.Status.{IncidentStatus, DispositionStatus}
use chihuo.Safety.Transitions.{can_transition_disposition}
use chihuo.Safety.Kinds.{DispositionType, EvidenceSubjectType, valid_disposition}
use chihuo.Safety.Model.{FoodBatch, FoodSafetyIncident, Recall, Disposition}
use chihuo.Safety.Zero.{zero_recall}
use chihuo.Safety.Inputs.{CreateDispositionInput, TransitionInput}
use chihuo.Safety.Errors.{
  Error, not_found, conflict, invalid_state, invalid_transition, field_error, refuse, check_context,
}
use chihuo.Safety.Validation.{blank}
use chihuo.Safety.Validation.Resources.{no_elements, validate_disposition}
use chihuo.Safety.Memory.{
  MemoryService, Env, Answer, answer, unless_error, if_found, guarded, append_unique,
  append_status_change, contains_string, validate_evidence_refs,
}

-- The disposition that CreateDisposition builds.
unfoldable pub planned_disposition : Env → CreateDispositionInput → Disposition
unfolding trim_space
planned_disposition env input = record {
  id = env.new_id 0;
  incident_id = trim_space input.incident_id;
  recall_id = trim_space input.recall_id;
  batch_id = trim_space input.batch_id;
  order_id = trim_space input.order_id;
  kind_of = input.kind_of;
  quantity = input.quantity;
  unit = trim_space input.unit;
  status = DispositionStatus.planned;
  action_by = trim_space input.action_by;
  notes = trim_space input.notes;
  evidence_ids = [];
  status_history = [];
  completed_at = none;
  created_at = env.clock 0;
  updated_at = env.clock 1;
}

-- incident.Status == IncidentClosed || incident.Status == IncidentDismissed
unfoldable pub is_shut : IncidentStatus → Bool
is_shut IncidentStatus.closed = true
is_shut IncidentStatus.dismissed = true
is_shut _ = false

-- The check of CreateDisposition that its recall, if any, is one of the incident.
unfoldable pub disposition_recall_refusal :
    Dict Recall → FoodSafetyIncident → Disposition → Option Error
unfolding refuse lookup
disposition_recall_refusal recalls incident disposition =
    if is_empty disposition.recall_id then none else elim (lookup disposition.recall_id recalls) [
      | none ↦ some not_found
      | some recall ↦ refuse (not (str_eq recall.incident_id incident.id)) conflict
    ]

-- The batch that validateDispositionTargetLocked asks for.
unfoldable pub disposition_batch_refusal :
    Dict FoodBatch → FoodSafetyIncident → Disposition → Option Error
unfolding refuse lookup contains_string
disposition_batch_refusal batches incident disposition =
    if is_empty disposition.batch_id then none else elim (lookup disposition.batch_id batches) [
      | none ↦ some not_found
      | some batch ↦
          refuse
            (not (contains_string incident.batch_ids disposition.batch_id)
              || not (str_eq batch.merchant_id incident.merchant_id))
            conflict
    ]

-- if id != "" && !containsString(ids, id) { return ErrConflict }
unfoldable pub outside_refusal : List String → String → Option Error
unfolding refuse contains_string
outside_refusal ids id = refuse (not (is_empty id) && not (contains_string ids id)) conflict

-- validateDispositionTargetLocked
unfoldable pub validate_disposition_target :
    MemoryService → FoodSafetyIncident → Disposition → Option Error
unfolding disposition_batch_refusal outside_refusal get_or zero_recall
validate_disposition_target s incident disposition =
    let recall = get_or zero_recall disposition.recall_id s.recalls in
    then_check (disposition_batch_refusal s.batches incident disposition) (
      then_check (outside_refusal incident.order_ids disposition.order_id) (
        if is_empty disposition.recall_id
        then none
        else then_check (outside_refusal recall.batch_ids disposition.batch_id)
            (outside_refusal recall.order_ids disposition.order_id)))

-- The recalls after CreateDisposition.
unfoldable pub attach_to_recall : Env → Disposition → Dict Recall → Dict Recall
unfolding get_or zero_recall insert append_unique
attach_to_recall env disposition recalls =
    let recall = get_or zero_recall disposition.recall_id recalls in
    if is_empty disposition.recall_id
    then recalls
    else insert recall.id
        (record recall {
          disposition_ids = append_unique recall.disposition_ids (disposition.id ∷ []);
          updated_at = env.clock 3;
        })
        recalls

-- The incident after CreateDisposition.
unfoldable pub disposed_incident : Env → String → FoodSafetyIncident → FoodSafetyIncident
unfolding append_unique
disposed_incident env disposition_id incident = record incident {
  disposition_ids = append_unique incident.disposition_ids (disposition_id ∷ []);
  updated_at = env.clock 2;
}

-- The writes of CreateDisposition.
unfoldable pub plan : Env → Disposition → FoodSafetyIncident → MemoryService → Answer Disposition
unfolding insert disposed_incident attach_to_recall
plan env disposition incident s = answer disposition (record s {
  dispositions = insert disposition.id disposition s.dispositions;
  incidents = insert incident.id (disposed_incident env disposition.id incident) s.incidents;
  recalls = attach_to_recall env disposition s.recalls;
})

-- The checks of CreateDisposition on the incident found.
unfoldable pub plan_refusal : MemoryService → Disposition → FoodSafetyIncident → Option Error
unfolding refuse is_shut disposition_recall_refusal validate_disposition_target
plan_refusal s disposition incident = then_check (refuse (is_shut incident.status) invalid_state) (
    then_check (disposition_recall_refusal s.recalls incident disposition)
      (validate_disposition_target s incident disposition))

-- CreateDisposition
unfoldable pub create_disposition :
    Env → CreateDispositionInput → MemoryService → Answer Disposition
unfolding guarded check_context refuse lookup planned_disposition validate_disposition plan_refusal
    plan
create_disposition env input s =
    let disposition = planned_disposition env input in
    guarded
      (then_check (check_context env.context) (
        then_check (refuse (not (no_elements input.evidence_ids)) conflict)
          (validate_disposition disposition)))
      (lookup disposition.incident_id s.incidents) (plan_refusal s disposition) s
      (λ incident. plan env disposition incident s)

-- GetDisposition
unfoldable pub get_disposition : Env → String → MemoryService → Answer Disposition
unfolding check_context unless_error if_found lookup
get_disposition env id s =
    unless_error (check_context env.context) s
      (if_found (lookup id s.dispositions) s (λ disposition. answer disposition s))

-- target == DispositionCompleted
unfoldable pub completes : DispositionStatus → Bool
completes DispositionStatus.completed = true
completes _ = false

-- disposition.Type == DispositionDestroy
unfoldable pub destroys : DispositionType → Bool
destroys DispositionType.destroy = true
destroys _ = false

-- disposition.Type == DispositionDestroy || disposition.Type == DispositionReturnToSupplier
unfoldable pub is_physical : DispositionType → Bool
is_physical DispositionType.destroy = true
is_physical DispositionType.return_to_supplier = true
is_physical _ = false

-- disposition.RecallID != "" && target == DispositionCompleted && disposition.Type == DispositionDestroy
unfoldable pub counts_as_disposed : DispositionStatus → Disposition → Bool
unfolding completes destroys
counts_as_disposed target disposition =
    not (is_empty disposition.recall_id) && completes target && destroys disposition.kind_of

-- The check of TransitionDisposition on the recall's quantities.
unfoldable pub disposed_refusal : DispositionStatus → Dict Recall → Disposition → Option Error
unfolding refuse counts_as_disposed get_or zero_recall ◌+64◌
disposed_refusal target recalls disposition =
    let recall = get_or zero_recall disposition.recall_id recalls in
    refuse
      (counts_as_disposed target disposition
        && ltb_ℤ recall.affected_quantity (recall.disposed_quantity +64 disposition.quantity))
      conflict

-- The disposition after TransitionDisposition.
unfoldable pub moved_disposition :
    Env → DispositionStatus → TransitionInput → Disposition → Disposition
unfolding completes append_unique append_status_change
moved_disposition env target input disposition =
    let now = env.clock 0 in
    record disposition {
      status = target;
      evidence_ids = append_unique disposition.evidence_ids input.evidence_ids;
      completed_at = if completes target then some now else disposition.completed_at;
      updated_at = now;
      status_history =
          append_status_change disposition.status_history disposition.status target input.actor_id
            input.reason now;
    }

-- The recalls after TransitionDisposition.
unfoldable pub count_disposed : Env → DispositionStatus → Disposition → Dict Recall → Dict Recall
unfolding counts_as_disposed get_or zero_recall insert ◌+64◌
count_disposed env target disposition recalls =
    let recall = get_or zero_recall disposition.recall_id recalls in
    if counts_as_disposed target disposition
    then insert recall.id
        (record recall {
          disposed_quantity = recall.disposed_quantity +64 disposition.quantity;
          updated_at = env.clock 0;
        })
        recalls
    else recalls

-- The writes of TransitionDisposition.
unfoldable pub settle_disposition :
    Env
    → String
    → DispositionStatus
    → TransitionInput
    → Disposition
    → MemoryService
    → Answer Disposition
unfolding moved_disposition count_disposed insert
settle_disposition env id target input disposition s =
    let moved = moved_disposition env target input disposition in
    answer moved (record s {
      dispositions = insert id moved s.dispositions;
      recalls = count_disposed env target disposition s.recalls;
    })

-- TransitionDisposition
unfoldable pub transition_disposition :
    Env → String → DispositionStatus → TransitionInput → MemoryService → Answer Disposition
unfolding guarded check_context refuse blank valid_disposition lookup can_transition_disposition
    completes is_physical validate_evidence_refs disposed_refusal settle_disposition
transition_disposition env id target input s =
    guarded
      (then_check (check_context env.context) (
        then_check (refuse (blank input.actor_id) (field_error "actor_id" "is required"))
          (refuse (not (valid_disposition target)) (field_error "status" "is invalid"))))
      (lookup id s.dispositions)
      (λ disposition.
        then_check
          (refuse (not (can_transition_disposition disposition.status target)) invalid_transition)
          (then_check
            (refuse
              (completes target
                && is_physical disposition.kind_of
                && no_elements input.evidence_ids)
              invalid_state)
            (then_check
              (refuse (not (completes target) && blank input.reason)
                (field_error "reason" "is required when disposition does not complete"))
              (then_check
                (validate_evidence_refs s EvidenceSubjectType.disposition id input.evidence_ids)
                (disposed_refusal target s.recalls disposition)))))
      s (λ disposition. settle_disposition env id target input disposition s)
