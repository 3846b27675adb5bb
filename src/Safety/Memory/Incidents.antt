-- ===== src/Safety/Memory/Incidents.antt =====
-- backend-go/internal/safety/memory.go: incidents, and the quarantine of their batches.
pub mod Quarantine
use chihuo.Base.{
  String, Bool, true, false, not, ◌&&◌, ◌||◌, Option, none, some, List, [], ◌∷◌, Result, ok, err,
  str_eq, if◌then◌else◌, then_check, is_nil,
}
use chihuo.Base.Text.{trim_space}
use chihuo.Base.Dict.{Dict, lookup, insert}
use chihuo.Domain.{Time}
use chihuo.Safety.Status.{FoodBatchStatus, IncidentStatus, RecallStatus}
use chihuo.Safety.Transitions.{can_transition_batch, can_transition_incident}
use chihuo.Safety.Kinds.{EvidenceSubjectType, valid_incident}
use chihuo.Safety.Model.{FoodBatch, RegulatoryReport, FoodSafetyIncident, Recall}
use chihuo.Safety.Inputs.{CreateIncidentInput, TransitionInput, IncidentTransitionInput}
use chihuo.Safety.Errors.{
  Error, not_found, conflict, invalid_state, invalid_transition, field_error, refuse, check_context,
}
use chihuo.Safety.Validation.{blank, is_zero}
use chihuo.Safety.Validation.Resources.{
  is_inactive, lacks_report_time, no_elements, validate_incident,
}
use chihuo.Safety.Memory.{
  MemoryService, Env, Answer, answer, fail, unless_error, if_found, guarded, append_unique,
  append_status_change, unique_strings, validate_evidence_refs,
}

-- s.incidents[id] = incident
unfoldable pub put_incident :
    String → FoodSafetyIncident → MemoryService → Answer FoodSafetyIncident
unfolding insert
put_incident id incident s =
    answer incident (record s { incidents = insert id incident s.incidents })

-- The incident that CreateIncident builds.
unfoldable pub reported_incident : Env → CreateIncidentInput → FoodSafetyIncident
unfolding trim_space is_zero unique_strings
reported_incident env input =
    let now = env.clock 0 in
    record {
      id = env.new_id 0;
      merchant_id = trim_space input.merchant_id;
      reported_by = trim_space input.reported_by;
      category = trim_space input.category;
      severity = input.severity;
      title = trim_space input.title;
      description = trim_space input.description;
      batch_ids = unique_strings input.batch_ids;
      order_ids = unique_strings input.order_ids;
      status = IncidentStatus.reported;
      containment_action = "";
      investigation_summary = "";
      resolution_summary = "";
      regulatory_report = input.regulatory_report;
      recall_ids = [];
      disposition_ids = [];
      evidence_ids = [];
      status_history = [];
      reported_at = if is_zero input.reported_at then now else input.reported_at;
      contained_at = none;
      resolved_at = none;
      closed_at = none;
      created_at = now;
      updated_at = now;
    }

-- validateIncidentBatchesLocked
unfoldable pub validate_incident_batches : Dict FoodBatch → String → List String → Option Error
unfolding lookup
validate_incident_batches batches merchant_id [] = none
validate_incident_batches batches merchant_id (id ∷ ids) = elim (lookup id batches) [
  | none ↦ some not_found
  | some batch ↦
      if str_eq batch.merchant_id merchant_id
      then validate_incident_batches batches merchant_id ids
      else some conflict
]

-- CreateIncident
unfoldable pub create_incident :
    Env → CreateIncidentInput → MemoryService → Answer FoodSafetyIncident
unfolding unless_error check_context refuse reported_incident validate_incident
    validate_incident_batches put_incident
create_incident env input s =
    let incident = reported_incident env input in
    unless_error
      (then_check (check_context env.context) (
        then_check (refuse (not (no_elements input.evidence_ids)) conflict) (
          then_check (validate_incident incident)
            (validate_incident_batches s.batches incident.merchant_id incident.batch_ids))))
      s (put_incident incident.id incident s)

-- GetIncident
unfoldable pub get_incident : Env → String → MemoryService → Answer FoodSafetyIncident
unfolding check_context unless_error if_found lookup
get_incident env id s =
    unless_error (check_context env.context) s
      (if_found (lookup id s.incidents) s (λ incident. answer incident s))

-- recall.Status != RecallCompleted && recall.Status != RecallCancelled
unfoldable pub is_active_recall : RecallStatus → Bool
is_active_recall RecallStatus.completed = false
is_active_recall RecallStatus.cancelled = false
is_active_recall _ = true

-- hasActiveRecallLocked
unfoldable pub has_active_recall : Dict Recall → List String → Bool
unfolding lookup is_active_recall
has_active_recall recalls [] = false
has_active_recall recalls (id ∷ ids) =
    elim (lookup id recalls) [ none ↦ false | some recall ↦ is_active_recall recall.status ]
    || has_active_recall recalls ids

-- canQuarantineBatchLocked
unfoldable pub can_quarantine_batch : Dict FoodBatch → String → Option Error
unfolding lookup is_inactive can_transition_batch refuse
can_quarantine_batch batches id = elim (lookup id batches) [
  | none ↦ some not_found
  | some batch ↦
      if is_inactive batch.status
      then none
      else refuse (not (can_transition_batch batch.status FoodBatchStatus.quarantined))
          invalid_transition
]

-- The batch after quarantineBatchLocked, when it is not inactive.
unfoldable pub quarantined : String → String → Time → FoodBatch → FoodBatch
unfolding append_status_change
quarantined actor_id reason now batch = record batch {
  status_history =
      append_status_change batch.status_history batch.status FoodBatchStatus.quarantined actor_id
        reason now;
  status = FoodBatchStatus.quarantined;
  updated_at = now;
}

-- quarantineBatchLocked: its error and the batches after it
unfoldable pub quarantine_batch :
    String → String → Time → String → Dict FoodBatch → Option Error × Dict FoodBatch
unfolding lookup insert is_inactive can_quarantine_batch quarantined
quarantine_batch actor_id reason now id batches = elim (lookup id batches) [
  | none ↦ (some not_found, batches)
  | some batch ↦ elim (can_quarantine_batch batches id) [
    | some e ↦ (some e, batches)
    | none ↦
        if is_inactive batch.status
        then (none, batches)
        else (none, insert id (quarantined actor_id reason now batch) batches)
  ]
]

-- The loop of TransitionIncident that checks the batches, and the one that quarantines them.
unfoldable pub can_quarantine_all : Dict FoodBatch → List String → Option Error
unfolding can_quarantine_batch
can_quarantine_all batches [] = none
can_quarantine_all batches (id ∷ ids) =
    then_check (can_quarantine_batch batches id) (can_quarantine_all batches ids)

unfoldable pub quarantine_all :
    String → String → Time → List String → Dict FoodBatch → Option Error × Dict FoodBatch
unfolding quarantine_batch
quarantine_all actor_id reason now [] batches = (none, batches)
quarantine_all actor_id reason now (id ∷ ids) batches =
    let first = quarantine_batch actor_id reason now id batches in
    elim first.0 [
      | some e ↦ (some e, first.1)
      | none ↦ quarantine_all actor_id reason now ids first.1
    ]

-- The checks of TransitionIncident for a target beyond the transition itself, and of the batches.
unfoldable pub incident_target_refusal :
    IncidentStatus → IncidentTransitionInput → MemoryService → FoodSafetyIncident → Option Error
unfolding refuse blank has_active_recall
incident_target_refusal IncidentStatus.contained input s incident =
    refuse (blank input.containment_action)
      (field_error "containment_action" "is required when containing an incident")
incident_target_refusal IncidentStatus.resolved input s incident =
    refuse (blank input.resolution_summary)
      (field_error "resolution_summary" "is required when resolving an incident")
incident_target_refusal IncidentStatus.closed input s incident =
    refuse (has_active_recall s.recalls incident.recall_ids) invalid_state
incident_target_refusal _ input s incident = none

unfoldable pub containment_refusal :
    IncidentStatus → MemoryService → FoodSafetyIncident → Option Error
unfolding can_quarantine_all
containment_refusal IncidentStatus.contained s incident =
    can_quarantine_all s.batches incident.batch_ids
containment_refusal _ s incident = none

unfoldable pub report_refusal : Option RegulatoryReport → Option Error
unfolding refuse lacks_report_time
report_refusal none = none
report_refusal (some sent) =
    refuse (lacks_report_time sent)
      (field_error "regulatory_report.reported_at" "is required when reported is true")

-- The checks of TransitionIncident on the incident found.
unfoldable pub incident_refusal :
    String
    → IncidentStatus
    → IncidentTransitionInput
    → MemoryService
    → FoodSafetyIncident
    → Option Error
unfolding refuse can_transition_incident incident_target_refusal validate_evidence_refs
    containment_refusal report_refusal
incident_refusal id target input s incident =
    then_check (refuse (not (can_transition_incident incident.status target)) invalid_transition) (
      then_check (incident_target_refusal target input s incident) (
        then_check
          (validate_evidence_refs s EvidenceSubjectType.incident id input.transition.evidence_ids)
          (then_check (containment_refusal target s incident)
            (report_refusal input.regulatory_report))))

-- What TransitionIncident writes into the incident for a target, besides its status and history.
unfoldable pub targeted :
    Time → IncidentStatus → IncidentTransitionInput → FoodSafetyIncident → FoodSafetyIncident
unfolding trim_space
targeted now IncidentStatus.contained input incident = record incident {
  containment_action = trim_space input.containment_action;
  contained_at = some now;
}
targeted now IncidentStatus.investigating input incident = record incident {
  investigation_summary = trim_space input.investigation_summary;
}
targeted now IncidentStatus.resolved input incident = record incident {
  resolution_summary = trim_space input.resolution_summary;
  resolved_at = some now;
}
targeted now IncidentStatus.closed input incident = record incident { closed_at = some now }
targeted now _ input incident = incident

-- The incident after TransitionIncident.
unfoldable pub moved_incident :
    Env → IncidentStatus → IncidentTransitionInput → FoodSafetyIncident → FoodSafetyIncident
unfolding targeted append_unique append_status_change
moved_incident env target input incident =
    let now = env.clock 0 in
    let change = input.transition in
    let next = targeted now target input incident in
    record next {
      regulatory_report = elim input.regulatory_report [
        | none ↦ next.regulatory_report
        | some sent ↦ sent
      ];
      status = target;
      evidence_ids = append_unique incident.evidence_ids change.evidence_ids;
      updated_at = now;
      status_history =
          append_status_change incident.status_history incident.status target change.actor_id
            change.reason now;
    }

-- The batches after TransitionIncident, with the error of quarantineBatchLocked.
unfoldable pub contain :
    Env
    → IncidentStatus
    → IncidentTransitionInput
    → List String
    → Dict FoodBatch
    → Option Error × Dict FoodBatch
unfolding quarantine_all trim_space
contain env IncidentStatus.contained input ids batches =
    quarantine_all input.transition.actor_id (trim_space input.containment_action) (env.clock 0) ids
      batches
contain env _ input ids batches = (none, batches)

-- TransitionIncident
unfoldable pub transition_incident :
    Env
    → String
    → IncidentStatus
    → IncidentTransitionInput
    → MemoryService
    → Answer FoodSafetyIncident
unfolding guarded check_context refuse blank valid_incident lookup incident_refusal contain
    unless_error moved_incident put_incident
transition_incident env id target input s =
    guarded
      (then_check (check_context env.context) (
        then_check (refuse (blank input.transition.actor_id) (field_error "actor_id" "is required"))
          (refuse (not (valid_incident target)) (field_error "status" "is invalid"))))
      (lookup id s.incidents) (incident_refusal id target input s) s
      (λ incident.
        let after = contain env target input incident.batch_ids s.batches in
        let changed = record s { batches = after.1 } in
        unless_error after.0 changed
          (put_incident id (moved_incident env target input incident) changed))
