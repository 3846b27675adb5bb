-- ===== src/Safety/Transitions.antt =====
-- backend-go/internal/safety/state.go: which transitions of each status are allowed.
pub mod Histories
use chihuo.Base.{Bool, true, false}
use chihuo.Safety.Status.{
  QualificationStatus, FoodBatchStatus, IncidentStatus, RecallStatus, DispositionStatus,
}

-- CanTransitionQualification
unfoldable pub can_transition_qualification : QualificationStatus → QualificationStatus → Bool
can_transition_qualification QualificationStatus.draft QualificationStatus.pending_review = true
can_transition_qualification QualificationStatus.pending_review QualificationStatus.approved = true
can_transition_qualification QualificationStatus.pending_review QualificationStatus.rejected = true
can_transition_qualification QualificationStatus.rejected QualificationStatus.pending_review = true
can_transition_qualification QualificationStatus.suspended QualificationStatus.pending_review = true
can_transition_qualification QualificationStatus.expired QualificationStatus.pending_review = true
can_transition_qualification QualificationStatus.approved QualificationStatus.suspended = true
can_transition_qualification QualificationStatus.approved QualificationStatus.expired = true
can_transition_qualification _ _ = false

-- CanTransitionBatch
unfoldable pub can_transition_batch : FoodBatchStatus → FoodBatchStatus → Bool
can_transition_batch FoodBatchStatus.draft FoodBatchStatus.scheduled = true
can_transition_batch FoodBatchStatus.draft FoodBatchStatus.cancelled = true
can_transition_batch FoodBatchStatus.draft FoodBatchStatus.quarantined = true
can_transition_batch FoodBatchStatus.scheduled FoodBatchStatus.producing = true
can_transition_batch FoodBatchStatus.scheduled FoodBatchStatus.cancelled = true
can_transition_batch FoodBatchStatus.scheduled FoodBatchStatus.quarantined = true
can_transition_batch FoodBatchStatus.producing FoodBatchStatus.packed = true
can_transition_batch FoodBatchStatus.producing FoodBatchStatus.quarantined = true
can_transition_batch FoodBatchStatus.packed FoodBatchStatus.ready_for_handoff = true
can_transition_batch FoodBatchStatus.packed FoodBatchStatus.quarantined = true
can_transition_batch FoodBatchStatus.packed FoodBatchStatus.recalled = true
can_transition_batch FoodBatchStatus.ready_for_handoff FoodBatchStatus.in_delivery = true
can_transition_batch FoodBatchStatus.ready_for_handoff FoodBatchStatus.quarantined = true
can_transition_batch FoodBatchStatus.ready_for_handoff FoodBatchStatus.recalled = true
can_transition_batch FoodBatchStatus.in_delivery FoodBatchStatus.completed = true
can_transition_batch FoodBatchStatus.in_delivery FoodBatchStatus.quarantined = true
can_transition_batch FoodBatchStatus.in_delivery FoodBatchStatus.recalled = true
can_transition_batch FoodBatchStatus.completed FoodBatchStatus.quarantined = true
can_transition_batch FoodBatchStatus.completed FoodBatchStatus.recalled = true
can_transition_batch FoodBatchStatus.quarantined FoodBatchStatus.recalled = true
can_transition_batch FoodBatchStatus.quarantined FoodBatchStatus.disposed = true
can_transition_batch FoodBatchStatus.recalled FoodBatchStatus.disposed = true
can_transition_batch _ _ = false

-- CanTransitionIncident
unfoldable pub can_transition_incident : IncidentStatus → IncidentStatus → Bool
can_transition_incident IncidentStatus.reported IncidentStatus.contained = true
can_transition_incident IncidentStatus.reported IncidentStatus.investigating = true
can_transition_incident IncidentStatus.reported IncidentStatus.dismissed = true
can_transition_incident IncidentStatus.contained IncidentStatus.investigating = true
can_transition_incident IncidentStatus.contained IncidentStatus.recalling = true
can_transition_incident IncidentStatus.contained IncidentStatus.dismissed = true
can_transition_incident IncidentStatus.investigating IncidentStatus.contained = true
can_transition_incident IncidentStatus.investigating IncidentStatus.confirmed = true
can_transition_incident IncidentStatus.investigating IncidentStatus.dismissed = true
can_transition_incident IncidentStatus.confirmed IncidentStatus.recalling = true
can_transition_incident IncidentStatus.confirmed IncidentStatus.compensating = true
can_transition_incident IncidentStatus.confirmed IncidentStatus.resolved = true
can_transition_incident IncidentStatus.recalling IncidentStatus.compensating = true
can_transition_incident IncidentStatus.recalling IncidentStatus.resolved = true
can_transition_incident IncidentStatus.compensating IncidentStatus.resolved = true
can_transition_incident IncidentStatus.resolved IncidentStatus.closed = true
can_transition_incident IncidentStatus.dismissed IncidentStatus.closed = true
can_transition_incident _ _ = false

-- CanTransitionRecall
unfoldable pub can_transition_recall : RecallStatus → RecallStatus → Bool
can_transition_recall RecallStatus.draft RecallStatus.initiated = true
can_transition_recall RecallStatus.draft RecallStatus.cancelled = true
can_transition_recall RecallStatus.initiated RecallStatus.in_progress = true
can_transition_recall RecallStatus.in_progress RecallStatus.completed = true
can_transition_recall _ _ = false

-- CanTransitionDisposition
unfoldable pub can_transition_disposition : DispositionStatus → DispositionStatus → Bool
can_transition_disposition DispositionStatus.planned DispositionStatus.completed = true
can_transition_disposition DispositionStatus.planned DispositionStatus.failed = true
can_transition_disposition DispositionStatus.planned DispositionStatus.cancelled = true
can_transition_disposition _ _ = false
