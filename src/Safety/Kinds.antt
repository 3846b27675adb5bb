-- ===== src/Safety/Kinds.antt =====
-- backend-go/internal/safety/model.go: the string types beside the statuses, with their `Valid`
-- methods; `other` is any string that is none of the constants.
use chihuo.Base.{String, Bool, true, false, str_eq, if◌then◌else◌}
use chihuo.Safety.Status.{
  QualificationStatus, FoodBatchStatus, IncidentStatus, RecallStatus, DispositionStatus,
}

pub data QualificationDocumentKind : Type 0 where
  business_license food_permit site_photo other_kind : QualificationDocumentKind
  other : String → QualificationDocumentKind

unfoldable pub valid_document_kind : QualificationDocumentKind → Bool
valid_document_kind (QualificationDocumentKind.other s) = false
valid_document_kind _ = true

pub data SiteInspectionResult : Type 0 where
  pending passed failed : SiteInspectionResult
  other : String → SiteInspectionResult

unfoldable pub valid_inspection_result : SiteInspectionResult → Bool
valid_inspection_result (SiteInspectionResult.other s) = false
valid_inspection_result _ = true

pub data IncidentSeverity : Type 0 where
  low medium high critical : IncidentSeverity
  other : String → IncidentSeverity

unfoldable pub valid_severity : IncidentSeverity → Bool
valid_severity (IncidentSeverity.other s) = false
valid_severity _ = true

pub data RecallScope : Type 0 where
  batch order market : RecallScope
  other : String → RecallScope

unfoldable pub valid_scope : RecallScope → Bool
valid_scope (RecallScope.other s) = false
valid_scope _ = true

pub data DispositionType : Type 0 where
  refund replacement destroy return_to_supplier release other_kind : DispositionType
  other : String → DispositionType

unfoldable pub valid_disposition_type : DispositionType → Bool
valid_disposition_type (DispositionType.other s) = false
valid_disposition_type _ = true

pub data EvidenceSubjectType : Type 0 where
  qualification batch incident recall disposition : EvidenceSubjectType
  other : String → EvidenceSubjectType

unfoldable pub valid_subject_type : EvidenceSubjectType → Bool
valid_subject_type (EvidenceSubjectType.other s) = false
valid_subject_type _ = true

-- The string of a subject type, and the subject type of a string.
unfoldable pub text_subject_type : EvidenceSubjectType → String
text_subject_type EvidenceSubjectType.qualification = "QUALIFICATION"
text_subject_type EvidenceSubjectType.batch = "BATCH"
text_subject_type EvidenceSubjectType.incident = "INCIDENT"
text_subject_type EvidenceSubjectType.recall = "RECALL"
text_subject_type EvidenceSubjectType.disposition = "DISPOSITION"
text_subject_type (EvidenceSubjectType.other s) = s

unfoldable pub parse_subject_type : String → EvidenceSubjectType
parse_subject_type s =
    if str_eq s "QUALIFICATION"
    then EvidenceSubjectType.qualification
    else if str_eq s "BATCH"
    then EvidenceSubjectType.batch
    else if str_eq s "INCIDENT"
    then EvidenceSubjectType.incident
    else if str_eq s "RECALL"
    then EvidenceSubjectType.recall
    else if str_eq s "DISPOSITION"
    then EvidenceSubjectType.disposition
    else EvidenceSubjectType.other s

pub data EvidenceKind : Type 0 where
  document photo video record_kind lab_report message other_kind : EvidenceKind
  other : String → EvidenceKind

unfoldable pub valid_evidence_kind : EvidenceKind → Bool
valid_evidence_kind (EvidenceKind.other s) = false
valid_evidence_kind _ = true

unfoldable pub valid_qualification : QualificationStatus → Bool
valid_qualification (QualificationStatus.other s) = false
valid_qualification _ = true

unfoldable pub text_qualification : QualificationStatus → String
text_qualification QualificationStatus.draft = "DRAFT"
text_qualification QualificationStatus.pending_review = "PENDING_REVIEW"
text_qualification QualificationStatus.approved = "APPROVED"
text_qualification QualificationStatus.rejected = "REJECTED"
text_qualification QualificationStatus.suspended = "SUSPENDED"
text_qualification QualificationStatus.expired = "EXPIRED"
text_qualification (QualificationStatus.other s) = s

unfoldable pub valid_batch : FoodBatchStatus → Bool
valid_batch (FoodBatchStatus.other s) = false
valid_batch _ = true

unfoldable pub text_batch : FoodBatchStatus → String
text_batch FoodBatchStatus.draft = "DRAFT"
text_batch FoodBatchStatus.scheduled = "SCHEDULED"
text_batch FoodBatchStatus.producing = "PRODUCING"
text_batch FoodBatchStatus.packed = "PACKED"
text_batch FoodBatchStatus.ready_for_handoff = "READY_FOR_HANDOFF"
text_batch FoodBatchStatus.in_delivery = "IN_DELIVERY"
text_batch FoodBatchStatus.completed = "COMPLETED"
text_batch FoodBatchStatus.quarantined = "QUARANTINED"
text_batch FoodBatchStatus.recalled = "RECALLED"
text_batch FoodBatchStatus.disposed = "DISPOSED"
text_batch FoodBatchStatus.cancelled = "CANCELLED"
text_batch (FoodBatchStatus.other s) = s

unfoldable pub valid_incident : IncidentStatus → Bool
valid_incident (IncidentStatus.other s) = false
valid_incident _ = true

unfoldable pub text_incident : IncidentStatus → String
text_incident IncidentStatus.reported = "REPORTED"
text_incident IncidentStatus.contained = "CONTAINED"
text_incident IncidentStatus.investigating = "INVESTIGATING"
text_incident IncidentStatus.confirmed = "CONFIRMED"
text_incident IncidentStatus.recalling = "RECALLING"
text_incident IncidentStatus.compensating = "COMPENSATING"
text_incident IncidentStatus.resolved = "RESOLVED"
text_incident IncidentStatus.closed = "CLOSED"
text_incident IncidentStatus.dismissed = "DISMISSED"
text_incident (IncidentStatus.other s) = s

unfoldable pub valid_recall : RecallStatus → Bool
valid_recall (RecallStatus.other s) = false
valid_recall _ = true

unfoldable pub text_recall : RecallStatus → String
text_recall RecallStatus.draft = "DRAFT"
text_recall RecallStatus.initiated = "INITIATED"
text_recall RecallStatus.in_progress = "IN_PROGRESS"
text_recall RecallStatus.completed = "COMPLETED"
text_recall RecallStatus.cancelled = "CANCELLED"
text_recall (RecallStatus.other s) = s

unfoldable pub valid_disposition : DispositionStatus → Bool
valid_disposition (DispositionStatus.other s) = false
valid_disposition _ = true
