-- ===== src/Safety/Model.antt =====
-- backend-go/internal/safety/model.go: the records of the food-safety package. A status change keeps
-- its two statuses as statuses, where the source keeps their strings. An `int` is an integer of 64
-- bits, and a nil slice is an empty one.
use chihuo.Base.{ℕ, String, Bool, Option, List}
use chihuo.Base.Dict.{Dict}
use chihuo.Base.Int.{ℤ}
use chihuo.Domain.{Time}
use chihuo.Safety.Status.{
  QualificationStatus, FoodBatchStatus, IncidentStatus, RecallStatus, DispositionStatus,
}
use chihuo.Safety.Kinds.{
  QualificationDocumentKind, SiteInspectionResult, IncidentSeverity, RecallScope, DispositionType,
  EvidenceSubjectType, EvidenceKind,
}

pub record StatusChange (S : Type 0) : Type 0 where
  pub from : S
  pub to : S
  pub actor_id : String
  pub reason : String
  pub at : Time

pub record QualificationDocument : Type 0 where
  pub id : String
  pub kind : QualificationDocumentKind
  pub uri : String
  pub sha256 : String
  pub issued_at : Time
  pub expires_at : Option Time
  pub uploaded_by : String
  pub uploaded_at : Time

pub record QualificationReview : Type 0 where
  pub id : String
  pub qualification_id : String
  pub reviewer_id : String
  pub from_status : QualificationStatus
  pub to_status : QualificationStatus
  pub reason : String
  pub evidence_ids : List String
  pub reviewed_at : Time

pub record SiteInspection : Type 0 where
  pub id : String
  pub qualification_id : String
  pub inspector_id : String
  pub result : SiteInspectionResult
  pub notes : String
  pub evidence_ids : List String
  pub inspected_at : Time

pub record MerchantQualification : Type 0 where
  pub id : String
  pub merchant_id : String
  pub legal_entity_name : String
  pub store_name : String
  pub business_license_number : String
  pub food_permit_number : String
  pub registered_address : String
  pub operating_address : String
  pub business_license_issued_at : Time
  pub business_license_expires_at : Time
  pub food_permit_issued_at : Time
  pub food_permit_expires_at : Time
  pub business_scope : List String
  pub documents : List QualificationDocument
  pub status : QualificationStatus
  pub site_inspection : Option SiteInspection
  pub review_history : List QualificationReview
  pub status_history : List (StatusChange QualificationStatus)
  pub evidence_ids : List String
  pub submitted_at : Option Time
  pub reviewed_at : Option Time
  pub created_at : Time
  pub updated_at : Time

pub record ProductSpec : Type 0 where
  pub weight_grams : ℤ
  pub ingredients : List String
  pub allergens : List String
  pub oil_level : String
  pub salt_level : String
  pub storage_instructions : String

pub record IngredientLot : Type 0 where
  pub ingredient : String
  pub supplier : String
  pub lot_number : String
  pub received_at : Time
  pub expires_at : Time
  pub quantity_grams : ℤ

pub record OrderAssociation : Type 0 where
  pub order_id : String
  pub quantity : ℤ
  pub linked_by : String
  pub linked_at : Time

pub record FoodBatch : Type 0 where
  pub id : String
  pub merchant_id : String
  pub product_id : String
  pub campaign_id : String
  pub production_date : Time
  pub produced_at : Option Time
  pub expires_at : Option Time
  pub shelf_life_minutes : ℤ
  pub storage_condition : String
  pub quantity_planned : ℤ
  pub quantity_produced : ℤ
  pub quantity_remaining : ℤ
  pub unit_weight_grams : ℤ
  pub specification : ProductSpec
  pub ingredient_lots : List IngredientLot
  pub orders : List OrderAssociation
  pub recall_ids : List String
  pub evidence_ids : List String
  pub status : FoodBatchStatus
  pub status_history : List (StatusChange FoodBatchStatus)
  pub created_by : String
  pub created_at : Time
  pub updated_at : Time

pub record RegulatoryReport : Type 0 where
  pub reported : Bool
  pub authority : String
  pub reference : String
  pub reported_at : Option Time
  pub notes : String

pub record FoodSafetyIncident : Type 0 where
  pub id : String
  pub merchant_id : String
  pub reported_by : String
  pub category : String
  pub severity : IncidentSeverity
  pub title : String
  pub description : String
  pub batch_ids : List String
  pub order_ids : List String
  pub status : IncidentStatus
  pub containment_action : String
  pub investigation_summary : String
  pub resolution_summary : String
  pub regulatory_report : RegulatoryReport
  pub recall_ids : List String
  pub disposition_ids : List String
  pub evidence_ids : List String
  pub status_history : List (StatusChange IncidentStatus)
  pub reported_at : Time
  pub contained_at : Option Time
  pub resolved_at : Option Time
  pub closed_at : Option Time
  pub created_at : Time
  pub updated_at : Time

pub record Recall : Type 0 where
  pub id : String
  pub incident_id : String
  pub merchant_id : String
  pub scope : RecallScope
  pub reason : String
  pub batch_ids : List String
  pub order_ids : List String
  pub affected_quantity : ℤ
  pub recovered_quantity : ℤ
  pub disposed_quantity : ℤ
  pub status : RecallStatus
  pub evidence_ids : List String
  pub disposition_ids : List String
  pub status_history : List (StatusChange RecallStatus)
  pub initiated_by : String
  pub notified_at : Option Time
  pub completed_at : Option Time
  pub created_at : Time
  pub updated_at : Time

pub record Disposition : Type 0 where
  pub id : String
  pub incident_id : String
  pub recall_id : String
  pub batch_id : String
  pub order_id : String
  pub kind_of : DispositionType
  pub quantity : ℤ
  pub unit : String
  pub status : DispositionStatus
  pub action_by : String
  pub notes : String
  pub evidence_ids : List String
  pub status_history : List (StatusChange DispositionStatus)
  pub completed_at : Option Time
  pub created_at : Time
  pub updated_at : Time

pub record EvidenceSubject : Type 0 where
  pub kind_of : EvidenceSubjectType
  pub id : String

pub record Evidence : Type 0 where
  pub id : String
  pub subject : EvidenceSubject
  pub sequence : ℕ
  pub previous_hash : String
  pub hash : String
  pub kind : EvidenceKind
  pub uri : String
  pub sha256 : String
  pub mime_type : String
  pub captured_by : String
  pub captured_at : Time
  pub description : String
  pub metadata : Dict String
  pub created_at : Time
