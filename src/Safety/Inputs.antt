-- ===== src/Safety/Inputs.antt =====
-- backend-go/internal/safety/service.go: the inputs of the service's operations.
use chihuo.Base.{String, Option, List}
use chihuo.Base.Dict.{Dict}
use chihuo.Base.Int.{ℤ}
use chihuo.Domain.{Time}
use chihuo.Safety.Status.{QualificationStatus}
use chihuo.Safety.Kinds.{
  SiteInspectionResult, IncidentSeverity, RecallScope, DispositionType, EvidenceKind,
}
use chihuo.Safety.Model.{QualificationDocument, ProductSpec, IngredientLot, RegulatoryReport}

pub record CreateQualificationInput : Type 0 where
  pub merchant_id : String
  pub created_by : String
  pub legal_entity_name : String
  pub store_name : String
  pub business_license_number : String
  pub food_permit_number : String
  pub registered_address : String
  pub operating_address : String
  pub business_license_issued_at : Time
  pub business_license_expires_at : Time
  pub food_permit_issued_at : Time
  pub food_permit_expires_at : Time
  pub business_scope : List String
  pub documents : List QualificationDocument

pub record SubmitQualificationInput : Type 0 where
  pub actor_id : String
  pub evidence_ids : List String

pub record ReviewQualificationInput : Type 0 where
  pub reviewer_id : String
  pub status : QualificationStatus
  pub reason : String
  pub evidence_ids : List String

pub record SiteInspectionInput : Type 0 where
  pub inspector_id : String
  pub result : SiteInspectionResult
  pub notes : String
  pub evidence_ids : List String
  pub inspected_at : Time

pub record CreateBatchInput : Type 0 where
  pub merchant_id : String
  pub created_by : String
  pub product_id : String
  pub campaign_id : String
  pub production_date : Time
  pub shelf_life_minutes : ℤ
  pub storage_condition : String
  pub quantity_planned : ℤ
  pub unit_weight_grams : ℤ
  pub specification : ProductSpec
  pub ingredient_lots : List IngredientLot

pub record RecordProductionInput : Type 0 where
  pub actor_id : String
  pub quantity : ℤ
  pub produced_at : Time
  pub expires_at : Time
  pub shelf_life_minutes : ℤ

pub record TransitionInput : Type 0 where
  pub actor_id : String
  pub reason : String
  pub evidence_ids : List String

pub record OrderAssociationInput : Type 0 where
  pub order_id : String
  pub quantity : ℤ

pub record AssociateOrdersInput : Type 0 where
  pub actor_id : String
  pub orders : List OrderAssociationInput

pub record CreateIncidentInput : Type 0 where
  pub merchant_id : String
  pub reported_by : String
  pub category : String
  pub severity : IncidentSeverity
  pub title : String
  pub description : String
  pub batch_ids : List String
  pub order_ids : List String
  pub regulatory_report : RegulatoryReport
  pub evidence_ids : List String
  pub reported_at : Time

pub record IncidentTransitionInput : Type 0 where
  pub transition : TransitionInput
  pub containment_action : String
  pub investigation_summary : String
  pub resolution_summary : String
  pub regulatory_report : Option RegulatoryReport

pub record CreateRecallInput : Type 0 where
  pub incident_id : String
  pub merchant_id : String
  pub scope : RecallScope
  pub reason : String
  pub batch_ids : List String
  pub order_ids : List String
  pub affected_quantity : ℤ
  pub evidence_ids : List String

pub record RecallTransitionInput : Type 0 where
  pub transition : TransitionInput
  pub recovered_quantity : ℤ
  pub disposed_quantity : ℤ
  pub notified_at : Option Time

pub record CreateDispositionInput : Type 0 where
  pub incident_id : String
  pub recall_id : String
  pub batch_id : String
  pub order_id : String
  pub kind_of : DispositionType
  pub quantity : ℤ
  pub unit : String
  pub action_by : String
  pub notes : String
  pub evidence_ids : List String

pub record AddEvidenceInput : Type 0 where
  pub kind : EvidenceKind
  pub uri : String
  pub sha256 : String
  pub mime_type : String
  pub captured_by : String
  pub captured_at : Time
  pub description : String
  pub metadata : Dict String
