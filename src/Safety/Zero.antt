-- ===== src/Safety/Zero.antt =====
-- backend-go/internal/safety: the zero values of its structs, which indexing a map gives where the
-- key is missing.
use chihuo.Base.{none, [], false}
use chihuo.Base.Int.{pos}
use chihuo.Safety.Status.{
  QualificationStatus, FoodBatchStatus, IncidentStatus, RecallStatus, DispositionStatus,
}
use chihuo.Safety.Kinds.{
  IncidentSeverity, RecallScope, DispositionType, EvidenceSubjectType, EvidenceKind,
}
use chihuo.Safety.Model.{
  MerchantQualification, FoodBatch, FoodSafetyIncident, Recall, Disposition, Evidence,
}

unfoldable pub zero_batch : FoodBatch
zero_batch = record {
  id = "";
  merchant_id = "";
  product_id = "";
  campaign_id = "";
  production_date = 0;
  produced_at = none;
  expires_at = none;
  shelf_life_minutes = pos 0;
  storage_condition = "";
  quantity_planned = pos 0;
  quantity_produced = pos 0;
  quantity_remaining = pos 0;
  unit_weight_grams = pos 0;
  specification = record {
    weight_grams = pos 0;
    ingredients = [];
    allergens = [];
    oil_level = "";
    salt_level = "";
    storage_instructions = "";
  };
  ingredient_lots = [];
  orders = [];
  recall_ids = [];
  evidence_ids = [];
  status = FoodBatchStatus.other "";
  status_history = [];
  created_by = "";
  created_at = 0;
  updated_at = 0;
}

unfoldable pub zero_recall : Recall
zero_recall = record {
  id = "";
  incident_id = "";
  merchant_id = "";
  scope = RecallScope.other "";
  reason = "";
  batch_ids = [];
  order_ids = [];
  affected_quantity = pos 0;
  recovered_quantity = pos 0;
  disposed_quantity = pos 0;
  status = RecallStatus.other "";
  evidence_ids = [];
  disposition_ids = [];
  status_history = [];
  initiated_by = "";
  notified_at = none;
  completed_at = none;
  created_at = 0;
  updated_at = 0;
}

unfoldable pub zero_qualification : MerchantQualification
zero_qualification = record {
  id = "";
  merchant_id = "";
  legal_entity_name = "";
  store_name = "";
  business_license_number = "";
  food_permit_number = "";
  registered_address = "";
  operating_address = "";
  business_license_issued_at = 0;
  business_license_expires_at = 0;
  food_permit_issued_at = 0;
  food_permit_expires_at = 0;
  business_scope = [];
  documents = [];
  status = QualificationStatus.other "";
  site_inspection = none;
  review_history = [];
  status_history = [];
  evidence_ids = [];
  submitted_at = none;
  reviewed_at = none;
  created_at = 0;
  updated_at = 0;
}

unfoldable pub zero_incident : FoodSafetyIncident
zero_incident = record {
  id = "";
  merchant_id = "";
  reported_by = "";
  category = "";
  severity = IncidentSeverity.other "";
  title = "";
  description = "";
  batch_ids = [];
  order_ids = [];
  status = IncidentStatus.other "";
  containment_action = "";
  investigation_summary = "";
  resolution_summary = "";
  regulatory_report = record {
    reported = false;
    authority = "";
    reference = "";
    reported_at = none;
    notes = "";
  };
  recall_ids = [];
  disposition_ids = [];
  evidence_ids = [];
  status_history = [];
  reported_at = 0;
  contained_at = none;
  resolved_at = none;
  closed_at = none;
  created_at = 0;
  updated_at = 0;
}

unfoldable pub zero_disposition : Disposition
zero_disposition = record {
  id = "";
  incident_id = "";
  recall_id = "";
  batch_id = "";
  order_id = "";
  kind_of = DispositionType.other "";
  quantity = pos 0;
  unit = "";
  status = DispositionStatus.other "";
  action_by = "";
  notes = "";
  evidence_ids = [];
  status_history = [];
  completed_at = none;
  created_at = 0;
  updated_at = 0;
}

unfoldable pub zero_evidence : Evidence
zero_evidence = record {
  id = "";
  subject = record { kind_of = EvidenceSubjectType.other ""; id = "" };
  sequence = 0;
  previous_hash = "";
  hash = "";
  kind = EvidenceKind.other "";
  uri = "";
  sha256 = "";
  mime_type = "";
  captured_by = "";
  captured_at = 0;
  description = "";
  metadata = [];
  created_at = 0;
}
