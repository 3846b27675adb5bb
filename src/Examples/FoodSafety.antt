-- ===== src/Examples/FoodSafety.antt =====
-- A run of the food-safety service: a merchant qualifies, produces a batch, and an incident leads to
-- its containment and recall.
mod Runs
use chihuo.Base.{
  ℕ, ◌+◌, String, Bool, true, false, Option, some, none, List, [], ◌∷◌, ◌≡◌, refl, inl, inr,
}
use chihuo.Base.Dict.{Dict, get_or, insert, lookup, values}
use chihuo.Base.Int.{pos, wrap64, ◌*ℤ◌, ◌+ℤ◌}
use chihuo.Domain.{Time}
use chihuo.Safety.Status.{
  QualificationStatus, FoodBatchStatus, IncidentStatus, RecallStatus, DispositionStatus,
}
use chihuo.Safety.Kinds.{
  QualificationDocumentKind, SiteInspectionResult, IncidentSeverity, RecallScope, DispositionType,
  EvidenceSubjectType, EvidenceKind,
}
use chihuo.Safety.Model.{
  QualificationDocument, MerchantQualification, ProductSpec, FoodBatch, FoodSafetyIncident, Recall,
  EvidenceSubject,
}
use chihuo.Safety.Zero.{zero_batch, zero_incident, zero_recall, zero_qualification}
use chihuo.Safety.Inputs.{
  CreateQualificationInput, SubmitQualificationInput, ReviewQualificationInput, SiteInspectionInput,
  CreateBatchInput, RecordProductionInput, TransitionInput, AssociateOrdersInput,
  CreateIncidentInput, IncidentTransitionInput, CreateRecallInput, RecallTransitionInput,
  CreateDispositionInput, AddEvidenceInput,
}
use chihuo.Safety.Errors.{Error, Context}
use chihuo.Safety.Platform.{Platform}
use chihuo.Safety.Memory.{MemoryService, Env, new_memory_service}
use chihuo.Safety.Memory.Qualifications.{
  create_qualification, submit_qualification, record_site_inspection, review_qualification,
}
use chihuo.Safety.Memory.Batches.{
  create_batch, record_batch_production, associate_orders, transition_batch,
}
use chihuo.Safety.Memory.Incidents.{create_incident, transition_incident}
use chihuo.Safety.Memory.Recalls.{create_recall, transition_recall}
use chihuo.Safety.Memory.Chains.{add_evidence}
use chihuo.Safety.Memory.Calls.{Call, run}
use chihuo.Safety.Memory.Lifecycle.Calls.{IsFresh}
use chihuo.Safety.Memory.History.{Reachable}

abbrev pub some_digest : String
some_digest = "0123456789abcdef0123456789abcdef0123456789abcdef0123456789abcdef"

abbrev pub sample_platform : Platform
sample_platform = record {
  to_lower = λ text. text;
  scheme = λ uri. some "https";
  format = λ t. "1970";
  digest = λ payload. some_digest;
  visit = λ m. m;
}

-- A call at a time, which draws an id.
abbrev pub env_of : String → Time → Env
env_of id now = record { context = Context.live; clock = λ i. now + i; new_id = λ i. id }

abbrev change : TransitionInput
change = record { actor_id = "op"; reason = "because"; evidence_ids = [] }

abbrev document : QualificationDocumentKind → QualificationDocument
document kind = record {
  id = "doc";
  kind = kind;
  uri = "https://files/doc";
  sha256 = some_digest;
  issued_at = 1;
  expires_at = none;
  uploaded_by = "m";
  uploaded_at = 1;
}

abbrev pub calls_qualification : Call
calls_qualification = Call.creates_qualification (env_of "q1" 1000) (record {
  merchant_id = "m1";
  created_by = "m1";
  legal_entity_name = "Kitchen";
  store_name = "Kitchen";
  business_license_number = "L1";
  food_permit_number = "P1";
  registered_address = "Street 1";
  operating_address = "Street 1";
  business_license_issued_at = 1;
  business_license_expires_at = 1000000;
  food_permit_issued_at = 1;
  food_permit_expires_at = 1000000;
  business_scope = [];
  documents =
      document QualificationDocumentKind.business_license
      ∷ document QualificationDocumentKind.food_permit
      ∷ [];
})

abbrev calls_submission : Call
calls_submission =
    Call.submits_qualification (env_of "" 1100) "q1" (record { actor_id = "m1"; evidence_ids = [] })

abbrev calls_inspection : Call
calls_inspection = Call.records_inspection (env_of "i1" 1200) "q1" (record {
  inspector_id = "in1";
  result = SiteInspectionResult.passed;
  notes = "";
  evidence_ids = [];
  inspected_at = 0;
})

abbrev calls_review : Call
calls_review = Call.reviews_qualification (env_of "r1" 1300) "q1" (record {
  reviewer_id = "rev";
  status = QualificationStatus.approved;
  reason = "";
  evidence_ids = [];
})

abbrev pub batch_input : CreateBatchInput
batch_input = record {
  merchant_id = "m1";
  created_by = "m1";
  product_id = "p1";
  campaign_id = "";
  production_date = 1400;
  shelf_life_minutes = pos 600;
  storage_condition = "cold";
  quantity_planned = pos 20;
  unit_weight_grams = pos 500;
  specification = record {
    weight_grams = pos 500;
    ingredients = "rice" ∷ [];
    allergens = [];
    oil_level = "";
    salt_level = "";
    storage_instructions = "";
  };
  ingredient_lots = [];
}

abbrev calls_batch : List MerchantQualification → Call
calls_batch visited = Call.creates_batch (env_of "b1" 1400) visited batch_input

abbrev pub moves_batch : FoodBatchStatus → Call
moves_batch target = Call.transitions_batch (env_of "" 1500) "b1" target change

abbrev calls_production : Call
calls_production = Call.records_production (env_of "" 1600) "b1" (record {
  actor_id = "m1";
  quantity = pos 18;
  produced_at = 1600;
  expires_at = 0;
  shelf_life_minutes = pos 0;
})

abbrev calls_orders : Call
calls_orders =
    Call.associates_orders (env_of "" 1650) "b1"
      (record { actor_id = "m1"; orders = record { order_id = "o1"; quantity = pos 5 } ∷ [] })

abbrev calls_incident : Call
calls_incident = Call.creates_incident (env_of "f1" 1700) (record {
  merchant_id = "m1";
  reported_by = "u1";
  category = "illness";
  severity = IncidentSeverity.high;
  title = "Complaint";
  description = "Several guests";
  batch_ids = "b1" ∷ [];
  order_ids = [];
  regulatory_report = record {
    reported = false;
    authority = "";
    reference = "";
    reported_at = none;
    notes = "";
  };
  evidence_ids = [];
  reported_at = 0;
})

abbrev moves_incident : IncidentStatus → Call
moves_incident target = Call.transitions_incident (env_of "" 1800) "f1" target (record {
  transition = change;
  containment_action = "stop";
  investigation_summary = "";
  resolution_summary = "done";
  regulatory_report = none;
})

abbrev calls_recall : Call
calls_recall = Call.creates_recall (env_of "c1" 1900) (record {
  incident_id = "f1";
  merchant_id = "";
  scope = RecallScope.batch;
  reason = "contaminated";
  batch_ids = "b1" ∷ [];
  order_ids = [];
  affected_quantity = pos 18;
  evidence_ids = [];
})

abbrev moves_recall : RecallStatus → Call
moves_recall target = Call.transitions_recall (env_of "" 2000) "c1" target (record {
  transition = change;
  recovered_quantity = pos 18;
  disposed_quantity = pos 0;
  notified_at = none;
})

abbrev pub incident_subject : EvidenceSubject
incident_subject = record { kind_of = EvidenceSubjectType.incident; id = "f1" }

abbrev calls_evidence : String → Call
calls_evidence id = Call.adds_evidence (env_of id 2100) incident_subject (record {
  kind = EvidenceKind.photo;
  uri = "https://files/photo";
  sha256 = some_digest;
  mime_type = "";
  captured_by = "u1";
  captured_at = 0;
  description = "";
  metadata = [];
})

-- The service after each call, with the proof that calls lead to it.
abbrev pub Reached : Type 0
Reached = (s : MemoryService) × Reachable sample_platform s

abbrev then_call : (c : Call) (r : Reached) → IsFresh c r.0 → Reached
then_call c r fresh = ((run sample_platform c r.0).1, Reachable.next c r.1 fresh)

abbrev pub qualified : Reached
qualified =
    then_call calls_review
      (then_call calls_inspection
        (then_call calls_submission
          (then_call calls_qualification (new_memory_service, Reachable.start) tt) tt)
        tt)
      tt

pub b1_is_fresh : lookup "b1" qualified.0.batches ≡ none
unfolding run get_or lookup insert new_memory_service create_qualification submit_qualification
    record_site_inspection review_qualification create_batch record_batch_production
    associate_orders transition_batch create_incident transition_incident create_recall
    transition_recall add_evidence values wrap64 ◌*ℤ◌ ◌+ℤ◌
b1_is_fresh = refl

-- The batch is scheduled, produced, sold and packed.
abbrev pub packed : Reached
packed =
    then_call (moves_batch FoodBatchStatus.packed)
      (then_call calls_orders
        (then_call calls_production
          (then_call (moves_batch FoodBatchStatus.producing)
            (then_call (moves_batch FoodBatchStatus.scheduled)
              (then_call (calls_batch (values qualified.0.qualifications)) qualified b1_is_fresh)
              tt)
            tt)
          tt)
        tt)
      tt

-- The batch is delivered.
abbrev pub delivered : Reached
delivered =
    then_call (moves_batch FoodBatchStatus.completed)
      (then_call (moves_batch FoodBatchStatus.in_delivery)
        (then_call (moves_batch FoodBatchStatus.ready_for_handoff) packed tt) tt)
      tt

-- An incident with the batch is contained and confirmed, and a recall of it initiated.
abbrev pub recalled : Reached
recalled =
    then_call (moves_recall RecallStatus.initiated)
      (then_call calls_recall
        (then_call (moves_incident IncidentStatus.confirmed)
          (then_call (moves_incident IncidentStatus.investigating)
            (then_call (moves_incident IncidentStatus.contained)
              (then_call calls_incident packed tt) tt)
            tt)
          tt)
        tt)
      tt

pub e1_is_fresh : lookup "e1" recalled.0.evidence ≡ none
unfolding run get_or lookup insert new_memory_service create_qualification submit_qualification
    record_site_inspection review_qualification create_batch record_batch_production
    associate_orders transition_batch create_incident transition_incident create_recall
    transition_recall add_evidence values wrap64 ◌*ℤ◌ ◌+ℤ◌
e1_is_fresh = refl

abbrev pub photographed : Reached
photographed = then_call (calls_evidence "e1") recalled e1_is_fresh
