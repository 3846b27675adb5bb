-- ===== src/Safety/Memory/Calls.antt =====
-- backend-go/internal/safety/memory.go: the calls that write, and what they leave behind.
use chihuo.Base.{String, Option, none, some, List, ok, err}
use chihuo.Safety.Status.{FoodBatchStatus, IncidentStatus, RecallStatus, DispositionStatus}
use chihuo.Safety.Model.{MerchantQualification, EvidenceSubject}
use chihuo.Safety.Inputs.{
  CreateQualificationInput, SubmitQualificationInput, ReviewQualificationInput, SiteInspectionInput,
  CreateBatchInput, RecordProductionInput, TransitionInput, AssociateOrdersInput,
  CreateIncidentInput, IncidentTransitionInput, CreateRecallInput, RecallTransitionInput,
  CreateDispositionInput, AddEvidenceInput,
}
use chihuo.Safety.Errors.{Error}
use chihuo.Safety.Platform.{Platform}
use chihuo.Safety.Memory.{MemoryService, Env, Answer}
use chihuo.Safety.Memory.Qualifications.{
  create_qualification, submit_qualification, review_qualification, record_site_inspection,
}
use chihuo.Safety.Memory.Batches.{
  create_batch, record_batch_production, associate_orders, transition_batch,
}
use chihuo.Safety.Memory.Incidents.{create_incident, transition_incident}
use chihuo.Safety.Memory.Recalls.{create_recall, transition_recall}
use chihuo.Safety.Memory.Dispositions.{create_disposition, transition_disposition}
use chihuo.Safety.Memory.Chains.{add_evidence}

pub data Call : Type 0 where
  creates_qualification : Env → CreateQualificationInput → Call
  submits_qualification : Env → String → SubmitQualificationInput → Call
  reviews_qualification : Env → String → ReviewQualificationInput → Call
  records_inspection : Env → String → SiteInspectionInput → Call
  creates_batch : Env → List MerchantQualification → CreateBatchInput → Call
  records_production : Env → String → RecordProductionInput → Call
  associates_orders : Env → String → AssociateOrdersInput → Call
  transitions_batch : Env → String → FoodBatchStatus → TransitionInput → Call
  creates_incident : Env → CreateIncidentInput → Call
  transitions_incident : Env → String → IncidentStatus → IncidentTransitionInput → Call
  creates_recall : Env → CreateRecallInput → Call
  transitions_recall : Env → String → RecallStatus → RecallTransitionInput → Call
  creates_disposition : Env → CreateDispositionInput → Call
  transitions_disposition : Env → String → DispositionStatus → TransitionInput → Call
  adds_evidence : Env → EvidenceSubject → AddEvidenceInput → Call

-- The error that an answer carries, if any, and the service that it leaves.
abbrev pub outcome : {A : Type 0} → Answer A → Option Error × MemoryService
outcome (ok a, s) = (none, s)
outcome (err e, s) = (some e, s)

module _ (platform : Platform) where
  -- A call of the service.
  unfoldable pub run : Call → MemoryService → Option Error × MemoryService
  run (Call.creates_qualification env input) s = outcome (create_qualification platform env input s)
  run (Call.submits_qualification env id input) s =
      outcome (submit_qualification platform env id input s)
  run (Call.reviews_qualification env id input) s = outcome (review_qualification env id input s)
  run (Call.records_inspection env id input) s = outcome (record_site_inspection env id input s)
  run (Call.creates_batch env visited input) s = outcome (create_batch platform env visited input s)
  run (Call.records_production env id input) s = outcome (record_batch_production env id input s)
  run (Call.associates_orders env id input) s = outcome (associate_orders env id input s)
  run (Call.transitions_batch env id target input) s =
      outcome (transition_batch env id target input s)
  run (Call.creates_incident env input) s = outcome (create_incident env input s)
  run (Call.transitions_incident env id target input) s =
      outcome (transition_incident env id target input s)
  run (Call.creates_recall env input) s = outcome (create_recall env input s)
  run (Call.transitions_recall env id target input) s =
      outcome (transition_recall env id target input s)
  run (Call.creates_disposition env input) s = outcome (create_disposition env input s)
  run (Call.transitions_disposition env id target input) s =
      outcome (transition_disposition env id target input s)
  run (Call.adds_evidence env subject input) s = outcome (add_evidence platform env subject input s)
