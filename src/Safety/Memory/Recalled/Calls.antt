-- ===== src/Safety/Memory/Recalled/Calls.antt =====
-- Recalls over every call.
use chihuo.Base.{String, Option, some, none, List, Result, ok, err}
use chihuo.Base.Dict.{Each}
use chihuo.Safety.Status.{FoodBatchStatus, IncidentStatus}
use chihuo.Safety.Inputs.{
  CreateQualificationInput, SubmitQualificationInput, ReviewQualificationInput, SiteInspectionInput,
  CreateBatchInput, RecordProductionInput, TransitionInput, AssociateOrdersInput,
  CreateIncidentInput, IncidentTransitionInput,
}
use chihuo.Safety.Platform.{Platform}
use chihuo.Safety.Model.{MerchantQualification, OrderAssociation, FoodBatch}
use chihuo.Safety.Errors.{Error}
use chihuo.Safety.Memory.{MemoryService, Env, Answer, answer, unless_error}
use chihuo.Safety.Memory.Qualifications.{
  put_qualification, create_qualification, submit_qualification, review_qualification,
  record_site_inspection,
}
use chihuo.Safety.Memory.Batches.{
  put_batch, link_orders, create_batch, record_batch_production, associate_orders, transition_batch,
}
use chihuo.Safety.Memory.Incidents.{put_incident, create_incident, transition_incident}
use chihuo.Safety.Memory.Recalls.{create_recall, transition_recall}
use chihuo.Safety.Memory.Dispositions.{create_disposition, transition_disposition}
use chihuo.Safety.Memory.Chains.{add_evidence}
use chihuo.Safety.Memory.Calls.{Call, outcome, run}
use chihuo.Safety.Memory.Cases.{
  create_qualification_cases, submit_qualification_cases, review_qualification_cases,
  record_site_inspection_cases, create_batch_cases, record_batch_production_cases,
  associate_orders_cases, transition_batch_cases, create_incident_cases, transition_incident_cases,
}
use chihuo.Safety.Memory.Lifecycle.Calls.{IsFresh, run-BatchesLive}
use chihuo.Safety.Memory.Recalled.{
  IsHonoured, IsHonoured-later, StillHonours, add_evidence-StillHonours,
  create_disposition-StillHonours, create_recall-StillHonours, transition_disposition-StillHonours,
  transition_recall-StillHonours,
}

module _ (env : Env) (s : MemoryService) where
  link_orders-StillHonours :
      (env : Env) (id : String) (b : FoodBatch) (s : MemoryService)
      (r : Result Error (List OrderAssociation))
      → StillHonours s (link_orders env id b s r).1
  unfolding link_orders put_batch
  link_orders-StillHonours env id b s (ok added) before = before
  link_orders-StillHonours env id b s (err e) before = before

  unless_error-StillHonours :
      {A : Type 0} (o : Option Error) (s s' s'' : MemoryService) (a : A)
      → StillHonours s s'
      → StillHonours s s''
      → StillHonours s (unless_error o s' (answer a s'')).1
  unfolding unless_error
  unless_error-StillHonours none s s' s'' a h h' before = h' before
  unless_error-StillHonours (some e) s s' s'' a h h' before = h before

  create_qualification-StillHonours :
      (platform : Platform) (input : CreateQualificationInput)
      → StillHonours s (create_qualification platform env input s).1
  unfolding put_qualification
  create_qualification-StillHonours platform input =
      create_qualification_cases (λ r. StillHonours s r.1) platform env input s (λ _ before. before)
        (λ before. before)

  submit_qualification-StillHonours :
      (platform : Platform) (id : String) (input : SubmitQualificationInput)
      → StillHonours s (submit_qualification platform env id input s).1
  unfolding put_qualification
  submit_qualification-StillHonours platform id input =
      submit_qualification_cases (λ r. StillHonours s r.1) platform env id input s
        (λ _ before. before) (λ _ _ before. before)

  review_qualification-StillHonours :
      (id : String) (input : ReviewQualificationInput)
      → StillHonours s (review_qualification env id input s).1
  unfolding put_qualification
  review_qualification-StillHonours id input =
      review_qualification_cases (λ r. StillHonours s r.1) env id input s (λ _ before. before)
        (λ _ _ _ before. before)

  record_site_inspection-StillHonours :
      (id : String) (input : SiteInspectionInput)
      → StillHonours s (record_site_inspection env id input s).1
  unfolding put_qualification
  record_site_inspection-StillHonours id input =
      record_site_inspection_cases (λ r. StillHonours s r.1) env id input s (λ _ before. before)
        (λ _ _ _ before. before)

  create_batch-StillHonours :
      (platform : Platform) (visited : List MerchantQualification) (input : CreateBatchInput)
      → StillHonours s (create_batch platform env visited input s).1
  unfolding put_batch
  create_batch-StillHonours platform visited input =
      create_batch_cases (λ r. StillHonours s r.1) platform env visited input s (λ _ before. before)
        (λ _ before. before)

  record_batch_production-StillHonours :
      (id : String) (input : RecordProductionInput)
      → StillHonours s (record_batch_production env id input s).1
  unfolding put_batch
  record_batch_production-StillHonours id input =
      record_batch_production_cases (λ r. StillHonours s r.1) env id input s (λ _ before. before)
        (λ _ _ _ _ before. before)

  associate_orders-StillHonours :
      (id : String) (input : AssociateOrdersInput)
      → StillHonours s (associate_orders env id input s).1
  associate_orders-StillHonours id input =
      associate_orders_cases (λ r. StillHonours s r.1) env id input s (λ _ before. before)
        (λ b _ _. link_orders-StillHonours env id b s _)

  transition_batch-StillHonours :
      (id : String) (target : FoodBatchStatus) (input : TransitionInput)
      → StillHonours s (transition_batch env id target input s).1
  unfolding put_batch
  transition_batch-StillHonours id target input =
      transition_batch_cases (λ r. StillHonours s r.1) env id target input s (λ _ before. before)
        (λ _ _ _ before. before)

  create_incident-StillHonours :
      (input : CreateIncidentInput) → StillHonours s (create_incident env input s).1
  unfolding put_incident
  create_incident-StillHonours input =
      create_incident_cases (λ r. StillHonours s r.1) env input s (λ _ before. before)
        (λ before. before)

  transition_incident-StillHonours :
      (id : String) (target : IncidentStatus) (input : IncidentTransitionInput)
      → StillHonours s (transition_incident env id target input s).1
  unfolding put_incident
  transition_incident-StillHonours id target input =
      transition_incident_cases (λ r. StillHonours s r.1) env id target input s (λ _ before. before)
        (λ _ _ _. unless_error-StillHonours _ s _ _ _ (λ before. before) (λ before. before))

outcome-StillHonours :
    {A : Type 0} (s : MemoryService) (r : Answer A)
    → StillHonours s r.1
    → StillHonours s (outcome r).1
outcome-StillHonours s (ok a, s') h before = h before
outcome-StillHonours s (err e, s') h before = h before

run-StillHonours :
    (platform : Platform) (c : Call) (s : MemoryService) → StillHonours s (run platform c s).1
unfolding run
run-StillHonours platform (Call.creates_qualification env input) s =
    outcome-StillHonours s (create_qualification platform env input s)
      (create_qualification-StillHonours env s platform input)
run-StillHonours platform (Call.submits_qualification env id input) s =
    outcome-StillHonours s (submit_qualification platform env id input s)
      (submit_qualification-StillHonours env s platform id input)
run-StillHonours platform (Call.reviews_qualification env id input) s =
    outcome-StillHonours s (review_qualification env id input s)
      (review_qualification-StillHonours env s id input)
run-StillHonours platform (Call.records_inspection env id input) s =
    outcome-StillHonours s (record_site_inspection env id input s)
      (record_site_inspection-StillHonours env s id input)
run-StillHonours platform (Call.creates_batch env visited input) s =
    outcome-StillHonours s (create_batch platform env visited input s)
      (create_batch-StillHonours env s platform visited input)
run-StillHonours platform (Call.records_production env id input) s =
    outcome-StillHonours s (record_batch_production env id input s)
      (record_batch_production-StillHonours env s id input)
run-StillHonours platform (Call.associates_orders env id input) s =
    outcome-StillHonours s (associate_orders env id input s)
      (associate_orders-StillHonours env s id input)
run-StillHonours platform (Call.transitions_batch env id target input) s =
    outcome-StillHonours s (transition_batch env id target input s)
      (transition_batch-StillHonours env s id target input)
run-StillHonours platform (Call.creates_incident env input) s =
    outcome-StillHonours s (create_incident env input s) (create_incident-StillHonours env s input)
run-StillHonours platform (Call.transitions_incident env id target input) s =
    outcome-StillHonours s (transition_incident env id target input s)
      (transition_incident-StillHonours env s id target input)
run-StillHonours platform (Call.creates_recall env input) s =
    outcome-StillHonours s (create_recall env input s) (create_recall-StillHonours env input s)
run-StillHonours platform (Call.transitions_recall env id target input) s =
    outcome-StillHonours s (transition_recall env id target input s)
      (transition_recall-StillHonours env id target input s)
run-StillHonours platform (Call.creates_disposition env input) s =
    outcome-StillHonours s (create_disposition env input s)
      (create_disposition-StillHonours env input s)
run-StillHonours platform (Call.transitions_disposition env id target input) s =
    outcome-StillHonours s (transition_disposition env id target input s)
      (transition_disposition-StillHonours env id target input s)
run-StillHonours platform (Call.adds_evidence env subject input) s =
    outcome-StillHonours s (add_evidence platform env subject input s)
      (add_evidence-StillHonours platform env subject input s)

-- A call after which the batches live on keeps every recall honoured.
pub run-IsHonoured :
    (platform : Platform) (c : Call) (s : MemoryService)
    → IsFresh c s
    → Each (λ _. IsHonoured s.batches) s.recalls
    → Each (λ _. IsHonoured (run platform c s).1.batches) (run platform c s).1.recalls
run-IsHonoured platform c s fresh before = run-StillHonours platform c s (λ id recall found.
    IsHonoured-later recall (run-BatchesLive platform c s fresh) (before id recall found))
