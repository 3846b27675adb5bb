-- ===== src/Safety/Memory/Containment/Calls.antt =====
-- Containment over every call.
use chihuo.Base.{String, List, Result, ok, err}
use chihuo.Base.Dict.{Each}
use chihuo.Safety.Status.{FoodBatchStatus, DispositionStatus}
use chihuo.Safety.Inputs.{
  CreateQualificationInput, SubmitQualificationInput, ReviewQualificationInput, SiteInspectionInput,
  CreateBatchInput, RecordProductionInput, TransitionInput, AssociateOrdersInput,
}
use chihuo.Safety.Platform.{Platform}
use chihuo.Safety.Model.{MerchantQualification, OrderAssociation, FoodBatch}
use chihuo.Safety.Errors.{Error}
use chihuo.Safety.Memory.{MemoryService, Env, Answer}
use chihuo.Safety.Memory.Qualifications.{
  put_qualification, create_qualification, submit_qualification, review_qualification,
  record_site_inspection,
}
use chihuo.Safety.Memory.Batches.{
  put_batch, link_orders, create_batch, record_batch_production, associate_orders, transition_batch,
}
use chihuo.Safety.Memory.Dispositions.{settle_disposition, transition_disposition}
use chihuo.Safety.Memory.Calls.{Call, outcome, run}
use chihuo.Safety.Memory.Cases.{
  create_qualification_cases, submit_qualification_cases, review_qualification_cases,
  record_site_inspection_cases, create_batch_cases, record_batch_production_cases,
  associate_orders_cases, transition_batch_cases, transition_disposition_cases,
}
use chihuo.Safety.Memory.Lifecycle.Calls.{IsFresh, run-BatchesLive}
use chihuo.Safety.Memory.Containment.{
  IsContained, IsContained-later, KeepsContained, add_evidence-KeepsContained,
  create_disposition-KeepsContained, create_incident-KeepsContained, create_recall-KeepsContained,
  transition_incident-KeepsContained, transition_recall-KeepsContained,
}

module _ (env : Env) (s : MemoryService) where
  link_orders-KeepsContained :
      (env : Env) (id : String) (b : FoodBatch) (s : MemoryService)
      (r : Result Error (List OrderAssociation))
      → KeepsContained s (link_orders env id b s r)
  unfolding link_orders put_batch
  link_orders-KeepsContained env id b s (ok added) before = before
  link_orders-KeepsContained env id b s (err e) before = before

  create_qualification-KeepsContained :
      (platform : Platform) (input : CreateQualificationInput)
      → KeepsContained s (create_qualification platform env input s)
  unfolding put_qualification
  create_qualification-KeepsContained platform input =
      create_qualification_cases (KeepsContained s) platform env input s (λ _ before. before)
        (λ before. before)

  submit_qualification-KeepsContained :
      (platform : Platform) (id : String) (input : SubmitQualificationInput)
      → KeepsContained s (submit_qualification platform env id input s)
  unfolding put_qualification
  submit_qualification-KeepsContained platform id input =
      submit_qualification_cases (KeepsContained s) platform env id input s (λ _ before. before)
        (λ _ _ before. before)

  review_qualification-KeepsContained :
      (id : String) (input : ReviewQualificationInput)
      → KeepsContained s (review_qualification env id input s)
  unfolding put_qualification
  review_qualification-KeepsContained id input =
      review_qualification_cases (KeepsContained s) env id input s (λ _ before. before)
        (λ _ _ _ before. before)

  record_site_inspection-KeepsContained :
      (id : String) (input : SiteInspectionInput)
      → KeepsContained s (record_site_inspection env id input s)
  unfolding put_qualification
  record_site_inspection-KeepsContained id input =
      record_site_inspection_cases (KeepsContained s) env id input s (λ _ before. before)
        (λ _ _ _ before. before)

  create_batch-KeepsContained :
      (platform : Platform) (visited : List MerchantQualification) (input : CreateBatchInput)
      → KeepsContained s (create_batch platform env visited input s)
  unfolding put_batch
  create_batch-KeepsContained platform visited input =
      create_batch_cases (KeepsContained s) platform env visited input s (λ _ before. before)
        (λ _ before. before)

  record_batch_production-KeepsContained :
      (id : String) (input : RecordProductionInput)
      → KeepsContained s (record_batch_production env id input s)
  unfolding put_batch
  record_batch_production-KeepsContained id input =
      record_batch_production_cases (KeepsContained s) env id input s (λ _ before. before)
        (λ _ _ _ _ before. before)

  associate_orders-KeepsContained :
      (id : String) (input : AssociateOrdersInput)
      → KeepsContained s (associate_orders env id input s)
  associate_orders-KeepsContained id input =
      associate_orders_cases (KeepsContained s) env id input s (λ _ before. before)
        (λ b _ _. link_orders-KeepsContained env id b s _)

  transition_batch-KeepsContained :
      (id : String) (target : FoodBatchStatus) (input : TransitionInput)
      → KeepsContained s (transition_batch env id target input s)
  unfolding put_batch
  transition_batch-KeepsContained id target input =
      transition_batch_cases (KeepsContained s) env id target input s (λ _ before. before)
        (λ _ _ _ before. before)

  transition_disposition-KeepsContained :
      (id : String) (target : DispositionStatus) (input : TransitionInput)
      → KeepsContained s (transition_disposition env id target input s)
  unfolding settle_disposition
  transition_disposition-KeepsContained id target input =
      transition_disposition_cases (KeepsContained s) env id target input s (λ _ before. before)
        (λ _ _ before. before)

outcome-KeepsContained :
    {A : Type 0} (s : MemoryService) (r : Answer A)
    → KeepsContained s r
    → Each (λ _. IsContained (outcome r).1.batches) s.incidents
    → Each (λ _. IsContained (outcome r).1.batches) (outcome r).1.incidents
outcome-KeepsContained s (ok a, s') h before = h before
outcome-KeepsContained s (err e, s') h before = h before

run-KeepsContained :
    (platform : Platform) (c : Call) (s : MemoryService)
    → Each (λ _. IsContained (run platform c s).1.batches) s.incidents
    → Each (λ _. IsContained (run platform c s).1.batches) (run platform c s).1.incidents
unfolding run
run-KeepsContained platform (Call.creates_qualification env input) s =
    outcome-KeepsContained s _ (create_qualification-KeepsContained env s platform input)
run-KeepsContained platform (Call.submits_qualification env id input) s =
    outcome-KeepsContained s _ (submit_qualification-KeepsContained env s platform id input)
run-KeepsContained platform (Call.reviews_qualification env id input) s =
    outcome-KeepsContained s _ (review_qualification-KeepsContained env s id input)
run-KeepsContained platform (Call.records_inspection env id input) s =
    outcome-KeepsContained s _ (record_site_inspection-KeepsContained env s id input)
run-KeepsContained platform (Call.creates_batch env visited input) s =
    outcome-KeepsContained s _ (create_batch-KeepsContained env s platform visited input)
run-KeepsContained platform (Call.records_production env id input) s =
    outcome-KeepsContained s _ (record_batch_production-KeepsContained env s id input)
run-KeepsContained platform (Call.associates_orders env id input) s =
    outcome-KeepsContained s _ (associate_orders-KeepsContained env s id input)
run-KeepsContained platform (Call.transitions_batch env id target input) s =
    outcome-KeepsContained s _ (transition_batch-KeepsContained env s id target input)
run-KeepsContained platform (Call.creates_incident env input) s =
    outcome-KeepsContained s _ (create_incident-KeepsContained env input s)
run-KeepsContained platform (Call.transitions_incident env id target input) s =
    outcome-KeepsContained s _ (transition_incident-KeepsContained env id target input s)
run-KeepsContained platform (Call.creates_recall env input) s =
    outcome-KeepsContained s _ (create_recall-KeepsContained env input s)
run-KeepsContained platform (Call.transitions_recall env id target input) s =
    outcome-KeepsContained s _ (transition_recall-KeepsContained env id target input s)
run-KeepsContained platform (Call.creates_disposition env input) s =
    outcome-KeepsContained s _ (create_disposition-KeepsContained env input s)
run-KeepsContained platform (Call.transitions_disposition env id target input) s =
    outcome-KeepsContained s _ (transition_disposition-KeepsContained env s id target input)
run-KeepsContained platform (Call.adds_evidence env subject input) s =
    outcome-KeepsContained s _ (add_evidence-KeepsContained platform env subject input s)

-- A call after which the batches live on keeps every incident contained.
pub run-IsContained :
    (platform : Platform) (c : Call) (s : MemoryService)
    → IsFresh c s
    → Each (λ _. IsContained s.batches) s.incidents
    → Each (λ _. IsContained (run platform c s).1.batches) (run platform c s).1.incidents
run-IsContained platform c s fresh before = run-KeepsContained platform c s (λ id incident found.
    IsContained-later incident (run-BatchesLive platform c s fresh) (before id incident found))
