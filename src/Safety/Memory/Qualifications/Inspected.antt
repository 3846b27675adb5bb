-- ===== src/Safety/Memory/Qualifications/Inspected.antt =====
-- An approved qualification has passed a site inspection, call by call.
use chihuo.Base.{
  String, true, false, Option, some, none, List, ◌≡◌, refl, ◌⊎◌, inl, inr, Result, ok, err, arith,
  Option-cases,
}
use chihuo.Base.Dict.{Dict, lookup, get_or, Each, Each-insert}
use chihuo.Domain.{Time}
use chihuo.Safety.Status.{FoodBatchStatus, IncidentStatus, RecallStatus, DispositionStatus}
use chihuo.Safety.Inputs.{
  CreateQualificationInput, SubmitQualificationInput, ReviewQualificationInput, SiteInspectionInput,
  CreateBatchInput, RecordProductionInput, TransitionInput, AssociateOrdersInput,
  CreateIncidentInput, IncidentTransitionInput, CreateRecallInput, RecallTransitionInput,
  CreateDispositionInput, AddEvidenceInput,
}
use chihuo.Safety.Platform.{Platform}
use chihuo.Safety.Kinds.{EvidenceSubjectType}
use chihuo.Safety.Model.{
  MerchantQualification, OrderAssociation, FoodBatch, FoodSafetyIncident, Recall, EvidenceSubject,
}
use chihuo.Safety.Zero.{zero_qualification}
use chihuo.Safety.Errors.{Error, refuse}
use chihuo.Safety.Validation.{is_approved_qualification}
use chihuo.Safety.Memory.{MemoryService, Env, Answer, answer, unless_error}
use chihuo.Safety.Memory.Qualifications.{
  drafted_qualification, submitted, reviewed, inspected, review_refusal, inspection_refusal,
  is_inspectable, has_passed, put_qualification, create_qualification, submit_qualification,
  review_qualification, record_site_inspection,
}
use chihuo.Safety.Memory.Batches.{
  put_batch, link_orders, create_batch, record_batch_production, associate_orders, transition_batch,
}
use chihuo.Safety.Memory.Incidents.{put_incident, create_incident, transition_incident}
use chihuo.Safety.Memory.Recalls.{
  open_recall, put_recall, carry_out, create_recall, transition_recall,
}
use chihuo.Safety.Memory.Dispositions.{
  plan, settle_disposition, create_disposition, transition_disposition,
}
use chihuo.Safety.Memory.Chains.{trimmed_subject, append_evidence_link, written, add_evidence}
use chihuo.Safety.Memory.Calls.{Call, outcome, run}
use chihuo.Safety.Memory.Cases.{
  create_qualification_cases, submit_qualification_cases, review_qualification_cases,
  record_site_inspection_cases, create_batch_cases, record_batch_production_cases,
  associate_orders_cases, transition_batch_cases, create_incident_cases, transition_incident_cases,
  create_recall_cases, transition_recall_cases, create_disposition_cases,
  transition_disposition_cases, add_evidence_cases, added_evidence, store_evidence-leaves,
}

-- The qualification is not APPROVED, or it has a site inspection that PASSED.
abbrev pub IsInspected : MerchantQualification → Type 0
IsInspected q = (is_approved_qualification q.status ≡ false) ⊎ (has_passed q.site_inspection ≡ true)

abbrev pub StillInspected : MemoryService → MemoryService → Type 0
StillInspected s t =
    Each (λ _. IsInspected) s.qualifications → Each (λ _. IsInspected) t.qualifications

reviewed-IsInspected :
    (env : Env) (id : String) (input : ReviewQualificationInput) (s : MemoryService)
    (q : MerchantQualification)
    → review_refusal env id input s q ≡ none
    → IsInspected (reviewed env id input q)
unfolding review_refusal refuse reviewed
reviewed-IsInspected env id input s q passed = ground arith

inspected-IsInspected :
    (env : Env) (id : String) (input : SiteInspectionInput) (s : MemoryService)
    (q : MerchantQualification)
    → inspection_refusal id input s q ≡ none
    → IsInspected (inspected env id input q)
unfolding inspection_refusal refuse inspected is_inspectable is_approved_qualification
inspected-IsInspected env id input s q passed = inl (ground arith)

linked-IsInspected :
    (id : String) (qualifications : Dict MerchantQualification)
    → Each (λ _. IsInspected) qualifications
    → IsInspected (get_or zero_qualification id qualifications)
unfolding get_or zero_qualification is_approved_qualification
linked-IsInspected id qualifications before = elim (Option-cases (lookup id qualifications)) [
  | inl missing ↦ rw (missing, get_or) (inl refl)
  | inr (q, found) ↦ rw (found, get_or) (before id q found)
]

append_evidence_link-StillInspected :
    (now : Time) (kind : EvidenceSubjectType) (subject_id id : String) (s s' : MemoryService)
    → s'.qualifications ≡ s.qualifications
    → (let subject : EvidenceSubject = record { kind_of = kind; id = subject_id } in
        StillInspected s (append_evidence_link now subject id s').1)
unfolding append_evidence_link
append_evidence_link-StillInspected now EvidenceSubjectType.qualification subject_id id s s' same
      before =
    rw same (
      Each-insert _ subject_id _ s.qualifications
        (linked-IsInspected subject_id s.qualifications before) before)
append_evidence_link-StillInspected now _ subject_id id s s' same before = rw same before

module _ (env : Env) (s : MemoryService) where
  link_orders-StillInspected :
      (env : Env) (id : String) (b : FoodBatch) (s : MemoryService)
      (r : Result Error (List OrderAssociation))
      → StillInspected s (link_orders env id b s r).1
  unfolding link_orders put_batch
  link_orders-StillInspected env id b s (ok added) before = before
  link_orders-StillInspected env id b s (err e) before = before

  unless_error-StillInspected :
      {A : Type 0} (o : Option Error) (s s' s'' : MemoryService) (a : A)
      → StillInspected s s'
      → StillInspected s s''
      → StillInspected s (unless_error o s' (answer a s'')).1
  unfolding unless_error
  unless_error-StillInspected none s s' s'' a h h' before = h' before
  unless_error-StillInspected (some e) s s' s'' a h h' before = h before

  carry_out-StillInspected :
      (target : RecallStatus) (input : RecallTransitionInput) (recall : Recall)
      (incident : FoodSafetyIncident)
      → StillInspected s (carry_out env target input recall incident s)
  unfolding carry_out
  carry_out-StillInspected RecallStatus.initiated input recall incident before = before
  carry_out-StillInspected _ input recall incident before = before

  create_qualification-StillInspected :
      (platform : Platform) (input : CreateQualificationInput)
      → StillInspected s (create_qualification platform env input s).1
  unfolding put_qualification drafted_qualification is_approved_qualification
  create_qualification-StillInspected platform input =
      create_qualification_cases (λ r. StillInspected s r.1) platform env input s
        (λ _ before. before) (Each-insert _ _ _ s.qualifications (inl refl))

  submit_qualification-StillInspected :
      (platform : Platform) (id : String) (input : SubmitQualificationInput)
      → StillInspected s (submit_qualification platform env id input s).1
  unfolding put_qualification submitted is_approved_qualification
  submit_qualification-StillInspected platform id input =
      submit_qualification_cases (λ r. StillInspected s r.1) platform env id input s
        (λ _ before. before) (λ _ _. Each-insert _ _ _ s.qualifications (inl refl))

  review_qualification-StillInspected :
      (id : String) (input : ReviewQualificationInput)
      → StillInspected s (review_qualification env id input s).1
  unfolding put_qualification
  review_qualification-StillInspected id input =
      review_qualification_cases (λ r. StillInspected s r.1) env id input s (λ _ before. before)
        (λ q _ passed.
          Each-insert _ _ _ s.qualifications (reviewed-IsInspected env id input s q passed))

  record_site_inspection-StillInspected :
      (id : String) (input : SiteInspectionInput)
      → StillInspected s (record_site_inspection env id input s).1
  unfolding put_qualification
  record_site_inspection-StillInspected id input =
      record_site_inspection_cases (λ r. StillInspected s r.1) env id input s (λ _ before. before)
        (λ q _ passed.
          Each-insert _ _ _ s.qualifications (inspected-IsInspected env id input s q passed))

  create_batch-StillInspected :
      (platform : Platform) (visited : List MerchantQualification) (input : CreateBatchInput)
      → StillInspected s (create_batch platform env visited input s).1
  unfolding put_batch
  create_batch-StillInspected platform visited input =
      create_batch_cases (λ r. StillInspected s r.1) platform env visited input s
        (λ _ before. before) (λ _ before. before)

  record_batch_production-StillInspected :
      (id : String) (input : RecordProductionInput)
      → StillInspected s (record_batch_production env id input s).1
  unfolding put_batch
  record_batch_production-StillInspected id input =
      record_batch_production_cases (λ r. StillInspected s r.1) env id input s (λ _ before. before)
        (λ _ _ _ _ before. before)

  associate_orders-StillInspected :
      (id : String) (input : AssociateOrdersInput)
      → StillInspected s (associate_orders env id input s).1
  associate_orders-StillInspected id input =
      associate_orders_cases (λ r. StillInspected s r.1) env id input s (λ _ before. before)
        (λ b _ _. link_orders-StillInspected env id b s _)

  transition_batch-StillInspected :
      (id : String) (target : FoodBatchStatus) (input : TransitionInput)
      → StillInspected s (transition_batch env id target input s).1
  unfolding put_batch
  transition_batch-StillInspected id target input =
      transition_batch_cases (λ r. StillInspected s r.1) env id target input s (λ _ before. before)
        (λ _ _ _ before. before)

  create_incident-StillInspected :
      (input : CreateIncidentInput) → StillInspected s (create_incident env input s).1
  unfolding put_incident
  create_incident-StillInspected input =
      create_incident_cases (λ r. StillInspected s r.1) env input s (λ _ before. before)
        (λ before. before)

  transition_incident-StillInspected :
      (id : String) (target : IncidentStatus) (input : IncidentTransitionInput)
      → StillInspected s (transition_incident env id target input s).1
  unfolding put_incident
  transition_incident-StillInspected id target input =
      transition_incident_cases (λ r. StillInspected s r.1) env id target input s
        (λ _ before. before)
        (λ _ _ _. unless_error-StillInspected _ s _ _ _ (λ before. before) (λ before. before))

  create_recall-StillInspected :
      (input : CreateRecallInput) → StillInspected s (create_recall env input s).1
  unfolding open_recall
  create_recall-StillInspected input =
      create_recall_cases (λ r. StillInspected s r.1) env input s (λ _ before. before)
        (λ _ _ _ before. before)

  transition_recall-StillInspected :
      (id : String) (target : RecallStatus) (input : RecallTransitionInput)
      → StillInspected s (transition_recall env id target input s).1
  unfolding put_recall
  transition_recall-StillInspected id target input =
      transition_recall_cases (λ r. StillInspected s r.1) env id target input s (λ _ before. before)
        (λ recall incident _ _ _ _. carry_out-StillInspected target input recall incident)

  create_disposition-StillInspected :
      (input : CreateDispositionInput) → StillInspected s (create_disposition env input s).1
  unfolding plan
  create_disposition-StillInspected input =
      create_disposition_cases (λ r. StillInspected s r.1) env input s (λ _ before. before)
        (λ _ _ _ before. before)

  transition_disposition-StillInspected :
      (id : String) (target : DispositionStatus) (input : TransitionInput)
      → StillInspected s (transition_disposition env id target input s).1
  unfolding settle_disposition
  transition_disposition-StillInspected id target input =
      transition_disposition_cases (λ r. StillInspected s r.1) env id target input s
        (λ _ before. before) (λ _ _ before. before)

  add_evidence-StillInspected :
      (platform : Platform) (named : EvidenceSubject) (input : AddEvidenceInput)
      → StillInspected s (add_evidence platform env named input s).1
  unfolding written
  add_evidence-StillInspected platform named input =
      add_evidence_cases (λ r. StillInspected s r.1) platform env named input s (λ _ before. before)
        (λ _.
          store_evidence-leaves (StillInspected s) platform env (trimmed_subject named)
            (added_evidence platform env named input s) _ s
            (append_evidence_link-StillInspected (env.clock 1) (trimmed_subject named).kind_of
              (trimmed_subject named).id _ s _ refl))

outcome-StillInspected :
    {A : Type 0} (s : MemoryService) (r : Answer A)
    → StillInspected s r.1
    → StillInspected s (outcome r).1
outcome-StillInspected s (ok a, s') h before = h before
outcome-StillInspected s (err e, s') h before = h before

-- Every call keeps approved qualifications inspected.
pub run-StillInspected :
    (platform : Platform) (c : Call) (s : MemoryService) → StillInspected s (run platform c s).1
unfolding run
run-StillInspected platform (Call.creates_qualification env input) s =
    outcome-StillInspected s (create_qualification platform env input s)
      (create_qualification-StillInspected env s platform input)
run-StillInspected platform (Call.submits_qualification env id input) s =
    outcome-StillInspected s (submit_qualification platform env id input s)
      (submit_qualification-StillInspected env s platform id input)
run-StillInspected platform (Call.reviews_qualification env id input) s =
    outcome-StillInspected s (review_qualification env id input s)
      (review_qualification-StillInspected env s id input)
run-StillInspected platform (Call.records_inspection env id input) s =
    outcome-StillInspected s (record_site_inspection env id input s)
      (record_site_inspection-StillInspected env s id input)
run-StillInspected platform (Call.creates_batch env visited input) s =
    outcome-StillInspected s (create_batch platform env visited input s)
      (create_batch-StillInspected env s platform visited input)
run-StillInspected platform (Call.records_production env id input) s =
    outcome-StillInspected s (record_batch_production env id input s)
      (record_batch_production-StillInspected env s id input)
run-StillInspected platform (Call.associates_orders env id input) s =
    outcome-StillInspected s (associate_orders env id input s)
      (associate_orders-StillInspected env s id input)
run-StillInspected platform (Call.transitions_batch env id target input) s =
    outcome-StillInspected s (transition_batch env id target input s)
      (transition_batch-StillInspected env s id target input)
run-StillInspected platform (Call.creates_incident env input) s =
    outcome-StillInspected s (create_incident env input s)
      (create_incident-StillInspected env s input)
run-StillInspected platform (Call.transitions_incident env id target input) s =
    outcome-StillInspected s (transition_incident env id target input s)
      (transition_incident-StillInspected env s id target input)
run-StillInspected platform (Call.creates_recall env input) s =
    outcome-StillInspected s (create_recall env input s) (create_recall-StillInspected env s input)
run-StillInspected platform (Call.transitions_recall env id target input) s =
    outcome-StillInspected s (transition_recall env id target input s)
      (transition_recall-StillInspected env s id target input)
run-StillInspected platform (Call.creates_disposition env input) s =
    outcome-StillInspected s (create_disposition env input s)
      (create_disposition-StillInspected env s input)
run-StillInspected platform (Call.transitions_disposition env id target input) s =
    outcome-StillInspected s (transition_disposition env id target input s)
      (transition_disposition-StillInspected env s id target input)
run-StillInspected platform (Call.adds_evidence env subject input) s =
    outcome-StillInspected s (add_evidence platform env subject input s)
      (add_evidence-StillInspected env s platform subject input)
