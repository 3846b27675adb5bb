-- ===== src/Safety/Memory/Atomicity.antt =====
-- Every call of the in-memory service either succeeds or leaves the service as it was.
use chihuo.Base.{String, true, Option, none, some, List, ◌≡◌, refl, arith, Result, ok, err}
use chihuo.Base.Text.{trim_space}
use chihuo.Safety.Status.{FoodBatchStatus, IncidentStatus, RecallStatus, DispositionStatus}
use chihuo.Domain.{Time}
use chihuo.Safety.Model.{
  MerchantQualification, OrderAssociation, FoodBatch, FoodSafetyIncident, EvidenceSubject, Evidence,
}
use chihuo.Safety.Inputs.{
  CreateQualificationInput, SubmitQualificationInput, ReviewQualificationInput, SiteInspectionInput,
  CreateBatchInput, RecordProductionInput, TransitionInput, AssociateOrdersInput,
  CreateIncidentInput, IncidentTransitionInput, CreateRecallInput, RecallTransitionInput,
  CreateDispositionInput, AddEvidenceInput,
}
use chihuo.Safety.Errors.{Error, refuse}
use chihuo.Safety.Platform.{Platform}
use chihuo.Safety.Memory.{MemoryService, Env, Answer, answer, fail, unless_error}
use chihuo.Safety.Memory.Qualifications.{
  put_qualification, create_qualification, submit_qualification, review_qualification,
  record_site_inspection,
}
use chihuo.Safety.Memory.Batches.{
  put_batch, link_orders, create_batch, record_batch_production, associate_orders, transition_batch,
}
use chihuo.Safety.Memory.Incidents.{
  put_incident, create_incident, contain, can_quarantine_all, incident_refusal, containment_refusal,
  transition_incident,
}
use chihuo.Safety.Memory.Incidents.Quarantine.{quarantine_all_loop}
use chihuo.Safety.Memory.Recalls.{open_recall, put_recall, create_recall, transition_recall}
use chihuo.Safety.Memory.Dispositions.{
  plan, settle_disposition, create_disposition, transition_disposition,
}
use chihuo.Safety.Memory.Chains.{
  subject_exists, evidence_refusal, append_evidence_link, store_evidence, written, trimmed_subject,
  add_evidence,
}
use chihuo.Safety.Memory.Cases.{
  create_qualification_cases, submit_qualification_cases, review_qualification_cases,
  record_site_inspection_cases, create_batch_cases, record_batch_production_cases,
  associate_orders_cases, transition_batch_cases, create_incident_cases, transition_incident_cases,
  create_recall_cases, transition_recall_cases, create_disposition_cases,
  transition_disposition_cases, add_evidence_cases,
}
use chihuo.Safety.Memory.Calls.{Call, outcome, run}

-- An answer that is an error comes with the service as it was.
abbrev pub IsAtomic : {A : Type 0} → MemoryService → Answer A → Type 0
IsAtomic s r = (e : Error) → r.0 ≡ err e → r.1 ≡ s

pub fail-IsAtomic : {A : Type 0} (s : MemoryService) (e : Error) → IsAtomic {A = A} s (fail e s)
fail-IsAtomic s e e' h = refl

pub answer-IsAtomic : {A : Type 0} (s s' : MemoryService) (a : A) → IsAtomic s (answer a s')
answer-IsAtomic s s' a e h = ground arith

link_orders-IsAtomic :
    (env : Env) (id : String) (batch : FoodBatch) (s : MemoryService)
    (r : Result Error (List OrderAssociation))
    → IsAtomic s (link_orders env id batch s r)
unfolding link_orders put_batch
link_orders-IsAtomic env id batch s (err e) = fail-IsAtomic s e
link_orders-IsAtomic env id batch s (ok added) = answer-IsAtomic s _ _

pub contained-can_quarantine_all :
    (id : String) (input : IncidentTransitionInput) (s : MemoryService)
    (incident : FoodSafetyIncident)
    → incident_refusal id IncidentStatus.contained input s incident ≡ none
    → can_quarantine_all s.batches incident.batch_ids ≡ none
unfolding incident_refusal containment_refusal
contained-can_quarantine_all id input s incident passed = ground arith

-- Once the checks of TransitionIncident have passed, the quarantine of the batches succeeds.
pub contain-succeeds :
    (env : Env) (id : String) (target : IncidentStatus) (input : IncidentTransitionInput)
    (s : MemoryService) (incident : FoodSafetyIncident)
    → incident_refusal id target input s incident ≡ none
    → (contain env target input incident.batch_ids s.batches).0 ≡ none
unfolding contain
contain-succeeds env id IncidentStatus.contained input s incident passed =
    let can = contained-can_quarantine_all id input s incident passed in
    (quarantine_all_loop input.transition.actor_id (trim_space input.containment_action)
      (env.clock 0) (λ _ _. Unit {0}) (λ _. tt) (λ _ _ _ _ _. tt) (λ _ _ _. tt) incident.batch_ids
      s.batches can).0
contain-succeeds env id _ input s incident passed = refl

-- The subject of new evidence exists, so linking the evidence to it succeeds.
append_evidence_link-succeeds :
    (now : Time) (subject : EvidenceSubject) (id : String) (s s' : MemoryService)
    → subject_exists s subject ≡ true
    → (append_evidence_link now subject id s').0 ≡ none
unfolding subject_exists append_evidence_link
append_evidence_link-succeeds now subject id s s' h = ground arith

pub subject_was_found :
    (platform : Platform) (env : Env) (subject : EvidenceSubject) (e : Evidence) (s : MemoryService)
    → evidence_refusal platform env subject e s ≡ none
    → subject_exists s subject ≡ true
unfolding evidence_refusal refuse
subject_was_found platform env subject e s passed = ground arith

unless_none-IsAtomic :
    {A : Type 0} (o : Option Error) (s s' s'' : MemoryService) (a : A)
    → o ≡ none
    → IsAtomic s (unless_error o s' (answer a s''))
unfolding unless_error
unless_none-IsAtomic o s s' s'' a h e failed = ground arith

module _ (env : Env) (s : MemoryService) where
  review_qualification-IsAtomic :
      (id : String) (input : ReviewQualificationInput)
      → IsAtomic s (review_qualification env id input s)
  unfolding put_qualification
  review_qualification-IsAtomic id input =
      review_qualification_cases (IsAtomic s) env id input s (fail-IsAtomic s)
        (λ _ _ _. answer-IsAtomic s _ _)

  record_site_inspection-IsAtomic :
      (id : String) (input : SiteInspectionInput)
      → IsAtomic s (record_site_inspection env id input s)
  unfolding put_qualification
  record_site_inspection-IsAtomic id input =
      record_site_inspection_cases (IsAtomic s) env id input s (fail-IsAtomic s)
        (λ _ _ _. answer-IsAtomic s _ _)

  record_batch_production-IsAtomic :
      (id : String) (input : RecordProductionInput)
      → IsAtomic s (record_batch_production env id input s)
  unfolding put_batch
  record_batch_production-IsAtomic id input =
      record_batch_production_cases (IsAtomic s) env id input s (fail-IsAtomic s)
        (λ _ _ _ _. answer-IsAtomic s _ _)

  associate_orders-IsAtomic :
      (id : String) (input : AssociateOrdersInput) → IsAtomic s (associate_orders env id input s)
  unfolding put_batch
  associate_orders-IsAtomic id input =
      associate_orders_cases (IsAtomic s) env id input s (fail-IsAtomic s)
        (λ batch _ _. link_orders-IsAtomic env id batch s _)

  transition_batch-IsAtomic :
      (id : String) (target : FoodBatchStatus) (input : TransitionInput)
      → IsAtomic s (transition_batch env id target input s)
  unfolding put_batch
  transition_batch-IsAtomic id target input =
      transition_batch_cases (IsAtomic s) env id target input s (fail-IsAtomic s)
        (λ _ _ _. answer-IsAtomic s _ _)

  create_incident-IsAtomic :
      (input : CreateIncidentInput) → IsAtomic s (create_incident env input s)
  unfolding put_incident
  create_incident-IsAtomic input =
      create_incident_cases (IsAtomic s) env input s (fail-IsAtomic s) (answer-IsAtomic s _ _)

  transition_incident-IsAtomic :
      (id : String) (target : IncidentStatus) (input : IncidentTransitionInput)
      → IsAtomic s (transition_incident env id target input s)
  unfolding put_incident
  transition_incident-IsAtomic id target input =
      transition_incident_cases (IsAtomic s) env id target input s (fail-IsAtomic s)
        (λ incident _ passed.
          unless_none-IsAtomic _ s _ _ _ (contain-succeeds env id target input s incident passed))

  create_recall-IsAtomic : (input : CreateRecallInput) → IsAtomic s (create_recall env input s)
  unfolding open_recall
  create_recall-IsAtomic input =
      create_recall_cases (IsAtomic s) env input s (fail-IsAtomic s)
        (λ _ _ _. answer-IsAtomic s _ _)

  transition_recall-IsAtomic :
      (id : String) (target : RecallStatus) (input : RecallTransitionInput)
      → IsAtomic s (transition_recall env id target input s)
  unfolding put_recall
  transition_recall-IsAtomic id target input =
      transition_recall_cases (IsAtomic s) env id target input s (fail-IsAtomic s)
        (λ _ _ _ _ _ _. answer-IsAtomic s _ _)

  create_disposition-IsAtomic :
      (input : CreateDispositionInput) → IsAtomic s (create_disposition env input s)
  unfolding plan
  create_disposition-IsAtomic input =
      create_disposition_cases (IsAtomic s) env input s (fail-IsAtomic s)
        (λ _ _ _. answer-IsAtomic s _ _)

  transition_disposition-IsAtomic :
      (id : String) (target : DispositionStatus) (input : TransitionInput)
      → IsAtomic s (transition_disposition env id target input s)
  unfolding settle_disposition
  transition_disposition-IsAtomic id target input =
      transition_disposition_cases (IsAtomic s) env id target input s (fail-IsAtomic s)
        (λ _ _. answer-IsAtomic s _ _)

  module _ (platform : Platform) where
    create_qualification-IsAtomic :
        (input : CreateQualificationInput) → IsAtomic s (create_qualification platform env input s)
    unfolding put_qualification
    create_qualification-IsAtomic input =
        create_qualification_cases (IsAtomic s) platform env input s (fail-IsAtomic s)
          (answer-IsAtomic s _ _)

    submit_qualification-IsAtomic :
        (id : String) (input : SubmitQualificationInput)
        → IsAtomic s (submit_qualification platform env id input s)
    unfolding put_qualification
    submit_qualification-IsAtomic id input =
        submit_qualification_cases (IsAtomic s) platform env id input s (fail-IsAtomic s)
          (λ _ _. answer-IsAtomic s _ _)

    create_batch-IsAtomic :
        (visited : List MerchantQualification) (input : CreateBatchInput)
        → IsAtomic s (create_batch platform env visited input s)
    unfolding put_batch
    create_batch-IsAtomic visited input =
        create_batch_cases (IsAtomic s) platform env visited input s (fail-IsAtomic s)
          (λ _. answer-IsAtomic s _ _)

    add_evidence-IsAtomic :
        (named : EvidenceSubject) (input : AddEvidenceInput)
        → IsAtomic s (add_evidence platform env named input s)
    unfolding store_evidence written
    add_evidence-IsAtomic named input =
        add_evidence_cases (IsAtomic s) platform env named input s (fail-IsAtomic s) (λ passed.
          unless_none-IsAtomic _ s _ _ _ (
            append_evidence_link-succeeds _ (trimmed_subject named) _ s _
              (subject_was_found platform env _ _ s passed)))

outcome-IsAtomic :
    {A : Type 0} (s : MemoryService) (r : Answer A)
    → IsAtomic s r
    → (e : Error) → (outcome r).0 ≡ some e
    → (outcome r).1 ≡ s
outcome-IsAtomic s (ok a, s') h e failed = ground arith
outcome-IsAtomic s (err e', s') h e failed = h e' refl

-- A call that returns an error, whichever call it is and whichever of its checks fails, leaves the
-- whole service as it was, also where the code writes before its last error return.
pub failed_call_changes_nothing :
    (platform : Platform) (c : Call) (s : MemoryService) (e : Error)
    → (run platform c s).0 ≡ some e
    → (run platform c s).1 ≡ s
unfolding run
failed_call_changes_nothing platform (Call.creates_qualification env input) s =
    outcome-IsAtomic s _ (create_qualification-IsAtomic env s platform input)
failed_call_changes_nothing platform (Call.submits_qualification env id input) s =
    outcome-IsAtomic s _ (submit_qualification-IsAtomic env s platform id input)
failed_call_changes_nothing platform (Call.reviews_qualification env id input) s =
    outcome-IsAtomic s _ (review_qualification-IsAtomic env s id input)
failed_call_changes_nothing platform (Call.records_inspection env id input) s =
    outcome-IsAtomic s _ (record_site_inspection-IsAtomic env s id input)
failed_call_changes_nothing platform (Call.creates_batch env visited input) s =
    outcome-IsAtomic s _ (create_batch-IsAtomic env s platform visited input)
failed_call_changes_nothing platform (Call.records_production env id input) s =
    outcome-IsAtomic s _ (record_batch_production-IsAtomic env s id input)
failed_call_changes_nothing platform (Call.associates_orders env id input) s =
    outcome-IsAtomic s _ (associate_orders-IsAtomic env s id input)
failed_call_changes_nothing platform (Call.transitions_batch env id target input) s =
    outcome-IsAtomic s _ (transition_batch-IsAtomic env s id target input)
failed_call_changes_nothing platform (Call.creates_incident env input) s =
    outcome-IsAtomic s _ (create_incident-IsAtomic env s input)
failed_call_changes_nothing platform (Call.transitions_incident env id target input) s =
    outcome-IsAtomic s _ (transition_incident-IsAtomic env s id target input)
failed_call_changes_nothing platform (Call.creates_recall env input) s =
    outcome-IsAtomic s _ (create_recall-IsAtomic env s input)
failed_call_changes_nothing platform (Call.transitions_recall env id target input) s =
    outcome-IsAtomic s _ (transition_recall-IsAtomic env s id target input)
failed_call_changes_nothing platform (Call.creates_disposition env input) s =
    outcome-IsAtomic s _ (create_disposition-IsAtomic env s input)
failed_call_changes_nothing platform (Call.transitions_disposition env id target input) s =
    outcome-IsAtomic s _ (transition_disposition-IsAtomic env s id target input)
failed_call_changes_nothing platform (Call.adds_evidence env subject input) s =
    outcome-IsAtomic s _ (add_evidence-IsAtomic env s platform subject input)
