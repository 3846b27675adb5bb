-- ===== src/Safety/Memory/Lifecycle/Calls.antt =====
-- Every call lets the batches live on; over any history of calls each batch has lived as the machine
-- allows.
use chihuo.Base.{
  String, true, not, Option, some, none, List, ◌≡◌, refl, inl, inr, arith, Option-cases, Result, ok,
  err, str_eq,
}
use chihuo.Base.Text.{trim_space}
use chihuo.Base.Int.{pos, ◌<ℤ◌}
use chihuo.Base.Dict.{Dict, lookup, get_or}
use chihuo.Domain.{Time}
use chihuo.Safety.Status.{FoodBatchStatus, IncidentStatus, RecallStatus, DispositionStatus}
use chihuo.Safety.Kinds.{EvidenceSubjectType}
use chihuo.Safety.Model.{
  MerchantQualification, OrderAssociation, FoodBatch, FoodSafetyIncident, Recall, EvidenceSubject,
}
use chihuo.Safety.Inputs.{
  CreateQualificationInput, SubmitQualificationInput, ReviewQualificationInput, SiteInspectionInput,
  CreateBatchInput, RecordProductionInput, TransitionInput, AssociateOrdersInput,
  CreateIncidentInput, IncidentTransitionInput, CreateRecallInput, RecallTransitionInput,
  CreateDispositionInput, AddEvidenceInput,
}
use chihuo.Safety.Errors.{Error, conflict, invalid_state, refuse, then_check_first, then_check_rest}
use chihuo.Safety.Platform.{Platform}
use chihuo.Safety.Validation.Reports.{validate_batch-planned, validate_recall-named}
use chihuo.Safety.Validation.Resources.{validate_batch, validate_recall}
use chihuo.Safety.Memory.{MemoryService, Env, Answer, answer, unless_error}
use chihuo.Safety.Memory.Qualifications.{
  put_qualification, create_qualification, submit_qualification, review_qualification,
  record_site_inspection,
}
use chihuo.Safety.Memory.Batches.{
  takes_orders, put_batch, link_orders, drafted_batch, create_batch_refusal, create_batch,
  record_batch_production, associate_orders, transition_batch,
}
use chihuo.Safety.Memory.Incidents.{
  put_incident, contain, incident_refusal, create_incident, transition_incident,
}
use chihuo.Safety.Memory.Recalls.{
  with_merchant, is_recallable, recall_refusal, validate_recall_targets, check_recall_batches,
  open_recall, put_recall, carry_out, recall_transition_refusal, recall_target_refusal,
  can_mark_all, create_recall, transition_recall,
}
use chihuo.Safety.Memory.Dispositions.{
  plan, settle_disposition, create_disposition, transition_disposition,
}
use chihuo.Safety.Memory.Chains.{
  subject_exists, append_evidence_link, store_evidence, written, add_evidence,
}
use chihuo.Safety.Memory.Cases.{
  create_qualification_cases, submit_qualification_cases, review_qualification_cases,
  record_site_inspection_cases, create_batch_cases, record_batch_production_cases,
  associate_orders_cases, transition_batch_cases, create_incident_cases, transition_incident_cases,
  create_recall_cases, transition_recall_cases, create_disposition_cases,
  transition_disposition_cases, add_evidence_cases,
}
use chihuo.Safety.Memory.Calls.{Call, outcome, run}
use chihuo.Safety.Memory.Atomicity.{contained-can_quarantine_all, subject_was_found}
use chihuo.Safety.Memory.Lifecycle.{
  BatchStep, BatchLife-one, IsNewBatch, BatchesLive, BatchesLive-refl, BatchesLive-update,
  BatchesLive-add,
}
use chihuo.Safety.Memory.Lifecycle.Batches.{
  transitioned-BatchStep, produced-BatchStep, quarantine_all-BatchesLive, mark_all-BatchesLive,
  link_batches-BatchesLive,
}

-- The batches of an answer's service have lived on.
abbrev pub LivesOn : {A : Type 0} → MemoryService → Answer A → Type 0
LivesOn s r = BatchesLive s.batches r.1.batches

create_batch_refusal-validates :
    (platform : Platform) (env : Env) (visited : List MerchantQualification)
    (input : CreateBatchInput)
    → create_batch_refusal platform env visited input ≡ none
    → validate_batch platform (drafted_batch env input) (env.clock 0) ≡ none
unfolding create_batch_refusal
create_batch_refusal-validates platform env visited input passed = ground arith

planned_is_positive :
    (platform : Platform) (env : Env) (visited : List MerchantQualification)
    (input : CreateBatchInput)
    → create_batch_refusal platform env visited input ≡ none
    → pos 0 <ℤ input.quantity_planned
unfolding drafted_batch
planned_is_positive platform env visited input passed =
    validate_batch-planned platform (drafted_batch env input) (env.clock 0)
      (create_batch_refusal-validates platform env visited input passed)

drafted_batch-IsNewBatch :
    (platform : Platform) (env : Env) (visited : List MerchantQualification)
    (input : CreateBatchInput)
    → create_batch_refusal platform env visited input ≡ none
    → IsNewBatch (drafted_batch env input)
unfolding drafted_batch
drafted_batch-IsNewBatch platform env visited input passed = record {
  drafted = refl;
  untouched = refl;
  unproduced = refl;
  unspent = refl;
  planned = planned_is_positive platform env visited input passed;
  unordered = refl;
}

link_orders-LivesOn :
    (env : Env) (id : String) (b : FoodBatch) (s : MemoryService)
    (r : Result Error (List OrderAssociation))
    → lookup id s.batches ≡ some b
    → takes_orders b.status ≡ true
    → LivesOn s (link_orders env id b s r)
unfolding link_orders put_batch
link_orders-LivesOn env id b s (err e) found taking = BatchesLive-refl s.batches
link_orders-LivesOn env id b s (ok added) found taking =
    BatchesLive-update id b _ s.batches found (BatchLife-one (BatchStep.takes _ _ taking))

contain-LivesOn :
    (env : Env) (id : String) (target : IncidentStatus) (input : IncidentTransitionInput)
    (s : MemoryService) (incident : FoodSafetyIncident)
    → incident_refusal id target input s incident ≡ none
    → BatchesLive s.batches (contain env target input incident.batch_ids s.batches).1
unfolding contain
contain-LivesOn env id IncidentStatus.contained input s incident passed =
    quarantine_all-BatchesLive input.transition.actor_id (trim_space input.containment_action)
      (env.clock 0) incident.batch_ids s.batches
      (contained-can_quarantine_all id input s incident passed)
contain-LivesOn env id _ input s incident passed = BatchesLive-refl s.batches

pub initiated-can_mark_all :
    (id : String) (input : RecallTransitionInput) (s : MemoryService) (recall : Recall)
    (incident : FoodSafetyIncident)
    → recall_transition_refusal id RecallStatus.initiated input s recall incident ≡ none
    → can_mark_all s.batches recall.batch_ids ≡ none
unfolding recall_transition_refusal recall_target_refusal
initiated-can_mark_all id input s recall incident passed = ground arith

carry_out-LivesOn :
    (env : Env) (id : String) (target : RecallStatus) (input : RecallTransitionInput)
    (s : MemoryService) (recall : Recall) (incident : FoodSafetyIncident)
    → recall_transition_refusal id target input s recall incident ≡ none
    → BatchesLive s.batches (carry_out env target input recall incident s).batches
unfolding carry_out
carry_out-LivesOn env id RecallStatus.initiated input s recall incident passed =
    mark_all-BatchesLive input.transition.actor_id recall.reason (env.clock 0) recall.batch_ids
      s.batches (initiated-can_mark_all id input s recall incident passed)
carry_out-LivesOn env id _ input s recall incident passed = BatchesLive-refl s.batches

unless_error-LivesOn :
    {A : Type 0} (o : Option Error) (s s' s'' : MemoryService) (a : A)
    → BatchesLive s.batches s'.batches
    → BatchesLive s.batches s''.batches
    → LivesOn s (unless_error o s' (answer a s''))
unfolding unless_error
unless_error-LivesOn none s s' s'' a h h' = h'
unless_error-LivesOn (some e) s s' s'' a h h' = h

-- The subject that a link is appended to was found.
linked_batch_was_found :
    (s : MemoryService) (subject : EvidenceSubject)
    → subject_exists s subject ≡ true
    → subject.kind_of ≡ EvidenceSubjectType.batch
    → (b : FoodBatch) × (lookup subject.id s.batches ≡ some b)
unfolding subject_exists
linked_batch_was_found s subject exists kind = elim (Option-cases (lookup subject.id s.batches)) [
  | inr found ↦ found
  | inl missing ↦ ground (arith, kind, missing)
]

append_evidence_link-LivesOn :
    (now : Time) (kind : EvidenceSubjectType) (subject_id id : String) (s s' : MemoryService)
    → s'.batches ≡ s.batches
    → (let subject : EvidenceSubject = record { kind_of = kind; id = subject_id } in
        subject_exists s subject ≡ true
        → BatchesLive s.batches (append_evidence_link now subject id s').1.batches)
unfolding append_evidence_link get_or
append_evidence_link-LivesOn now EvidenceSubjectType.batch subject_id id s s' h exists =
    let (b, found) = linked_batch_was_found s _ exists refl in
    rw (h, found, get_or)
      (BatchesLive-update subject_id b _ s.batches found
        (BatchLife-one (BatchStep.gains_evidence id now)))
append_evidence_link-LivesOn now _ subject_id id s s' h exists = rw h (BatchesLive-refl s.batches)

recall_refusal-validates :
    (m : Dict FoodBatch) (drafted : Recall) (incident : FoodSafetyIncident)
    → recall_refusal m drafted incident ≡ none
    → validate_recall (with_merchant incident drafted) ≡ none
unfolding recall_refusal
recall_refusal-validates m drafted incident passed =
    then_check_first _ _ (then_check_rest _ _ passed)

recall_refusal-targets :
    (m : Dict FoodBatch) (drafted : Recall) (incident : FoodSafetyIncident)
    → recall_refusal m drafted incident ≡ none
    → validate_recall_targets m incident (with_merchant incident drafted) ≡ none
unfolding recall_refusal
recall_refusal-targets m drafted incident passed =
    let recall = with_merchant incident drafted in
    let other_merchant = refuse (not (str_eq recall.merchant_id incident.merchant_id)) conflict in
    then_check_rest (refuse (not (is_recallable incident.status)) invalid_state) _
      (then_check_rest (validate_recall recall) _ (then_check_rest other_merchant _ passed))

targets-checked :
    (m : Dict FoodBatch) (incident : FoodSafetyIncident) (recall : Recall)
    → validate_recall_targets m incident recall ≡ none
    → check_recall_batches m incident.batch_ids recall.merchant_id recall.batch_ids ≡ none
unfolding validate_recall_targets
targets-checked m incident recall passed = then_check_first _ _ (then_check_rest _ _ passed)

open_recall-LivesOn :
    (env : Env) (drafted : Recall) (incident : FoodSafetyIncident) (s : MemoryService)
    → recall_refusal s.batches drafted incident ≡ none
    → LivesOn s (open_recall env (with_merchant incident drafted) incident s)
unfolding open_recall
open_recall-LivesOn env drafted incident s passed =
    let recall = with_merchant incident drafted in
    link_batches-BatchesLive env.clock recall.id incident.batch_ids recall.merchant_id 3
      recall.batch_ids s.batches
      (validate_recall-named recall (recall_refusal-validates s.batches drafted incident passed))
      (targets-checked s.batches incident recall
        (recall_refusal-targets s.batches drafted incident passed))

module _ (env : Env) (s : MemoryService) where
  record_batch_production-LivesOn :
      (id : String) (input : RecordProductionInput)
      → LivesOn s (record_batch_production env id input s)
  unfolding put_batch
  record_batch_production-LivesOn id input =
      record_batch_production_cases (LivesOn s) env id input s (λ _. BatchesLive-refl s.batches)
        (λ b checked found passed.
          BatchesLive-update id b _ s.batches found
            (BatchLife-one (produced-BatchStep env input b checked passed)))

  associate_orders-LivesOn :
      (id : String) (input : AssociateOrdersInput) → LivesOn s (associate_orders env id input s)
  associate_orders-LivesOn id input =
      associate_orders_cases (LivesOn s) env id input s (λ _. BatchesLive-refl s.batches)
        (λ b found taking. link_orders-LivesOn env id b s _ found taking)

  transition_batch-LivesOn :
      (id : String) (target : FoodBatchStatus) (input : TransitionInput)
      → LivesOn s (transition_batch env id target input s)
  unfolding put_batch
  transition_batch-LivesOn id target input =
      transition_batch_cases (LivesOn s) env id target input s (λ _. BatchesLive-refl s.batches)
        (λ b found passed.
          BatchesLive-update id b _ s.batches found
            (BatchLife-one (transitioned-BatchStep env id target input s b passed)))

  transition_incident-LivesOn :
      (id : String) (target : IncidentStatus) (input : IncidentTransitionInput)
      → LivesOn s (transition_incident env id target input s)
  unfolding put_incident
  transition_incident-LivesOn id target input =
      transition_incident_cases (LivesOn s) env id target input s (λ _. BatchesLive-refl s.batches)
        (λ incident _ passed.
          let life = contain-LivesOn env id target input s incident passed in
          unless_error-LivesOn _ s _ _ _ life life)

  create_recall-LivesOn : (input : CreateRecallInput) → LivesOn s (create_recall env input s)
  create_recall-LivesOn input =
      create_recall_cases (LivesOn s) env input s (λ _. BatchesLive-refl s.batches)
        (λ incident _ passed. open_recall-LivesOn env _ incident s passed)

  transition_recall-LivesOn :
      (id : String) (target : RecallStatus) (input : RecallTransitionInput)
      → LivesOn s (transition_recall env id target input s)
  unfolding put_recall
  transition_recall-LivesOn id target input =
      transition_recall_cases (LivesOn s) env id target input s (λ _. BatchesLive-refl s.batches)
        (λ recall incident _ _ _ passed.
          carry_out-LivesOn env id target input s recall incident passed)

  review_qualification-LivesOn :
      (id : String) (input : ReviewQualificationInput)
      → LivesOn s (review_qualification env id input s)
  unfolding put_qualification
  review_qualification-LivesOn id input =
      review_qualification_cases (LivesOn s) env id input s (λ _. BatchesLive-refl s.batches)
        (λ _ _ _. BatchesLive-refl s.batches)

  record_site_inspection-LivesOn :
      (id : String) (input : SiteInspectionInput)
      → LivesOn s (record_site_inspection env id input s)
  unfolding put_qualification
  record_site_inspection-LivesOn id input =
      record_site_inspection_cases (LivesOn s) env id input s (λ _. BatchesLive-refl s.batches)
        (λ _ _ _. BatchesLive-refl s.batches)

  create_incident-LivesOn : (input : CreateIncidentInput) → LivesOn s (create_incident env input s)
  unfolding put_incident
  create_incident-LivesOn input =
      create_incident_cases (LivesOn s) env input s (λ _. BatchesLive-refl s.batches)
        (BatchesLive-refl s.batches)

  create_disposition-LivesOn :
      (input : CreateDispositionInput) → LivesOn s (create_disposition env input s)
  unfolding plan
  create_disposition-LivesOn input =
      create_disposition_cases (LivesOn s) env input s (λ _. BatchesLive-refl s.batches)
        (λ _ _ _. BatchesLive-refl s.batches)

  transition_disposition-LivesOn :
      (id : String) (target : DispositionStatus) (input : TransitionInput)
      → LivesOn s (transition_disposition env id target input s)
  unfolding settle_disposition
  transition_disposition-LivesOn id target input =
      transition_disposition_cases (LivesOn s) env id target input s
        (λ _. BatchesLive-refl s.batches) (λ _ _. BatchesLive-refl s.batches)

  module _ (platform : Platform) where
    create_qualification-LivesOn :
        (input : CreateQualificationInput) → LivesOn s (create_qualification platform env input s)
    unfolding put_qualification
    create_qualification-LivesOn input =
        create_qualification_cases (LivesOn s) platform env input s
          (λ _. BatchesLive-refl s.batches) (BatchesLive-refl s.batches)

    submit_qualification-LivesOn :
        (id : String) (input : SubmitQualificationInput)
        → LivesOn s (submit_qualification platform env id input s)
    unfolding put_qualification
    submit_qualification-LivesOn id input =
        submit_qualification_cases (LivesOn s) platform env id input s
          (λ _. BatchesLive-refl s.batches) (λ _ _. BatchesLive-refl s.batches)

    create_batch-LivesOn :
        (visited : List MerchantQualification) (input : CreateBatchInput)
        → lookup (env.new_id 0) s.batches ≡ none
        → LivesOn s (create_batch platform env visited input s)
    unfolding put_batch drafted_batch
    create_batch-LivesOn visited input fresh =
        create_batch_cases (LivesOn s) platform env visited input s
          (λ _. BatchesLive-refl s.batches)
          (λ passed.
            BatchesLive-add _ _ s.batches fresh
              (drafted_batch-IsNewBatch platform env visited input passed))

    add_evidence-LivesOn :
        (named : EvidenceSubject) (input : AddEvidenceInput)
        → LivesOn s (add_evidence platform env named input s)
    unfolding store_evidence written
    add_evidence-LivesOn named input =
        add_evidence_cases (LivesOn s) platform env named input s (λ _. BatchesLive-refl s.batches)
          (λ passed.
            let exists = subject_was_found platform env _ _ s passed in
            let life = append_evidence_link-LivesOn (env.clock 1) _ _ _ s _ refl exists in
            unless_error-LivesOn _ s _ _ _ life life)

-- What a call may assume: the id that it draws for a batch or for evidence is fresh.
abbrev pub IsFresh : Call → MemoryService → Type 0
IsFresh (Call.creates_batch env visited input) s = lookup (env.new_id 0) s.batches ≡ none
IsFresh (Call.adds_evidence env subject input) s = lookup (env.new_id 0) s.evidence ≡ none
IsFresh _ s = Unit {0}

outcome-LivesOn :
    {A : Type 0} (s : MemoryService) (r : Answer A)
    → LivesOn s r
    → BatchesLive s.batches (outcome r).1.batches
outcome-LivesOn s (ok a, s') h = h
outcome-LivesOn s (err e, s') h = h

-- Every call lets the batches live on: none is lost, and each changes only by steps of the machine.
pub run-BatchesLive :
    (platform : Platform) (c : Call) (s : MemoryService)
    → IsFresh c s
    → BatchesLive s.batches (run platform c s).1.batches
unfolding run
run-BatchesLive platform (Call.creates_qualification env input) s fresh =
    outcome-LivesOn s _ (create_qualification-LivesOn env s platform input)
run-BatchesLive platform (Call.submits_qualification env id input) s fresh =
    outcome-LivesOn s _ (submit_qualification-LivesOn env s platform id input)
run-BatchesLive platform (Call.reviews_qualification env id input) s fresh =
    outcome-LivesOn s _ (review_qualification-LivesOn env s id input)
run-BatchesLive platform (Call.records_inspection env id input) s fresh =
    outcome-LivesOn s _ (record_site_inspection-LivesOn env s id input)
run-BatchesLive platform (Call.creates_batch env visited input) s fresh =
    outcome-LivesOn s _ (create_batch-LivesOn env s platform visited input fresh)
run-BatchesLive platform (Call.records_production env id input) s fresh =
    outcome-LivesOn s _ (record_batch_production-LivesOn env s id input)
run-BatchesLive platform (Call.associates_orders env id input) s fresh =
    outcome-LivesOn s _ (associate_orders-LivesOn env s id input)
run-BatchesLive platform (Call.transitions_batch env id target input) s fresh =
    outcome-LivesOn s _ (transition_batch-LivesOn env s id target input)
run-BatchesLive platform (Call.creates_incident env input) s fresh =
    outcome-LivesOn s _ (create_incident-LivesOn env s input)
run-BatchesLive platform (Call.transitions_incident env id target input) s fresh =
    outcome-LivesOn s _ (transition_incident-LivesOn env s id target input)
run-BatchesLive platform (Call.creates_recall env input) s fresh =
    outcome-LivesOn s _ (create_recall-LivesOn env s input)
run-BatchesLive platform (Call.transitions_recall env id target input) s fresh =
    outcome-LivesOn s _ (transition_recall-LivesOn env s id target input)
run-BatchesLive platform (Call.creates_disposition env input) s fresh =
    outcome-LivesOn s _ (create_disposition-LivesOn env s input)
run-BatchesLive platform (Call.transitions_disposition env id target input) s fresh =
    outcome-LivesOn s _ (transition_disposition-LivesOn env s id target input)
run-BatchesLive platform (Call.adds_evidence env subject input) s fresh =
    outcome-LivesOn s _ (add_evidence-LivesOn env s platform subject input)
