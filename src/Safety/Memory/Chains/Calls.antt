-- ===== src/Safety/Memory/Chains/Calls.antt =====
-- The evidence chains over every call.
use chihuo.Base.{String, Option, some, none, List, [], ◌≡◌, Result, ok, err}
use chihuo.Base.Dict.{lookup, get_or}
use chihuo.Safety.Status.{FoodBatchStatus, IncidentStatus, RecallStatus, DispositionStatus}
use chihuo.Safety.Inputs.{
  CreateQualificationInput, SubmitQualificationInput, ReviewQualificationInput, SiteInspectionInput,
  CreateBatchInput, RecordProductionInput, TransitionInput, AssociateOrdersInput,
  CreateIncidentInput, IncidentTransitionInput, CreateRecallInput, RecallTransitionInput,
  CreateDispositionInput, AddEvidenceInput,
}
use chihuo.Safety.Platform.{Platform}
use chihuo.Safety.Kinds.{EvidenceSubjectType}
use chihuo.Safety.Model.{
  MerchantQualification, OrderAssociation, FoodBatch, FoodSafetyIncident, Recall, EvidenceSubject,
}
use chihuo.Safety.Errors.{Error}
use chihuo.Safety.Memory.{MemoryService, Env, Answer, answer, unless_error}
use chihuo.Safety.Memory.Qualifications.{
  put_qualification, create_qualification, submit_qualification, review_qualification,
  record_site_inspection,
}
use chihuo.Safety.Memory.Batches.{
  put_batch, link_orders, create_batch, record_batch_production, associate_orders, transition_batch,
}
use chihuo.Safety.Memory.Incidents.{put_incident, create_incident, transition_incident}
use chihuo.Safety.Memory.Recalls.{
  open_recall, put_recall, carry_out, create_recall, transition_recall,
}
use chihuo.Safety.Memory.Dispositions.{
  plan, settle_disposition, create_disposition, transition_disposition,
}
use chihuo.Safety.Memory.Chains.{subject_key, trimmed_subject, append_evidence_link, add_evidence}
use chihuo.Safety.Memory.Calls.{Call, outcome, run}
use chihuo.Safety.Memory.Cases.{
  create_qualification_cases, submit_qualification_cases, review_qualification_cases,
  record_site_inspection_cases, create_batch_cases, record_batch_production_cases,
  associate_orders_cases, transition_batch_cases, create_incident_cases, transition_incident_cases,
  create_recall_cases, transition_recall_cases, create_disposition_cases,
  transition_disposition_cases, add_evidence_cases, added_evidence, store_evidence-leaves,
}
use chihuo.Safety.Memory.Chains.Integrity.{HasVerifiedChains, written-HasVerifiedChains}
use chihuo.Safety.Memory.Lifecycle.Calls.{IsFresh}

module _ (platform : Platform) where
  abbrev pub StillVerified : MemoryService → MemoryService → Type 0
  StillVerified s t = HasVerifiedChains platform s → HasVerifiedChains platform t

  module _ (env : Env) (s : MemoryService) where
    link_orders-StillVerified :
        (env : Env) (id : String) (b : FoodBatch) (s : MemoryService)
        (r : Result Error (List OrderAssociation))
        → StillVerified s (link_orders env id b s r).1
    unfolding link_orders put_batch
    link_orders-StillVerified env id b s (ok added) before = before
    link_orders-StillVerified env id b s (err e) before = before

    unless_error-StillVerified :
        {A : Type 0} (o : Option Error) (s s' s'' : MemoryService) (a : A)
        → StillVerified s s'
        → StillVerified s s''
        → StillVerified s (unless_error o s' (answer a s'')).1
    unfolding unless_error
    unless_error-StillVerified none s s' s'' a h h' before = h' before
    unless_error-StillVerified (some e) s s' s'' a h h' before = h before

    carry_out-StillVerified :
        (target : RecallStatus) (input : RecallTransitionInput) (recall : Recall)
        (incident : FoodSafetyIncident)
        → StillVerified s (carry_out env target input recall incident s)
    unfolding carry_out
    carry_out-StillVerified RecallStatus.initiated input recall incident before = before
    carry_out-StillVerified _ input recall incident before = before

    create_qualification-StillVerified :
        (input : CreateQualificationInput)
        → StillVerified s (create_qualification platform env input s).1
    unfolding put_qualification
    create_qualification-StillVerified input =
        create_qualification_cases (λ r. StillVerified s r.1) platform env input s
          (λ _ before. before) (λ before. before)

    submit_qualification-StillVerified :
        (id : String) (input : SubmitQualificationInput)
        → StillVerified s (submit_qualification platform env id input s).1
    unfolding put_qualification
    submit_qualification-StillVerified id input =
        submit_qualification_cases (λ r. StillVerified s r.1) platform env id input s
          (λ _ before. before) (λ _ _ before. before)

    review_qualification-StillVerified :
        (id : String) (input : ReviewQualificationInput)
        → StillVerified s (review_qualification env id input s).1
    unfolding put_qualification
    review_qualification-StillVerified id input =
        review_qualification_cases (λ r. StillVerified s r.1) env id input s (λ _ before. before)
          (λ _ _ _ before. before)

    record_site_inspection-StillVerified :
        (id : String) (input : SiteInspectionInput)
        → StillVerified s (record_site_inspection env id input s).1
    unfolding put_qualification
    record_site_inspection-StillVerified id input =
        record_site_inspection_cases (λ r. StillVerified s r.1) env id input s (λ _ before. before)
          (λ _ _ _ before. before)

    create_batch-StillVerified :
        (visited : List MerchantQualification) (input : CreateBatchInput)
        → StillVerified s (create_batch platform env visited input s).1
    unfolding put_batch
    create_batch-StillVerified visited input =
        create_batch_cases (λ r. StillVerified s r.1) platform env visited input s
          (λ _ before. before) (λ _ before. before)

    record_batch_production-StillVerified :
        (id : String) (input : RecordProductionInput)
        → StillVerified s (record_batch_production env id input s).1
    unfolding put_batch
    record_batch_production-StillVerified id input =
        record_batch_production_cases (λ r. StillVerified s r.1) env id input s (λ _ before. before)
          (λ _ _ _ _ before. before)

    associate_orders-StillVerified :
        (id : String) (input : AssociateOrdersInput)
        → StillVerified s (associate_orders env id input s).1
    associate_orders-StillVerified id input =
        associate_orders_cases (λ r. StillVerified s r.1) env id input s (λ _ before. before)
          (λ b _ _. link_orders-StillVerified env id b s _)

    transition_batch-StillVerified :
        (id : String) (target : FoodBatchStatus) (input : TransitionInput)
        → StillVerified s (transition_batch env id target input s).1
    unfolding put_batch
    transition_batch-StillVerified id target input =
        transition_batch_cases (λ r. StillVerified s r.1) env id target input s (λ _ before. before)
          (λ _ _ _ before. before)

    create_incident-StillVerified :
        (input : CreateIncidentInput) → StillVerified s (create_incident env input s).1
    unfolding put_incident
    create_incident-StillVerified input =
        create_incident_cases (λ r. StillVerified s r.1) env input s (λ _ before. before)
          (λ before. before)

    transition_incident-StillVerified :
        (id : String) (target : IncidentStatus) (input : IncidentTransitionInput)
        → StillVerified s (transition_incident env id target input s).1
    unfolding put_incident
    transition_incident-StillVerified id target input =
        transition_incident_cases (λ r. StillVerified s r.1) env id target input s
          (λ _ before. before)
          (λ _ _ _. unless_error-StillVerified _ s _ _ _ (λ before. before) (λ before. before))

    create_recall-StillVerified :
        (input : CreateRecallInput) → StillVerified s (create_recall env input s).1
    unfolding open_recall
    create_recall-StillVerified input =
        create_recall_cases (λ r. StillVerified s r.1) env input s (λ _ before. before)
          (λ _ _ _ before. before)

    transition_recall-StillVerified :
        (id : String) (target : RecallStatus) (input : RecallTransitionInput)
        → StillVerified s (transition_recall env id target input s).1
    unfolding put_recall
    transition_recall-StillVerified id target input =
        transition_recall_cases (λ r. StillVerified s r.1) env id target input s
          (λ _ before. before)
          (λ recall incident _ _ _ _. carry_out-StillVerified target input recall incident)

    create_disposition-StillVerified :
        (input : CreateDispositionInput) → StillVerified s (create_disposition env input s).1
    unfolding plan
    create_disposition-StillVerified input =
        create_disposition_cases (λ r. StillVerified s r.1) env input s (λ _ before. before)
          (λ _ _ _ before. before)

    transition_disposition-StillVerified :
        (id : String) (target : DispositionStatus) (input : TransitionInput)
        → StillVerified s (transition_disposition env id target input s).1
    unfolding settle_disposition
    transition_disposition-StillVerified id target input =
        transition_disposition_cases (λ r. StillVerified s r.1) env id target input s
          (λ _ before. before) (λ _ _ before. before)

    append_evidence_link-StillVerified :
        (kind : EvidenceSubjectType) (subject_id id : String) (t : MemoryService)
        → (let subject : EvidenceSubject = record { kind_of = kind; id = subject_id } in
            StillVerified t (append_evidence_link (env.clock 1) subject id t).1)
    unfolding append_evidence_link
    append_evidence_link-StillVerified EvidenceSubjectType.qualification subject_id id t before =
        before
    append_evidence_link-StillVerified EvidenceSubjectType.batch subject_id id t before = before
    append_evidence_link-StillVerified EvidenceSubjectType.incident subject_id id t before = before
    append_evidence_link-StillVerified EvidenceSubjectType.recall subject_id id t before = before
    append_evidence_link-StillVerified EvidenceSubjectType.disposition subject_id id t before =
        before
    append_evidence_link-StillVerified (EvidenceSubjectType.other text) subject_id id t before =
        before

    add_evidence-StillVerified :
        (subject : EvidenceSubject) (input : AddEvidenceInput)
        → lookup (env.new_id 0) s.evidence ≡ none
        → StillVerified s (add_evidence platform env subject input s).1
    unfolding added_evidence
    add_evidence-StillVerified subject input fresh =
        add_evidence_cases (λ r. StillVerified s r.1) platform env subject input s
          (λ _ before. before)
          (λ _ before.
            let trimmed = trimmed_subject subject in
            store_evidence-leaves (HasVerifiedChains platform) platform env trimmed
              (added_evidence platform env subject input s)
              (get_or [] (subject_key trimmed) s.evidence_chains) s
              (append_evidence_link-StillVerified trimmed.kind_of trimmed.id _ _
                (written-HasVerifiedChains platform env trimmed input s fresh before)))

  outcome-StillVerified :
      {A : Type 0} (s : MemoryService) (r : Answer A)
      → StillVerified s r.1
      → StillVerified s (outcome r).1
  outcome-StillVerified s (ok a, s') h before = h before
  outcome-StillVerified s (err e, s') h before = h before

  -- Every call keeps the chains verified.
  pub run-HasVerifiedChains :
      (c : Call) (s : MemoryService) → IsFresh c s → StillVerified s (run platform c s).1
  unfolding run
  run-HasVerifiedChains (Call.creates_qualification env input) s fresh =
      outcome-StillVerified s (create_qualification platform env input s)
        (create_qualification-StillVerified env s input)
  run-HasVerifiedChains (Call.submits_qualification env id input) s fresh =
      outcome-StillVerified s (submit_qualification platform env id input s)
        (submit_qualification-StillVerified env s id input)
  run-HasVerifiedChains (Call.reviews_qualification env id input) s fresh =
      outcome-StillVerified s (review_qualification env id input s)
        (review_qualification-StillVerified env s id input)
  run-HasVerifiedChains (Call.records_inspection env id input) s fresh =
      outcome-StillVerified s (record_site_inspection env id input s)
        (record_site_inspection-StillVerified env s id input)
  run-HasVerifiedChains (Call.creates_batch env visited input) s fresh =
      outcome-StillVerified s (create_batch platform env visited input s)
        (create_batch-StillVerified env s visited input)
  run-HasVerifiedChains (Call.records_production env id input) s fresh =
      outcome-StillVerified s (record_batch_production env id input s)
        (record_batch_production-StillVerified env s id input)
  run-HasVerifiedChains (Call.associates_orders env id input) s fresh =
      outcome-StillVerified s (associate_orders env id input s)
        (associate_orders-StillVerified env s id input)
  run-HasVerifiedChains (Call.transitions_batch env id target input) s fresh =
      outcome-StillVerified s (transition_batch env id target input s)
        (transition_batch-StillVerified env s id target input)
  run-HasVerifiedChains (Call.creates_incident env input) s fresh =
      outcome-StillVerified s (create_incident env input s)
        (create_incident-StillVerified env s input)
  run-HasVerifiedChains (Call.transitions_incident env id target input) s fresh =
      outcome-StillVerified s (transition_incident env id target input s)
        (transition_incident-StillVerified env s id target input)
  run-HasVerifiedChains (Call.creates_recall env input) s fresh =
      outcome-StillVerified s (create_recall env input s) (create_recall-StillVerified env s input)
  run-HasVerifiedChains (Call.transitions_recall env id target input) s fresh =
      outcome-StillVerified s (transition_recall env id target input s)
        (transition_recall-StillVerified env s id target input)
  run-HasVerifiedChains (Call.creates_disposition env input) s fresh =
      outcome-StillVerified s (create_disposition env input s)
        (create_disposition-StillVerified env s input)
  run-HasVerifiedChains (Call.transitions_disposition env id target input) s fresh =
      outcome-StillVerified s (transition_disposition env id target input s)
        (transition_disposition-StillVerified env s id target input)
  run-HasVerifiedChains (Call.adds_evidence env subject input) s fresh =
      outcome-StillVerified s (add_evidence platform env subject input s)
        (add_evidence-StillVerified env s subject input fresh)
