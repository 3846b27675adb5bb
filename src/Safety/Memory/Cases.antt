-- ===== src/Safety/Memory/Cases.antt =====
-- What each call of the in-memory service does: it fails and returns the service as it was, or it
-- passes its checks and writes.
use chihuo.Base.{String, Option, some, none, List, [], ◌≡◌, true, arith}
use chihuo.Base.Dict.{lookup, get_or}
use chihuo.Safety.Status.{FoodBatchStatus, IncidentStatus, RecallStatus, DispositionStatus}
use chihuo.Safety.Model.{
  MerchantQualification, FoodBatch, FoodSafetyIncident, Recall, Disposition, EvidenceSubject,
  Evidence,
}
use chihuo.Safety.Inputs.{
  CreateQualificationInput, SubmitQualificationInput, ReviewQualificationInput, SiteInspectionInput,
  CreateBatchInput, RecordProductionInput, TransitionInput, AssociateOrdersInput,
  CreateIncidentInput, IncidentTransitionInput, CreateRecallInput, RecallTransitionInput,
  CreateDispositionInput, AddEvidenceInput,
}
use chihuo.Safety.Errors.{Error, refuse}
use chihuo.Safety.Platform.{Platform}
use chihuo.Safety.Memory.{
  MemoryService, Env, Answer, answer, fail, unless_error, unless_error_cases, guarded_cases,
}
use chihuo.Safety.Memory.Qualifications.{
  put_qualification, drafted_qualification, submitted, reviewed, inspected, review_refusal,
  inspection_refusal, create_qualification, submit_qualification, review_qualification,
  record_site_inspection,
}
use chihuo.Safety.Memory.Batches.{
  put_batch, drafted_batch, create_batch_refusal, produced, production_refusal,
  production_input_refusal, link_orders, associate, order_ids, total_quantity, batch_refusal,
  transitioned, takes_orders, create_batch, record_batch_production, associate_orders,
  transition_batch,
}
use chihuo.Base.Int.{pos}
use chihuo.Safety.Memory.Incidents.{
  put_incident, reported_incident, contain, incident_refusal, moved_incident, create_incident,
  transition_incident,
}
use chihuo.Safety.Memory.Recalls.{
  drafted_recall, recall_refusal, with_merchant, open_recall, put_recall, carry_out, moved_recall,
  recall_transition_refusal, recall_order_refusal, transition_found, create_recall,
  transition_recall,
}
use chihuo.Safety.Memory.Dispositions.{
  planned_disposition, plan, plan_refusal, settle_disposition, create_disposition,
  transition_disposition,
}
use chihuo.Safety.Memory.Chains.{
  subject_key, trimmed_subject, linked_evidence, hashed, evidence_refusal, written,
  append_evidence_link, store_evidence, add_evidence,
}

pub create_qualification_cases {κ} :
    (P : Answer MerchantQualification → Type κ) (platform : Platform) (env : Env)
    (input : CreateQualificationInput) (s : MemoryService)
    → ((e : Error) → P (fail e s))
    → P (put_qualification (drafted_qualification env input).id (drafted_qualification env input) s)
    → P (create_qualification platform env input s)
unfolding create_qualification
create_qualification_cases P platform env input s failed committed =
    unless_error_cases P _ s _ failed (λ _. committed)

pub submit_qualification_cases {κ} :
    (P : Answer MerchantQualification → Type κ) (platform : Platform) (env : Env) (id : String)
    (input : SubmitQualificationInput) (s : MemoryService)
    → ((e : Error) → P (fail e s))
    → ((v : MerchantQualification)
        → lookup id s.qualifications ≡ some v
        → P (put_qualification id (submitted env input v) s))
    → P (submit_qualification platform env id input s)
unfolding submit_qualification
submit_qualification_cases P platform env id input s failed committed =
    guarded_cases P _ _ _ s _ failed (λ v _ found _. committed v found)

pub review_qualification_cases {κ} :
    (P : Answer MerchantQualification → Type κ) (env : Env) (id : String)
    (input : ReviewQualificationInput) (s : MemoryService)
    → ((e : Error) → P (fail e s))
    → ((v : MerchantQualification)
        → lookup id s.qualifications ≡ some v
        → review_refusal env id input s v ≡ none
        → P (put_qualification id (reviewed env id input v) s))
    → P (review_qualification env id input s)
unfolding review_qualification
review_qualification_cases P env id input s failed committed =
    guarded_cases P _ _ _ s _ failed (λ v _ found passed. committed v found passed)

pub record_site_inspection_cases {κ} :
    (P : Answer MerchantQualification → Type κ) (env : Env) (id : String)
    (input : SiteInspectionInput) (s : MemoryService)
    → ((e : Error) → P (fail e s))
    → ((v : MerchantQualification)
        → lookup id s.qualifications ≡ some v
        → inspection_refusal id input s v ≡ none
        → P (put_qualification id (inspected env id input v) s))
    → P (record_site_inspection env id input s)
unfolding record_site_inspection
record_site_inspection_cases P env id input s failed committed =
    guarded_cases P _ _ _ s _ failed (λ v _ found passed. committed v found passed)

pub create_batch_cases {κ} :
    (P : Answer FoodBatch → Type κ) (platform : Platform) (env : Env)
    (visited : List MerchantQualification) (input : CreateBatchInput) (s : MemoryService)
    → ((e : Error) → P (fail e s))
    → (create_batch_refusal platform env visited input ≡ none
        → P (put_batch (drafted_batch env input).id (drafted_batch env input) s))
    → P (create_batch platform env visited input s)
unfolding create_batch
create_batch_cases P platform env visited input s failed committed =
    unless_error_cases P _ s _ failed committed

pub record_batch_production_cases {κ} :
    (P : Answer FoodBatch → Type κ) (env : Env) (id : String) (input : RecordProductionInput)
    (s : MemoryService)
    → ((e : Error) → P (fail e s))
    → ((v : FoodBatch)
        → production_input_refusal env input ≡ none
        → lookup id s.batches ≡ some v
        → production_refusal env input v ≡ none
        → P (put_batch id (produced env input v) s))
    → P (record_batch_production env id input s)
unfolding record_batch_production
record_batch_production_cases P env id input s failed committed =
    guarded_cases P _ _ _ s _ failed committed

pub associate_orders_cases {κ} :
    (P : Answer FoodBatch → Type κ) (env : Env) (id : String) (input : AssociateOrdersInput)
    (s : MemoryService)
    → ((e : Error) → P (fail e s))
    → ((v : FoodBatch)
        → lookup id s.batches ≡ some v
        → takes_orders v.status ≡ true
        → P (
            link_orders env id v s (
              associate v.quantity_planned s.order_batch input.actor_id
                (env.clock 0)
                (order_ids v.orders)
                (total_quantity (pos 0) v.orders)
                input.orders)))
    → P (associate_orders env id input s)
unfolding associate_orders refuse
associate_orders_cases P env id input s failed committed =
    guarded_cases P _ _ _ s _ failed (λ v _ found passed. committed v found (ground arith))

pub transition_batch_cases {κ} :
    (P : Answer FoodBatch → Type κ) (env : Env) (id : String) (target : FoodBatchStatus)
    (input : TransitionInput) (s : MemoryService)
    → ((e : Error) → P (fail e s))
    → ((v : FoodBatch)
        → lookup id s.batches ≡ some v
        → batch_refusal id target input s v ≡ none
        → P (put_batch id (transitioned env target input v) s))
    → P (transition_batch env id target input s)
unfolding transition_batch
transition_batch_cases P env id target input s failed committed =
    guarded_cases P _ _ _ s _ failed (λ v _ found passed. committed v found passed)

pub create_incident_cases {κ} :
    (P : Answer FoodSafetyIncident → Type κ) (env : Env) (input : CreateIncidentInput)
    (s : MemoryService)
    → ((e : Error) → P (fail e s))
    → P (put_incident (reported_incident env input).id (reported_incident env input) s)
    → P (create_incident env input s)
unfolding create_incident
create_incident_cases P env input s failed committed =
    unless_error_cases P _ s _ failed (λ _. committed)

pub transition_incident_cases {κ} :
    (P : Answer FoodSafetyIncident → Type κ) (env : Env) (id : String) (target : IncidentStatus)
    (input : IncidentTransitionInput) (s : MemoryService)
    → ((e : Error) → P (fail e s))
    → ((v : FoodSafetyIncident)
        → lookup id s.incidents ≡ some v
        → incident_refusal id target input s v ≡ none
        → P (
            let after = contain env target input v.batch_ids s.batches in
            unless_error after.0
              (record s { batches = after.1 })
              (put_incident id
                (moved_incident env target input v)
                (record s { batches = after.1 }))))
    → P (transition_incident env id target input s)
unfolding transition_incident
transition_incident_cases P env id target input s failed committed =
    guarded_cases P _ _ _ s _ failed (λ v _ found passed. committed v found passed)

pub create_recall_cases {κ} :
    (P : Answer Recall → Type κ) (env : Env) (input : CreateRecallInput) (s : MemoryService)
    → ((e : Error) → P (fail e s))
    → ((v : FoodSafetyIncident)
        → lookup (drafted_recall env input).incident_id s.incidents ≡ some v
        → recall_refusal s.batches (drafted_recall env input) v ≡ none
        → P (open_recall env (with_merchant v (drafted_recall env input)) v s))
    → P (create_recall env input s)
unfolding create_recall
create_recall_cases P env input s failed committed =
    guarded_cases P _ _ _ s _ failed (λ v _ found passed. committed v found passed)

transition_found_cases {κ} :
    (P : Answer Recall → Type κ) (env : Env) (id : String) (target : RecallStatus)
    (input : RecallTransitionInput) (s : MemoryService) (recall : Recall)
    → ((e : Error) → P (fail e s))
    → ((incident : FoodSafetyIncident)
        → lookup recall.incident_id s.incidents ≡ some incident
        → recall_transition_refusal id target input s recall incident ≡ none
        → P (
            put_recall id
              (moved_recall env target input recall)
              (carry_out env target input recall incident s)))
    → P (transition_found env id target input s recall)
unfolding transition_found
transition_found_cases P env id target input s recall failed committed =
    guarded_cases P none _ _ s _ failed (λ incident _ there passed. committed incident there passed)

pub transition_recall_cases {κ} :
    (P : Answer Recall → Type κ) (env : Env) (id : String) (target : RecallStatus)
    (input : RecallTransitionInput) (s : MemoryService)
    → ((e : Error) → P (fail e s))
    → ((recall : Recall) (incident : FoodSafetyIncident)
        → lookup id s.recalls ≡ some recall
        → recall_order_refusal target recall ≡ none
        → lookup recall.incident_id s.incidents ≡ some incident
        → recall_transition_refusal id target input s recall incident ≡ none
        → P (
            put_recall id
              (moved_recall env target input recall)
              (carry_out env target input recall incident s)))
    → P (transition_recall env id target input s)
unfolding transition_recall
transition_recall_cases P env id target input s failed committed =
    guarded_cases P _ _ _ s _ failed (λ recall _ found allowed.
      transition_found_cases P env id target input s recall failed
        (λ incident there passed. committed recall incident found allowed there passed))

pub create_disposition_cases {κ} :
    (P : Answer Disposition → Type κ) (env : Env) (input : CreateDispositionInput)
    (s : MemoryService)
    → ((e : Error) → P (fail e s))
    → ((v : FoodSafetyIncident)
        → lookup (planned_disposition env input).incident_id s.incidents ≡ some v
        → plan_refusal s (planned_disposition env input) v ≡ none
        → P (plan env (planned_disposition env input) v s))
    → P (create_disposition env input s)
unfolding create_disposition
create_disposition_cases P env input s failed committed =
    guarded_cases P _ _ _ s _ failed (λ v _ found passed. committed v found passed)

pub transition_disposition_cases {κ} :
    (P : Answer Disposition → Type κ) (env : Env) (id : String) (target : DispositionStatus)
    (input : TransitionInput) (s : MemoryService)
    → ((e : Error) → P (fail e s))
    → ((v : Disposition)
        → lookup id s.dispositions ≡ some v
        → P (settle_disposition env id target input v s))
    → P (transition_disposition env id target input s)
unfolding transition_disposition
transition_disposition_cases P env id target input s failed committed =
    guarded_cases P _ _ _ s _ failed (λ v _ found _. committed v found)

-- The evidence that AddEvidence stores.
unfoldable pub added_evidence :
    Platform → Env → EvidenceSubject → AddEvidenceInput → MemoryService → Evidence
unfolding hashed linked_evidence trimmed_subject get_or subject_key
added_evidence platform env named input s = hashed platform (
    linked_evidence platform env (trimmed_subject named) input s.evidence
      (get_or [] (subject_key (trimmed_subject named)) s.evidence_chains))

pub add_evidence_cases {κ} :
    (P : Answer Evidence → Type κ) (platform : Platform) (env : Env) (named : EvidenceSubject)
    (input : AddEvidenceInput) (s : MemoryService)
    → ((e : Error) → P (fail e s))
    → (evidence_refusal platform env
            (trimmed_subject named)
            (added_evidence platform env named input s)
            s
          ≡ none
        → P (
            store_evidence platform env
              (trimmed_subject named)
              (added_evidence platform env named input s)
              (get_or [] (subject_key (trimmed_subject named)) s.evidence_chains)
              s))
    → P (add_evidence platform env named input s)
unfolding add_evidence added_evidence
add_evidence_cases P platform env named input s failed committed =
    unless_error_cases P _ s _ failed committed

unless_same-leaves {κ} :
    {A : Type 0} (Q : MemoryService → Type κ) (o : Option Error) (s : MemoryService) (a : A)
    → Q s
    → Q (unless_error o s (answer a s)).1
unfolding unless_error
unless_same-leaves Q none s a h = h
unless_same-leaves Q (some e) s a h = h

-- What the writes of AddEvidence leave behind is what the link to the subject leaves behind.
pub store_evidence-leaves {κ} :
    (Q : MemoryService → Type κ) (platform : Platform) (env : Env) (subject : EvidenceSubject)
    (e : Evidence) (chain : List String) (s : MemoryService)
    → Q (append_evidence_link (env.clock 1) subject e.id (written subject e chain s)).1
    → Q (store_evidence platform env subject e chain s).1
unfolding store_evidence
store_evidence-leaves Q platform env subject e chain s h = unless_same-leaves Q _ _ e h
