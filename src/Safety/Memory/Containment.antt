-- ===== src/Safety/Memory/Containment.antt =====
-- Whether a contained incident's batches stay out of circulation, call by call.
pub mod Calls
use chihuo.Base.{
  ℕ, String, Bool, true, false, not, Option, some, none, List, [], ◌∷◌, ◌≡◌, refl, sym, subst, ◌⊎◌,
  inl, inr, arith, Option-cases, Result, ok, err, All,
}
use chihuo.Base.Text.{trim_space}
use chihuo.Base.Dict.{Dict, lookup, get_or, insert, Each, Each-insert, lookup-insert_self}
use chihuo.Domain.{Time}
use chihuo.Safety.Status.{
  QualificationStatus, FoodBatchStatus, IncidentStatus, RecallStatus, DispositionStatus,
}
use chihuo.Safety.Transitions.Histories.{is_withdrawn, withdrawn_step}
use chihuo.Safety.Kinds.{EvidenceSubjectType}
use chihuo.Safety.Model.{
  MerchantQualification, OrderAssociation, FoodBatch, FoodSafetyIncident, Recall, Disposition,
  EvidenceSubject, Evidence,
}
use chihuo.Safety.Zero.{zero_incident}
use chihuo.Safety.Inputs.{
  CreateIncidentInput, CreateRecallInput, CreateDispositionInput, AddEvidenceInput,
  IncidentTransitionInput, RecallTransitionInput,
}
use chihuo.Safety.Errors.{Error}
use chihuo.Safety.Platform.{Platform}
use chihuo.Safety.Validation.Resources.{is_inactive}
use chihuo.Safety.Memory.{MemoryService, Env, Answer, answer, fail, unless_error}
use chihuo.Safety.Memory.Qualifications.{put_qualification}
use chihuo.Safety.Memory.Batches.{put_batch, link_orders}
use chihuo.Safety.Memory.Incidents.{
  create_incident, transition_incident, put_incident, reported_incident, contain, incident_refusal,
  moved_incident, targeted, can_quarantine_batch, can_quarantine_all, quarantine_batch, quarantined,
  quarantine_all,
}
use chihuo.Safety.Memory.Incidents.Quarantine.{quarantine_batch_cases, quarantine_all_each}
use chihuo.Safety.Memory.Recalls.{
  create_recall, transition_recall, open_recall, recalled_incident, put_recall, carry_out,
  recalling_incident,
}
use chihuo.Safety.Memory.Dispositions.{
  create_disposition, plan, disposed_incident, settle_disposition,
}
use chihuo.Safety.Memory.Chains.{add_evidence, trimmed_subject, written, append_evidence_link}
use chihuo.Safety.Memory.Cases.{
  create_incident_cases, transition_incident_cases, create_recall_cases, create_disposition_cases,
  transition_recall_cases, add_evidence_cases, added_evidence, store_evidence-leaves,
}
use chihuo.Safety.Memory.Calls.{Call, outcome, run}
use chihuo.Safety.Memory.Atomicity.{contained-can_quarantine_all}
use chihuo.Safety.Memory.Lifecycle.{BatchStep, BatchLife, BatchesLive}
use chihuo.Safety.Memory.Lifecycle.Batches.{quarantine_all-BatchesLive}

pub BatchLife-withdrawn :
    {b b' : FoodBatch}
    → BatchLife b b'
    → is_withdrawn b.status ≡ true
    → is_withdrawn b'.status ≡ true
BatchLife-withdrawn BatchLife.same h = h
BatchLife-withdrawn (BatchLife.then life (BatchStep.moves change _ _ _ allowed)) h =
    withdrawn_step _ change.to (BatchLife-withdrawn life h) allowed
BatchLife-withdrawn (BatchLife.then life (BatchStep.produces _ _ _ _ _ _ _ _)) h =
    BatchLife-withdrawn life h
BatchLife-withdrawn (BatchLife.then life (BatchStep.takes _ _ _)) h = BatchLife-withdrawn life h
BatchLife-withdrawn (BatchLife.then life (BatchStep.joins_recall _ _)) h =
    BatchLife-withdrawn life h
BatchLife-withdrawn (BatchLife.then life (BatchStep.gains_evidence _ _)) h =
    BatchLife-withdrawn life h

-- The batch is there, and out of circulation.
abbrev pub IsWithdrawn : Dict FoodBatch → String → Type 0
IsWithdrawn m id = (b : FoodBatch) × (lookup id m ≡ some b) × (is_withdrawn b.status ≡ true)

pub IsWithdrawn-later :
    {m m' : Dict FoodBatch} (id : String) → BatchesLive m m' → IsWithdrawn m id → IsWithdrawn m' id
IsWithdrawn-later id life (b, found, out) =
    let (b', found', lived) = life.stays id b found in (b', found', BatchLife-withdrawn lived out)

-- An incident that was ever contained has all its batches out of circulation.
abbrev pub IsContained : Dict FoodBatch → FoodSafetyIncident → Type 0
IsContained m incident = (incident.contained_at ≡ none) ⊎ All (IsWithdrawn m) incident.batch_ids

carried_over :
    {m m' : Dict FoodBatch} (ids : List String)
    → BatchesLive m m'
    → All (IsWithdrawn m) ids
    → All (IsWithdrawn m') ids
carried_over [] life h = tt
carried_over (id ∷ ids) life h = (IsWithdrawn-later id life h.0, carried_over ids life h.1)

pub IsContained-later :
    {m m' : Dict FoodBatch} (incident : FoodSafetyIncident)
    → BatchesLive m m'
    → IsContained m incident
    → IsContained m' incident
IsContained-later incident life (inl never) = inl never
IsContained-later incident life (inr out) = inr (carried_over incident.batch_ids life out)

-- A batch that is inactive is out of circulation.
inactive_is_withdrawn :
    (status : FoodBatchStatus) → is_inactive status ≡ true → is_withdrawn status ≡ true
unfolding is_inactive is_withdrawn
inactive_is_withdrawn status h = ground arith

module _ (actor_id reason : String) (now : Time) where
  quarantine_batch-IsWithdrawn :
      (id : String) (m : Dict FoodBatch)
      → can_quarantine_batch m id ≡ none
      → IsWithdrawn (quarantine_batch actor_id reason now id m).1 id
  unfolding quarantined is_withdrawn
  quarantine_batch-IsWithdrawn id m can =
      quarantine_batch_cases actor_id reason now (λ r. IsWithdrawn r.1 id) id m can
        (λ b found inactive. (b, found, inactive_is_withdrawn b.status inactive))
        (λ b _ _. (quarantined actor_id reason now b, lookup-insert_self id _ m, refl))

  quarantine_all-IsWithdrawn :
      (ids : List String) (m : Dict FoodBatch)
      → can_quarantine_all m ids ≡ none
      → All (IsWithdrawn (quarantine_all actor_id reason now ids m).1) ids
  quarantine_all-IsWithdrawn =
      quarantine_all_each actor_id reason now (λ id m. IsWithdrawn m id)
        quarantine_batch-IsWithdrawn
        (λ j ids m can.
          IsWithdrawn-later j (quarantine_all-BatchesLive actor_id reason now ids m can))

-- An answer keeps containment: if the incidents before it are contained with the batches after it,
-- so are the incidents after it.
abbrev pub KeepsContained : {A : Type 0} → MemoryService → Answer A → Type 0
KeepsContained s r =
    Each (λ _. IsContained r.1.batches) s.incidents
    → Each (λ _. IsContained r.1.batches) r.1.incidents

moved-IsContained :
    (env : Env) (id : String) (target : IncidentStatus) (input : IncidentTransitionInput)
    (s : MemoryService) (incident : FoodSafetyIncident)
    → incident_refusal id target input s incident ≡ none
    → (let m = (contain env target input incident.batch_ids s.batches).1 in
        IsContained m incident → IsContained m (moved_incident env target input incident))
unfolding contain moved_incident targeted
moved-IsContained env id IncidentStatus.contained input s incident passed before = inr (
    quarantine_all-IsWithdrawn input.transition.actor_id (trim_space input.containment_action)
      (env.clock 0) incident.batch_ids s.batches
      (contained-can_quarantine_all id input s incident passed))
moved-IsContained env id IncidentStatus.reported input s incident passed before = before
moved-IsContained env id IncidentStatus.investigating input s incident passed before = before
moved-IsContained env id IncidentStatus.confirmed input s incident passed before = before
moved-IsContained env id IncidentStatus.recalling input s incident passed before = before
moved-IsContained env id IncidentStatus.compensating input s incident passed before = before
moved-IsContained env id IncidentStatus.resolved input s incident passed before = before
moved-IsContained env id IncidentStatus.closed input s incident passed before = before
moved-IsContained env id IncidentStatus.dismissed input s incident passed before = before
moved-IsContained env id (IncidentStatus.other text) input s incident passed before = before

unless_error-KeepsContained :
    {A : Type 0} (o : Option Error) (s s' s'' : MemoryService) (a : A)
    → s'.incidents ≡ s.incidents
    → KeepsContained s (answer a s'')
    → KeepsContained s (unless_error o s' (answer a s''))
unfolding unless_error
unless_error-KeepsContained none s s' s'' a same h before = h before
unless_error-KeepsContained (some e) s s' s'' a same h before = rw same before

recalling-same :
    (env : Env) (input : RecallTransitionInput) (recall : Recall) (incident : FoodSafetyIncident)
    → (let next = recalling_incident env input recall incident in
        (next.contained_at ≡ incident.contained_at) × (next.batch_ids ≡ incident.batch_ids))
unfolding recalling_incident
recalling-same env input recall incident = ground arith

recalling-IsContained :
    (env : Env) (input : RecallTransitionInput) (recall : Recall) (incident : FoodSafetyIncident)
    (m : Dict FoodBatch)
    → IsContained m incident
    → IsContained m (recalling_incident env input recall incident)
recalling-IsContained env input recall incident m h =
    let same = recalling-same env input recall incident in rw (same.0, same.1) h

carry_out-KeepsContained :
    (env : Env) (target : RecallStatus) (input : RecallTransitionInput) (recall : Recall)
    (incident : FoodSafetyIncident) (s : MemoryService)
    → lookup recall.incident_id s.incidents ≡ some incident
    → KeepsContained s (answer recall (carry_out env target input recall incident s))
unfolding carry_out
carry_out-KeepsContained env RecallStatus.initiated input recall incident s found before =
    Each-insert _ _ _ s.incidents
      (recalling-IsContained env input recall incident _ (before recall.incident_id incident found))
      before
carry_out-KeepsContained env _ input recall incident s found before = before

-- The incident that evidence is linked to, or the zero incident.
linked-IsContained :
    (m : Dict FoodBatch) (id : String) (incidents : Dict FoodSafetyIncident)
    → Each (λ _. IsContained m) incidents
    → IsContained m (get_or zero_incident id incidents)
unfolding get_or zero_incident
linked-IsContained m id incidents before = elim (Option-cases (lookup id incidents)) [
  | inl missing ↦ rw (missing, get_or) (inl refl)
  | inr (incident, found) ↦ rw (found, get_or) (before id incident found)
]

append_evidence_link-KeepsContained :
    (now : Time) (kind : EvidenceSubjectType) (subject_id id : String) (s s' : MemoryService)
    → s'.incidents ≡ s.incidents
    → (let subject : EvidenceSubject = record { kind_of = kind; id = subject_id } in
        KeepsContained s (answer subject (append_evidence_link now subject id s').1))
unfolding append_evidence_link
append_evidence_link-KeepsContained now EvidenceSubjectType.incident subject_id id s s' same
      before =
    rw same (
      Each-insert _ subject_id _ s.incidents (linked-IsContained _ subject_id s.incidents before)
        before)
append_evidence_link-KeepsContained now _ subject_id id s s' same before = rw same before

pub create_incident-KeepsContained :
    (env : Env) (input : CreateIncidentInput) (s : MemoryService)
    → KeepsContained s (create_incident env input s)
unfolding put_incident reported_incident
create_incident-KeepsContained env input s =
    create_incident_cases (KeepsContained s) env input s (λ _ before. before)
      (Each-insert _ _ _ s.incidents (inl refl))

pub transition_incident-KeepsContained :
    (env : Env) (id : String) (target : IncidentStatus) (input : IncidentTransitionInput)
    (s : MemoryService)
    → KeepsContained s (transition_incident env id target input s)
unfolding put_incident
transition_incident-KeepsContained env id target input s =
    transition_incident_cases (KeepsContained s) env id target input s (λ _ before. before)
      (λ incident found passed. unless_error-KeepsContained _ s _ _ _ refl (λ before.
        Each-insert _ id _ s.incidents
          (moved-IsContained env id target input s incident passed (before id incident found))
          before))

pub create_recall-KeepsContained :
    (env : Env) (input : CreateRecallInput) (s : MemoryService)
    → KeepsContained s (create_recall env input s)
unfolding open_recall recalled_incident
create_recall-KeepsContained env input s =
    create_recall_cases (KeepsContained s) env input s (λ _ before. before)
      (λ incident found _ before. Each-insert _ _ _ s.incidents (before _ incident found) before)

pub create_disposition-KeepsContained :
    (env : Env) (input : CreateDispositionInput) (s : MemoryService)
    → KeepsContained s (create_disposition env input s)
unfolding plan disposed_incident
create_disposition-KeepsContained env input s =
    create_disposition_cases (KeepsContained s) env input s (λ _ before. before)
      (λ incident found _ before. Each-insert _ _ _ s.incidents (before _ incident found) before)

pub transition_recall-KeepsContained :
    (env : Env) (id : String) (target : RecallStatus) (input : RecallTransitionInput)
    (s : MemoryService)
    → KeepsContained s (transition_recall env id target input s)
unfolding put_recall
transition_recall-KeepsContained env id target input s =
    transition_recall_cases (KeepsContained s) env id target input s (λ _ before. before)
      (λ recall incident _ _ found _.
        carry_out-KeepsContained env target input recall incident s found)

pub add_evidence-KeepsContained :
    (platform : Platform) (env : Env) (named : EvidenceSubject) (input : AddEvidenceInput)
    (s : MemoryService)
    → KeepsContained s (add_evidence platform env named input s)
unfolding written
add_evidence-KeepsContained platform env named input s =
    add_evidence_cases (KeepsContained s) platform env named input s (λ _ before. before)
      (λ _.
        store_evidence-leaves
          (λ t.
            Each (λ _. IsContained t.batches) s.incidents
            → Each (λ _. IsContained t.batches) t.incidents)
          platform env (trimmed_subject named) (added_evidence platform env named input s) _ s
          (append_evidence_link-KeepsContained (env.clock 1) (trimmed_subject named).kind_of
            (trimmed_subject named).id _ s _ refl))
