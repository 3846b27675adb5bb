-- ===== src/Safety/Memory/Recalled.antt =====
-- Whether the batches of a recall that was initiated stay recalled, call by call.
pub mod Calls
use chihuo.Base.{
  ℕ, String, Bool, true, false, not, Option, some, none, List, [], ◌∷◌, ◌≡◌, refl, sym, subst, ◌⊎◌,
  inl, inr, arith, Option-cases, Result, ok, err, All, if_cases,
}
use chihuo.Base.Text.{is_empty}
use chihuo.Base.Dict.{Dict, lookup, get_or, insert, Each, Each-insert, lookup-insert_self}
use chihuo.Domain.{Time}
use chihuo.Safety.Status.{
  QualificationStatus, FoodBatchStatus, IncidentStatus, RecallStatus, DispositionStatus,
}
use chihuo.Safety.Inputs.{
  CreateQualificationInput, SubmitQualificationInput, ReviewQualificationInput, SiteInspectionInput,
  CreateBatchInput, RecordProductionInput, TransitionInput, AssociateOrdersInput,
  CreateIncidentInput, IncidentTransitionInput, CreateRecallInput, RecallTransitionInput,
  CreateDispositionInput, AddEvidenceInput,
}
use chihuo.Safety.Platform.{Platform}
use chihuo.Safety.Transitions.{can_transition_batch, can_transition_recall}
use chihuo.Safety.Kinds.{EvidenceSubjectType}
use chihuo.Safety.Model.{
  FoodBatch, FoodSafetyIncident, Recall, Disposition, EvidenceSubject, Evidence,
}
use chihuo.Safety.Zero.{zero_recall}
use chihuo.Safety.Errors.{Error, refuse}
use chihuo.Safety.Memory.{MemoryService, Env, Answer, answer, fail, unless_error}
use chihuo.Safety.Memory.Recalls.{
  drafted_recall, with_merchant, open_recall, put_recall, carry_out, moved_recall, targeted_recall,
  recall_order_refusal, recall_transition_refusal, is_recalled, recalled_batch, can_mark_recalled,
  can_mark_all, mark_recalled, mark_all, create_recall, transition_recall,
}
use chihuo.Safety.Memory.Recalls.Marks.{mark_recalled_cases, mark_all_each}
use chihuo.Safety.Memory.Dispositions.{
  planned_disposition, plan, attach_to_recall, settle_disposition, count_disposed,
  counts_as_disposed, create_disposition, transition_disposition,
}
use chihuo.Safety.Memory.Chains.{trimmed_subject, written, append_evidence_link, add_evidence}
use chihuo.Safety.Memory.Cases.{
  create_recall_cases, transition_recall_cases, create_disposition_cases,
  transition_disposition_cases, add_evidence_cases, added_evidence, store_evidence-leaves,
}
use chihuo.Safety.Memory.Lifecycle.{BatchStep, BatchLife, BatchesLive}
use chihuo.Safety.Memory.Lifecycle.Batches.{mark_all-BatchesLive}
use chihuo.Safety.Memory.Lifecycle.Calls.{initiated-can_mark_all}

-- The batch has been recalled, and perhaps disposed of since.
unfoldable pub is_held : FoodBatchStatus → Bool
is_held FoodBatchStatus.recalled = true
is_held FoodBatchStatus.disposed = true
is_held _ = false

-- The recall has been initiated.
unfoldable pub is_initiated : RecallStatus → Bool
is_initiated RecallStatus.initiated = true
is_initiated RecallStatus.in_progress = true
is_initiated RecallStatus.completed = true
is_initiated _ = false

held_step :
    (s t : FoodBatchStatus) → is_held s ≡ true → can_transition_batch s t ≡ true → is_held t ≡ true
unfolding is_held can_transition_batch
held_step s t h allowed = ground arith

BatchLife-held :
    {b b' : FoodBatch} → BatchLife b b' → is_held b.status ≡ true → is_held b'.status ≡ true
BatchLife-held BatchLife.same h = h
BatchLife-held (BatchLife.then life (BatchStep.moves change _ _ _ allowed)) h =
    held_step _ change.to (BatchLife-held life h) allowed
BatchLife-held (BatchLife.then life (BatchStep.produces _ _ _ _ _ _ _ _)) h = BatchLife-held life h
BatchLife-held (BatchLife.then life (BatchStep.takes _ _ _)) h = BatchLife-held life h
BatchLife-held (BatchLife.then life (BatchStep.joins_recall _ _)) h = BatchLife-held life h
BatchLife-held (BatchLife.then life (BatchStep.gains_evidence _ _)) h = BatchLife-held life h

-- The batch is there, and held.
abbrev pub IsHeld : Dict FoodBatch → String → Type 0
IsHeld m id = (b : FoodBatch) × (lookup id m ≡ some b) × (is_held b.status ≡ true)

IsHeld-later : {m m' : Dict FoodBatch} (id : String) → BatchesLive m m' → IsHeld m id → IsHeld m' id
IsHeld-later id life (b, found, held) =
    let (b', found', lived) = life.stays id b found in (b', found', BatchLife-held lived held)

carried_over :
    {m m' : Dict FoodBatch} (ids : List String)
    → BatchesLive m m'
    → All (IsHeld m) ids
    → All (IsHeld m') ids
carried_over [] life h = tt
carried_over (id ∷ ids) life h = (IsHeld-later id life h.0, carried_over ids life h.1)

-- A recall that was initiated has all its batches held.
abbrev pub IsHonoured : Dict FoodBatch → Recall → Type 0
IsHonoured m recall = (is_initiated recall.status ≡ false) ⊎ All (IsHeld m) recall.batch_ids

pub IsHonoured-later :
    {m m' : Dict FoodBatch} (recall : Recall)
    → BatchesLive m m'
    → IsHonoured m recall
    → IsHonoured m' recall
IsHonoured-later recall life (inl never) = inl never
IsHonoured-later recall life (inr held) = inr (carried_over recall.batch_ids life held)

recalled_is_held : (status : FoodBatchStatus) → is_recalled status ≡ true → is_held status ≡ true
unfolding is_recalled is_held
recalled_is_held status h = ground arith

module _ (actor_id reason : String) (now : Time) where
  mark_recalled-IsHeld :
      (id : String) (m : Dict FoodBatch)
      → can_mark_recalled m id ≡ none
      → IsHeld (mark_recalled actor_id reason now id m) id
  unfolding recalled_batch is_held
  mark_recalled-IsHeld id m can =
      mark_recalled_cases actor_id reason now (λ r. IsHeld r id) id m can
        (λ b found marked. (b, found, recalled_is_held b.status marked))
        (λ b _ _. (recalled_batch actor_id reason now b, lookup-insert_self id _ m, refl))

  mark_all-IsHeld :
      (ids : List String) (m : Dict FoodBatch)
      → can_mark_all m ids ≡ none
      → All (IsHeld (mark_all actor_id reason now ids m)) ids
  mark_all-IsHeld =
      mark_all_each actor_id reason now (λ id m. IsHeld m id) mark_recalled-IsHeld
        (λ j ids m can. IsHeld-later j (mark_all-BatchesLive actor_id reason now ids m can))

-- A service keeps the recalls of an earlier one honoured with its own batches.
abbrev pub StillHonours : MemoryService → MemoryService → Type 0
StillHonours s t =
    Each (λ _. IsHonoured t.batches) s.recalls → Each (λ _. IsHonoured t.batches) t.recalls

-- A recall goes from INITIATED to IN_PROGRESS and from there to COMPLETED.
was_initiated :
    (target status : RecallStatus)
    → can_transition_recall status target ≡ true
    → (is_initiated target ≡ false)
      ⊎ ((target ≡ RecallStatus.initiated) ⊎ (is_initiated status ≡ true))
unfolding can_transition_recall is_initiated
was_initiated target status allowed = ground arith

order_allows :
    (target : RecallStatus) (recall : Recall)
    → recall_order_refusal target recall ≡ none
    → can_transition_recall recall.status target ≡ true
unfolding recall_order_refusal refuse
order_allows target recall passed = ground arith

moved-same :
    (env : Env) (target : RecallStatus) (input : RecallTransitionInput) (recall : Recall)
    → (let next = moved_recall env target input recall in
        (next.status ≡ target) × (next.batch_ids ≡ recall.batch_ids))
unfolding moved_recall targeted_recall
moved-same env target input recall = ground arith

initiated-IsHonoured :
    (env : Env) (id : String) (target : RecallStatus) (input : RecallTransitionInput)
    (recall : Recall) (incident : FoodSafetyIncident) (s : MemoryService)
    → target ≡ RecallStatus.initiated
    → recall_transition_refusal id target input s recall incident ≡ none
    → All (IsHeld (carry_out env target input recall incident s).batches) recall.batch_ids
unfolding carry_out
initiated-IsHonoured env id RecallStatus.initiated input recall incident s is passed =
    mark_all-IsHeld input.transition.actor_id recall.reason (env.clock 0) recall.batch_ids s.batches
      (initiated-can_mark_all id input s recall incident passed)
initiated-IsHonoured env id _ input recall incident s is passed = ground arith

still-IsHeld :
    (m : Dict FoodBatch) (recall : Recall)
    → is_initiated recall.status ≡ true
    → IsHonoured m recall
    → All (IsHeld m) recall.batch_ids
still-IsHeld m recall was (inl never) = ground arith
still-IsHeld m recall was (inr held) = held

moved-IsHonoured :
    (env : Env) (id : String) (target : RecallStatus) (input : RecallTransitionInput)
    (recall : Recall) (incident : FoodSafetyIncident) (s : MemoryService)
    → recall_order_refusal target recall ≡ none
    → recall_transition_refusal id target input s recall incident ≡ none
    → (let m = (carry_out env target input recall incident s).batches in
        IsHonoured m recall → IsHonoured m (moved_recall env target input recall))
moved-IsHonoured env id target input recall incident s ordered passed before =
    let same = moved-same env target input recall in
    rw (same.0, same.1)
      (elim (was_initiated target recall.status (order_allows target recall ordered)) [
        | inl never ↦ inl never
        | inr (inl now) ↦
            inr (initiated-IsHonoured env id target input recall incident s now passed)
        | inr (inr was) ↦ inr (still-IsHeld _ recall was before)
      ])

carry_out-same :
    (env : Env) (target : RecallStatus) (input : RecallTransitionInput) (recall : Recall)
    (incident : FoodSafetyIncident) (s : MemoryService)
    → (carry_out env target input recall incident s).recalls ≡ s.recalls
unfolding carry_out
carry_out-same env target input recall incident s = ground arith

pub transition_recall-StillHonours :
    (env : Env) (id : String) (target : RecallStatus) (input : RecallTransitionInput)
    (s : MemoryService)
    → StillHonours s (transition_recall env id target input s).1
unfolding put_recall
transition_recall-StillHonours env id target input s =
    transition_recall_cases (λ r. StillHonours s r.1) env id target input s (λ _ before. before)
      (λ recall incident found ordered _ passed before.
        rw (carry_out-same env target input recall incident s) (
          Each-insert _ id _ s.recalls
            (moved-IsHonoured env id target input recall incident s ordered passed
              (before id recall found))
            before))

pub create_recall-StillHonours :
    (env : Env) (input : CreateRecallInput) (s : MemoryService)
    → StillHonours s (create_recall env input s).1
unfolding open_recall with_merchant drafted_recall is_initiated
create_recall-StillHonours env input s =
    create_recall_cases (λ r. StillHonours s r.1) env input s (λ _ before. before)
      (λ _ _ _. Each-insert _ _ _ s.recalls (inl refl))

-- The recall under a key, or the zero recall, which was never initiated.
indexed-IsHonoured :
    (m : Dict FoodBatch) (id : String) (recalls : Dict Recall)
    → Each (λ _. IsHonoured m) recalls
    → IsHonoured m (get_or zero_recall id recalls)
unfolding get_or zero_recall is_initiated
indexed-IsHonoured m id recalls before = elim (Option-cases (lookup id recalls)) [
  | inl missing ↦ rw (missing, get_or) (inl refl)
  | inr (recall, found) ↦ rw (found, get_or) (before id recall found)
]

attach_to_recall-IsHonoured :
    (m : Dict FoodBatch) (env : Env) (d : Disposition) (recalls : Dict Recall)
    → Each (λ _. IsHonoured m) recalls
    → Each (λ _. IsHonoured m) (attach_to_recall env d recalls)
unfolding attach_to_recall
attach_to_recall-IsHonoured m env d recalls before =
    if_cases (Each (λ _. IsHonoured m)) (is_empty d.recall_id) recalls _ (λ _. before)
      (λ _. Each-insert _ _ _ recalls (indexed-IsHonoured m d.recall_id recalls before) before)

count_disposed-IsHonoured :
    (m : Dict FoodBatch) (env : Env) (target : DispositionStatus) (d : Disposition)
    (recalls : Dict Recall)
    → Each (λ _. IsHonoured m) recalls
    → Each (λ _. IsHonoured m) (count_disposed env target d recalls)
unfolding count_disposed
count_disposed-IsHonoured m env target d recalls before =
    if_cases (Each (λ _. IsHonoured m)) (counts_as_disposed target d) _ recalls
      (λ _. Each-insert _ _ _ recalls (indexed-IsHonoured m d.recall_id recalls before) before)
      (λ _. before)

pub create_disposition-StillHonours :
    (env : Env) (input : CreateDispositionInput) (s : MemoryService)
    → StillHonours s (create_disposition env input s).1
unfolding plan
create_disposition-StillHonours env input s =
    create_disposition_cases (λ r. StillHonours s r.1) env input s (λ _ before. before)
      (λ _ _ _. attach_to_recall-IsHonoured s.batches env (planned_disposition env input) s.recalls)

pub transition_disposition-StillHonours :
    (env : Env) (id : String) (target : DispositionStatus) (input : TransitionInput)
    (s : MemoryService)
    → StillHonours s (transition_disposition env id target input s).1
unfolding settle_disposition
transition_disposition-StillHonours env id target input s =
    transition_disposition_cases (λ r. StillHonours s r.1) env id target input s
      (λ _ before. before) (λ d _. count_disposed-IsHonoured s.batches env target d s.recalls)

append_evidence_link-StillHonours :
    (now : Time) (kind : EvidenceSubjectType) (subject_id id : String) (s s' : MemoryService)
    → s'.recalls ≡ s.recalls
    → (let subject : EvidenceSubject = record { kind_of = kind; id = subject_id } in
        StillHonours s (append_evidence_link now subject id s').1)
unfolding append_evidence_link
append_evidence_link-StillHonours now EvidenceSubjectType.recall subject_id id s s' same before =
    rw same (
      Each-insert _ subject_id _ s.recalls (indexed-IsHonoured _ subject_id s.recalls before)
        before)
append_evidence_link-StillHonours now _ subject_id id s s' same before = rw same before

pub add_evidence-StillHonours :
    (platform : Platform) (env : Env) (named : EvidenceSubject) (input : AddEvidenceInput)
    (s : MemoryService)
    → StillHonours s (add_evidence platform env named input s).1
unfolding written
add_evidence-StillHonours platform env named input s =
    add_evidence_cases (λ r. StillHonours s r.1) platform env named input s (λ _ before. before)
      (λ _.
        store_evidence-leaves (StillHonours s) platform env (trimmed_subject named)
          (added_evidence platform env named input s) _ s
          (append_evidence_link-StillHonours (env.clock 1) (trimmed_subject named).kind_of
            (trimmed_subject named).id _ s _ refl))
