-- ===== src/Safety/Transitions/Histories.antt =====
-- Histories of statuses: sequences of allowed transitions of batches, recalls and incidents.
use chihuo.Base.{
  Option, some, none, sym, ◌+◌, Bool-cases, ◌≡◌, refl, Bool, true, false, ◌&&◌, List, [], ◌∷◌, ◌⊎◌,
  inl, inr, arith, ℕ, ◌≤◌, length,
}
use mathlib.Core.List.{Memᴰ}
use chihuo.Safety.Status.{FoodBatchStatus, IncidentStatus}
use chihuo.Safety.Transitions.{can_transition_batch, can_transition_incident}

module _ {A : Type 0} (can_transition : A → A → Bool) where
  -- Each status of the list may follow the one before it, the first one the given status.
  unfoldable pub is_history : A → List A → Bool
  is_history s [] = true
  is_history s (t ∷ ts) = can_transition s t && is_history t ts

-- The last status of a history.
unfoldable pub latest {ℓ} : {A : Type ℓ} → A → List A → A
latest s [] = s
latest s (t ∷ ts) = latest t ts

-- The batch has been taken out of circulation.
unfoldable pub is_withdrawn : FoodBatchStatus → Bool
is_withdrawn FoodBatchStatus.quarantined = true
is_withdrawn FoodBatchStatus.recalled = true
is_withdrawn FoodBatchStatus.disposed = true
is_withdrawn FoodBatchStatus.cancelled = true
is_withdrawn _ = false

pub withdrawn_step :
    (s t : FoodBatchStatus)
    → is_withdrawn s ≡ true
    → can_transition_batch s t ≡ true
    → is_withdrawn t ≡ true
unfolding is_withdrawn can_transition_batch
withdrawn_step s t w h = ground arith

-- A batch that is quarantined, recalled, disposed of or cancelled is so for good: no allowed
-- transitions lead it back into production or delivery.
pub withdrawn_stays :
    (s : FoodBatchStatus) (ts : List FoodBatchStatus)
    → is_withdrawn s ≡ true
    → is_history can_transition_batch s ts ≡ true
    → is_withdrawn (latest s ts) ≡ true
unfolding is_history latest
withdrawn_stays s [] w h = w
withdrawn_stays s (t ∷ ts) w h =
    withdrawn_stays t ts (withdrawn_step s t w (ground arith)) (ground arith)

-- The statuses between a status and COMPLETED when nothing goes wrong; none where COMPLETED is out
-- of reach.
unfoldable pub batch_route : FoodBatchStatus → Option (List FoodBatchStatus)
batch_route FoodBatchStatus.draft = some (
    FoodBatchStatus.scheduled ∷ FoodBatchStatus.producing ∷ FoodBatchStatus.packed
    ∷ FoodBatchStatus.ready_for_handoff ∷ FoodBatchStatus.in_delivery ∷ FoodBatchStatus.completed
    ∷ [])
batch_route FoodBatchStatus.scheduled = some (
    FoodBatchStatus.producing ∷ FoodBatchStatus.packed ∷ FoodBatchStatus.ready_for_handoff
    ∷ FoodBatchStatus.in_delivery ∷ FoodBatchStatus.completed ∷ [])
batch_route FoodBatchStatus.producing = some (
    FoodBatchStatus.packed ∷ FoodBatchStatus.ready_for_handoff ∷ FoodBatchStatus.in_delivery
    ∷ FoodBatchStatus.completed ∷ [])
batch_route FoodBatchStatus.packed = some (
    FoodBatchStatus.ready_for_handoff ∷ FoodBatchStatus.in_delivery ∷ FoodBatchStatus.completed
    ∷ [])
batch_route FoodBatchStatus.ready_for_handoff =
    some (FoodBatchStatus.in_delivery ∷ FoodBatchStatus.completed ∷ [])
batch_route FoodBatchStatus.in_delivery = some (FoodBatchStatus.completed ∷ [])
batch_route FoodBatchStatus.completed = some ([])
batch_route _ = none

batch_route_step :
    (s t : FoodBatchStatus) (ts : List FoodBatchStatus)
    → can_transition_batch s t ≡ true
    → batch_route t ≡ some ts
    → batch_route s ≡ some (t ∷ ts)
unfolding can_transition_batch batch_route
batch_route_step s t ts h r = ground arith

-- A history of allowed transitions that ends with a batch completed went through every stage that
-- was still ahead of it, in their order and through nothing else: a draft was scheduled, produced,
-- packed, made ready and delivered.
pub completed_by_route :
    (s : FoodBatchStatus) (ts : List FoodBatchStatus)
    → is_history can_transition_batch s ts ≡ true
    → latest s ts ≡ FoodBatchStatus.completed
    → batch_route s ≡ some ts
unfolding is_history latest batch_route
completed_by_route s [] h e = rw e refl
completed_by_route s (t ∷ ts) h e =
    batch_route_step s t ts (ground arith) (completed_by_route t ts (ground arith) e)

-- The longest history that a batch in a status can still have.
unfoldable pub batch_steps_left : FoodBatchStatus → ℕ
batch_steps_left FoodBatchStatus.draft = 9
batch_steps_left FoodBatchStatus.scheduled = 8
batch_steps_left FoodBatchStatus.producing = 7
batch_steps_left FoodBatchStatus.packed = 6
batch_steps_left FoodBatchStatus.ready_for_handoff = 5
batch_steps_left FoodBatchStatus.in_delivery = 4
batch_steps_left FoodBatchStatus.completed = 3
batch_steps_left FoodBatchStatus.quarantined = 2
batch_steps_left FoodBatchStatus.recalled = 1
batch_steps_left _ = 0

batch_steps_fall :
    (s t : FoodBatchStatus)
    → can_transition_batch s t ≡ true
    → batch_steps_left t + 1 ≤ batch_steps_left s
unfolding can_transition_batch batch_steps_left
batch_steps_fall s t h = ground arith

-- No batch is transitioned for ever: the length of a history is at most the number of steps left at
-- its first status, nine for a draft.
pub batch_histories_end :
    (s : FoodBatchStatus) (ts : List FoodBatchStatus)
    → is_history can_transition_batch s ts ≡ true
    → length ts ≤ batch_steps_left s
unfolding is_history
batch_histories_end s [] h = ground arith
batch_histories_end s (t ∷ ts) h =
    let here = batch_steps_fall s t (ground arith) in
    let rest = batch_histories_end t ts (ground arith) in omega arith

-- The incident was decided on: it is resolved, dismissed or closed.
unfoldable pub is_decided : IncidentStatus → Bool
is_decided IncidentStatus.resolved = true
is_decided IncidentStatus.dismissed = true
is_decided IncidentStatus.closed = true
is_decided _ = false

closing_step :
    (s t : IncidentStatus)
    → can_transition_incident s t ≡ true
    → is_decided t ≡ true
    → (is_decided s ≡ true) ⊎ ((t ≡ IncidentStatus.resolved) ⊎ (t ≡ IncidentStatus.dismissed))
unfolding can_transition_incident is_decided
closing_step s t h d = ground arith

-- A history that leads an incident from being open to CLOSED resolved it or dismissed it on the way.
pub closed_after_decision :
    (s : IncidentStatus) (ts : List IncidentStatus)
    → is_history can_transition_incident s ts ≡ true
    → is_decided s ≡ false
    → latest s ts ≡ IncidentStatus.closed
    → Memᴰ IncidentStatus.resolved ts ⊎ Memᴰ IncidentStatus.dismissed ts
unfolding is_history latest is_decided
closed_after_decision s [] h d e = ground arith
closed_after_decision s (t ∷ ts) h d e = elim (Bool-cases (is_decided t)) [
  | inr undecided ↦ elim (closed_after_decision t ts (ground arith) undecided e) [
    | inl resolved_later ↦ inl (Memᴰ.tail resolved_later)
    | inr dismissed_later ↦ inr (Memᴰ.tail dismissed_later)
  ]
  | inl decided ↦ elim (closing_step s t (ground arith) decided) [
    | inl before ↦ ground arith
    | inr (inl resolves) ↦ inl (Memᴰ.head (sym resolves))
    | inr (inr dismisses) ↦ inr (Memᴰ.head (sym dismisses))
  ]
]
