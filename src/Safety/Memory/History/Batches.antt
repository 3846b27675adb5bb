-- ===== src/Safety/Memory/History/Batches.antt =====
-- What the life of a batch means for its history and quantities, in every service that calls lead to.
use Prim.{Unit, tt}
use chihuo.Base.{String, true, some, List, [], ◌∷◌, ◌++◌, ◌≡◌, refl, sym, subst, ◌∙◌, arith}
use chihuo.Base.Dict.{lookup}
use chihuo.Base.Int.{pos, ◌≤ℤ◌}
use chihuo.Safety.Status.{FoodBatchStatus}
use chihuo.Safety.Transitions.{can_transition_batch}
use chihuo.Safety.Transitions.Histories.{is_history, latest, batch_route, completed_by_route}
use chihuo.Safety.Model.{StatusChange, FoodBatch}
use chihuo.Safety.Platform.{Platform}
use chihuo.Safety.Memory.{MemoryService}
use chihuo.Safety.Memory.Lifecycle.{BatchStep, BatchLife, IsNewBatch}
use chihuo.Safety.Memory.History.{Reachable, batches_have_lived}

-- The statuses of a history, in order.
unfoldable pub statuses : List (StatusChange FoodBatchStatus) → List FoodBatchStatus
statuses [] = []
statuses (change ∷ changes) = change.to ∷ statuses changes

statuses-append :
    (changes : List (StatusChange FoodBatchStatus)) (change : StatusChange FoodBatchStatus)
    → statuses (changes ++ (change ∷ [])) ≡ statuses changes ++ (change.to ∷ [])
unfolding statuses
statuses-append [] change = refl
statuses-append (first ∷ changes) change = rw (statuses-append changes change) refl

history-append :
    (s t : FoodBatchStatus) (ts : List FoodBatchStatus)
    → is_history can_transition_batch s ts ≡ true
    → can_transition_batch (latest s ts) t ≡ true
    → (is_history can_transition_batch s (ts ++ (t ∷ [])) ≡ true) × (latest s (ts ++ (t ∷ [])) ≡ t)
unfolding is_history latest
history-append s t [] h allowed = (ground arith, refl)
history-append s t (first ∷ ts) h allowed =
    let rest = history-append first t ts (ground arith) allowed in (ground arith, rest.1)

-- Each change of the history starts at the status where the one before it ended, the first one at the
-- given status.
abbrev pub IsLinked : FoodBatchStatus → List (StatusChange FoodBatchStatus) → Type 0
IsLinked s [] = Unit
IsLinked s (change ∷ changes) = (change.from ≡ s) × IsLinked change.to changes

IsLinked-append :
    (s : FoodBatchStatus) (changes : List (StatusChange FoodBatchStatus))
    (change : StatusChange FoodBatchStatus)
    → IsLinked s changes
    → change.from ≡ latest s (statuses changes)
    → IsLinked s (changes ++ (change ∷ []))
unfolding statuses latest
IsLinked-append s [] change linked from = (from, tt)
IsLinked-append s (first ∷ changes) change (start, linked) from =
    (start, IsLinked-append first.to changes change linked from)

-- A batch's history is an allowed sequence from DRAFT to its status.
abbrev pub IsTraced : FoodBatch → Type 0
IsTraced b =
    (is_history can_transition_batch FoodBatchStatus.draft (statuses b.status_history) ≡ true)
    × (latest FoodBatchStatus.draft (statuses b.status_history) ≡ b.status)
    × IsLinked FoodBatchStatus.draft b.status_history

life-IsTraced : {first b : FoodBatch} → IsNewBatch first → BatchLife first b → IsTraced b
life-IsTraced new BatchLife.same =
    rw (new.untouched, new.drafted)
      (unfold is_history in unfold statuses in refl, unfold latest in unfold statuses in refl, tt)
life-IsTraced new (BatchLife.then {c = c} life (BatchStep.moves change _ _ from allowed)) =
    let (allowed_so_far, at_status, linked) = life-IsTraced new life in
    let step = subst (λ x. can_transition_batch x change.to ≡ true) (sym at_status) allowed in
    let more =
      history-append FoodBatchStatus.draft change.to (statuses c.status_history) allowed_so_far
        step in
    let last =
      IsLinked-append FoodBatchStatus.draft c.status_history change linked (from ∙ sym at_status) in
    rw (statuses-append c.status_history change) (more.0, more.1, last)
life-IsTraced new (BatchLife.then life (BatchStep.produces _ _ _ _ _ _ _ _)) =
    life-IsTraced new life
life-IsTraced new (BatchLife.then life (BatchStep.takes _ _ _)) = life-IsTraced new life
life-IsTraced new (BatchLife.then life (BatchStep.joins_recall _ _)) = life-IsTraced new life
life-IsTraced new (BatchLife.then life (BatchStep.gains_evidence _ _)) = life-IsTraced new life

-- The quantities of a batch.
abbrev pub HasQuantities : FoodBatch → Type 0
HasQuantities b =
    (pos 0 ≤ℤ b.quantity_remaining)
    × (b.quantity_remaining ≤ℤ b.quantity_produced)
    × (b.quantity_produced ≤ℤ b.quantity_planned)

life-HasQuantities : {first b : FoodBatch} → IsNewBatch first → BatchLife first b → HasQuantities b
life-HasQuantities new BatchLife.same =
    rw (new.unspent, new.unproduced) (omega arith, omega arith, omega (arith, new.planned))
life-HasQuantities new (BatchLife.then life (BatchStep.moves _ _ _ _ _)) =
    life-HasQuantities new life
life-HasQuantities new (BatchLife.then life (BatchStep.produces q _ _ _ _ _ positive within)) =
    (omega (arith, positive), omega arith, within)
life-HasQuantities new (BatchLife.then life (BatchStep.takes _ _ _)) = life-HasQuantities new life
life-HasQuantities new (BatchLife.then life (BatchStep.joins_recall _ _)) =
    life-HasQuantities new life
life-HasQuantities new (BatchLife.then life (BatchStep.gains_evidence _ _)) =
    life-HasQuantities new life

module _ (platform : Platform) (s : MemoryService) (id : String) (b : FoodBatch)
    (history : Reachable platform s) (found : lookup id s.batches ≡ some b) where
  -- In every service that calls lead to, each batch's status history is one path from DRAFT to the
  -- batch's status: the first change starts at DRAFT, every later one at the status where the change
  -- before it ended, the transition table allows each, and the last one ends at the batch's status.
  pub batch_histories_are_allowed : IsTraced b
  batch_histories_are_allowed =
      let (first, new, life) = batches_have_lived platform s id b history found in
      life-IsTraced new life

  -- In every service that calls lead to, each batch has 0 ≤ remaining ≤ produced ≤ planned.
  pub batch_quantities_are_bounded : HasQuantities b
  batch_quantities_are_bounded =
      let (first, new, life) = batches_have_lived platform s id b history found in
      life-HasQuantities new life

  -- In every service that calls lead to, a COMPLETED batch's status history names exactly SCHEDULED,
  -- PRODUCING, PACKED, READY_FOR_HANDOFF, IN_DELIVERY and COMPLETED, in this order.
  pub completed_batches_took_the_route :
      b.status ≡ FoodBatchStatus.completed
      → batch_route FoodBatchStatus.draft ≡ some (statuses b.status_history)
  completed_batches_took_the_route completed =
      let (allowed, at_status, _) = batch_histories_are_allowed in
      completed_by_route FoodBatchStatus.draft (statuses b.status_history) allowed
        (at_status ∙ completed)
