-- ===== src/Examples/Batches.antt =====
-- Food batches, incidents and payment events.
use chihuo.Base.{◌≡◌, ◌≤◌, refl, true, false, List, [], ◌∷◌, length, none}
use mathlib.Core.List.{Memᴰ}
use chihuo.Safety.Status.{FoodBatchStatus, IncidentStatus}
use chihuo.Safety.Transitions.{can_transition_batch, can_transition_incident}
use chihuo.Safety.Transitions.Histories.{
  is_history, latest, is_withdrawn, batch_steps_left, batch_histories_end, is_decided,
}
use chihuo.Payment.PaymentStatus
use chihuo.Payment.PaymentStatus.{PaymentStatus, PaymentEvent}
use chihuo.Payment.State.{transition_payment, allowed_payment, apply_payment_event}
use chihuo.Payment.State.Traces.{replay, is_funded, funded_needs_success, funded_stays}

abbrev recall_history : List FoodBatchStatus
recall_history = FoodBatchStatus.recalled ∷ FoodBatchStatus.disposed ∷ []

recall_history-is_history :
    is_history can_transition_batch FoodBatchStatus.quarantined recall_history ≡ true
unfolding is_history can_transition_batch
recall_history-is_history = refl

quarantine_withdraws : is_withdrawn FoodBatchStatus.quarantined ≡ true
unfolding is_withdrawn
quarantine_withdraws = refl

batch_histories_end_example : length recall_history ≤ batch_steps_left FoodBatchStatus.quarantined
batch_histories_end_example =
    batch_histories_end FoodBatchStatus.quarantined recall_history recall_history-is_history

abbrev delivered : List FoodBatchStatus
delivered =
    FoodBatchStatus.ready_for_handoff ∷ FoodBatchStatus.in_delivery ∷ FoodBatchStatus.completed ∷ []

delivered-is_history : is_history can_transition_batch FoodBatchStatus.packed delivered ≡ true
unfolding is_history can_transition_batch
delivered-is_history = refl

delivered_completed : latest FoodBatchStatus.packed delivered ≡ FoodBatchStatus.completed
unfolding latest
delivered_completed = refl

abbrev dismissal : List IncidentStatus
dismissal = IncidentStatus.investigating ∷ IncidentStatus.dismissed ∷ IncidentStatus.closed ∷ []

dismissal-is_history : is_history can_transition_incident IncidentStatus.reported dismissal ≡ true
unfolding is_history can_transition_incident
dismissal-is_history = refl

reported_undecided : is_decided IncidentStatus.reported ≡ false
unfolding is_decided
reported_undecided = refl

dismissal_closed : latest IncidentStatus.reported dismissal ≡ IncidentStatus.closed
unfolding latest
dismissal_closed = refl

abbrev refunded_history : List PaymentEvent
refunded_history =
    PaymentEvent.payment_succeeded ∷ PaymentEvent.payment_closed ∷ PaymentEvent.refund_succeeded
    ∷ []

pending_unfunded : is_funded PaymentStatus.pending ≡ false
unfolding is_funded
pending_unfunded = refl

refunded_funded : is_funded (replay PaymentStatus.pending refunded_history) ≡ true
unfolding is_funded replay apply_payment_event transition_payment allowed_payment
    PaymentStatus.valid PaymentStatus.string
refunded_funded = refl

funded_needs_success_example : Memᴰ PaymentEvent.payment_succeeded refunded_history
funded_needs_success_example =
    funded_needs_success PaymentStatus.pending refunded_history pending_unfunded refunded_funded

paid_funded : is_funded PaymentStatus.paid ≡ true
unfolding is_funded
paid_funded = refl

funded_stays_example : is_funded (replay PaymentStatus.paid refunded_history) ≡ true
funded_stays_example = funded_stays PaymentStatus.paid refunded_history paid_funded

pending_to_paid : transition_payment PaymentStatus.pending PaymentStatus.paid ≡ none
unfolding transition_payment allowed_payment PaymentStatus.valid PaymentStatus.string
pending_to_paid = refl
