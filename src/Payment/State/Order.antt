-- ===== src/Payment/State/Order.antt =====
-- What the transitions of state.go have in common: which statuses are final, that no transition goes
-- back, and that repeating an event changes nothing.
use chihuo.Base.{ℕ, ◌<◌, ◌≡◌, ◌≢◌, true, ◌⊎◌, inl, inr, ◌↔◌, none, arith, eq_iff, Option-cases}
use chihuo.Payment.PaymentStatus
use chihuo.Payment.PaymentStatus.{PaymentStatus, PaymentEvent}
use chihuo.Payment.RefundStatus
use chihuo.Payment.RefundStatus.{RefundStatus, RefundEvent}
use chihuo.Payment.State.{
  allowed_payment, transition_payment, target_payment, apply_payment_event, allowed_refund,
  transition_refund, target_refund, apply_refund_event,
}

-- A transition is allowed between valid statuses that are equal or joined by an edge of the map.
pub transition_payment_iff :
    (s t : PaymentStatus)
    → (transition_payment s t ≡ none) ↔ (
        (PaymentStatus.valid s ≡ true)
        × (PaymentStatus.valid t ≡ true)
        × ((t ≡ s) ⊎ (allowed_payment s t ≡ true)))
unfolding transition_payment
transition_payment_iff s t = ground (
  arith,
  eq_iff (PaymentStatus.string s) (PaymentStatus.string t),
  PaymentStatus.string_injective s t,
)

pub transition_refund_iff :
    (s t : RefundStatus)
    → (transition_refund s t ≡ none) ↔ (
        (RefundStatus.valid s ≡ true)
        × (RefundStatus.valid t ≡ true)
        × ((t ≡ s) ⊎ (allowed_refund s t ≡ true)))
unfolding transition_refund
transition_refund_iff s t = ground (
  arith,
  eq_iff (RefundStatus.string s) (RefundStatus.string t),
  RefundStatus.string_injective s t,
)

-- A status that follows `s`, where one does.
exit_payment : PaymentStatus → PaymentStatus
exit_payment PaymentStatus.paid = PaymentStatus.refunded
exit_payment PaymentStatus.partially_refunded = PaymentStatus.refunded
exit_payment _ = PaymentStatus.failed

exit_refund : RefundStatus → RefundStatus
exit_refund RefundStatus.pending = RefundStatus.processing
exit_refund _ = RefundStatus.succeeded

-- A payment status is terminal exactly when it is valid and every transition that is allowed out of
-- it leads back to itself.
pub terminal_iff_payment :
    (s : PaymentStatus)
    → (PaymentStatus.terminal s ≡ true) ↔ (
        (PaymentStatus.valid s ≡ true)
        × ((t : PaymentStatus) → transition_payment s t ≡ none → t ≡ s))
unfolding PaymentStatus.terminal PaymentStatus.valid allowed_payment exit_payment
terminal_iff_payment s = (
  λ h. (ground arith, λ t e. ground (arith, transition_payment_iff s t)),
  λ all. ground (arith, all.1 (exit_payment s), transition_payment_iff s (exit_payment s)),
)

-- A refund status is terminal exactly when it is valid and every transition that is allowed out of
-- it leads back to itself.
pub terminal_iff_refund :
    (s : RefundStatus)
    → (RefundStatus.terminal s ≡ true) ↔ (
        (RefundStatus.valid s ≡ true) × ((t : RefundStatus) → transition_refund s t ≡ none → t ≡ s))
unfolding RefundStatus.terminal RefundStatus.valid allowed_refund exit_refund
terminal_iff_refund s = (
  λ h. (ground arith, λ t e. ground (arith, transition_refund_iff s t)),
  λ all. ground (arith, all.1 (exit_refund s), transition_refund_iff s (exit_refund s)),
)

-- How far a payment has come.
pub rank_payment : PaymentStatus → ℕ
rank_payment PaymentStatus.pending = 0
rank_payment PaymentStatus.prepay_created = 1
rank_payment PaymentStatus.paying = 2
rank_payment PaymentStatus.paid = 3
rank_payment PaymentStatus.partially_refunded = 4
rank_payment _ = 5

-- A transition of a payment to another status takes it strictly further.
pub transition_payment_advances :
    (s t : PaymentStatus)
    → transition_payment s t ≡ none
    → (t ≡ s) ⊎ (rank_payment s < rank_payment t)
unfolding rank_payment PaymentStatus.valid allowed_payment
transition_payment_advances s t e = ground (arith, transition_payment_iff s t)

-- An event is accepted, and then a second delivery of it is accepted too and changes nothing, or it is
-- refused and leaves the status as it was.
pub apply_payment_event_twice :
    (s : PaymentStatus) (e : PaymentEvent)
    → let (s', refused) = apply_payment_event s e in
      ((refused ≡ none) × (apply_payment_event s' e ≡ (s', none))) ⊎ ((refused ≢ none) × (s' ≡ s))
unfolding apply_payment_event
apply_payment_event_twice s e = elim (Option-cases (target_payment e)) [
  | inl unknown ↦ ground arith
  | inr (t, known) ↦ ground (arith, transition_payment_iff s t, transition_payment_iff t t)
]

-- A refund event is accepted, and then a second delivery of it is accepted too and changes nothing, or
-- it is refused and leaves the status as it was.
pub apply_refund_event_twice :
    (s : RefundStatus) (e : RefundEvent)
    → let (s', refused) = apply_refund_event s e in
      ((refused ≡ none) × (apply_refund_event s' e ≡ (s', none))) ⊎ ((refused ≢ none) × (s' ≡ s))
unfolding apply_refund_event
apply_refund_event_twice s e = elim (Option-cases (target_refund e)) [
  | inl unknown ↦ ground arith
  | inr (t, known) ↦ ground (arith, transition_refund_iff s t, transition_refund_iff t t)
]
