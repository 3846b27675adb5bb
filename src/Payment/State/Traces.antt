-- ===== src/Payment/State/Traces.antt =====
-- Histories: a payment that is delivered any sequence of events, refused ones leaving it as it is.
use chihuo.Base.{◌≡◌, sym, Bool, true, false, ◌⊎◌, inl, inr, List, [], ◌∷◌, arith, Option-cases}
use mathlib.Core.List.{Memᴰ}
use chihuo.Payment.PaymentStatus.{PaymentStatus, PaymentEvent}
use chihuo.Payment.State.{allowed_payment, target_payment, apply_payment_event}
use chihuo.Payment.State.Order.{transition_payment_iff}

-- The status after the events of a list, in their order.
unfoldable pub replay : PaymentStatus → List PaymentEvent → PaymentStatus
replay s [] = s
replay s (e ∷ es) = replay (apply_payment_event s e).0 es

-- The customer's money has been taken, whether or not some of it has been given back.
unfoldable pub is_funded : PaymentStatus → Bool
is_funded PaymentStatus.paid = true
is_funded PaymentStatus.partially_refunded = true
is_funded PaymentStatus.refunded = true
is_funded _ = false

step_funded :
    (s : PaymentStatus) (e : PaymentEvent)
    → (is_funded (apply_payment_event s e).0 ≡ is_funded s)
      ⊎ ((is_funded s ≡ false) × (e ≡ PaymentEvent.payment_succeeded))
unfolding apply_payment_event target_payment is_funded allowed_payment
step_funded s e = elim (Option-cases (target_payment e)) [
  | inl unknown ↦ ground arith
  | inr (t, known) ↦ ground (arith, transition_payment_iff s t)
]

-- A payment is funded at the end of a history only if it was so at the start or a PAYMENT_SUCCEEDED
-- event is among the events; so no refund happens without a successful payment.
pub funded_needs_success :
    (s : PaymentStatus) (es : List PaymentEvent)
    → is_funded s ≡ false
    → is_funded (replay s es) ≡ true
    → Memᴰ PaymentEvent.payment_succeeded es
unfolding replay
funded_needs_success s [] h l = cc
funded_needs_success s (e ∷ es) h l = elim (step_funded s e) [
  | inl same ↦ Memᴰ.tail (funded_needs_success (apply_payment_event s e).0 es (cc) l)
  | inr paid ↦ Memᴰ.head (sym paid.1)
]

-- Once funded, a payment stays funded: no later event closes it or fails it.
pub funded_stays :
    (s : PaymentStatus) (es : List PaymentEvent)
    → is_funded s ≡ true
    → is_funded (replay s es) ≡ true
unfolding replay
funded_stays s [] h = h
funded_stays s (e ∷ es) h =
    funded_stays (apply_payment_event s e).0 es (ground (arith, step_funded s e))
