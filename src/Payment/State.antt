-- ===== src/Payment/State.antt =====
-- backend-go/internal/payment/state.go: which transitions of a payment or a refund are allowed, and
-- the status that an event leads to. A function that returns only an error returns `none` for nil.
pub mod Order
pub mod Traces
use chihuo.Base.{
  String, Bool, true, false, not, ◌||◌, Option, none, some, str_eq, if◌then◌else◌, List, [], ◌∷◌,
}
use chihuo.Payment.Error.{Error, invalid_transition}
use chihuo.Payment.PaymentStatus
use chihuo.Payment.PaymentStatus.{PaymentStatus, PaymentEvent}
use chihuo.Payment.RefundStatus
use chihuo.Payment.RefundStatus.{RefundStatus, RefundEvent}

-- The map `allowed` of TransitionPayment: whether `allowed[from][to]` is there.
unfoldable pub allowed_payment : PaymentStatus → PaymentStatus → Bool
allowed_payment PaymentStatus.pending PaymentStatus.prepay_created = true
allowed_payment PaymentStatus.pending PaymentStatus.paying = true
allowed_payment PaymentStatus.pending PaymentStatus.paid = true
allowed_payment PaymentStatus.pending PaymentStatus.closed = true
allowed_payment PaymentStatus.pending PaymentStatus.failed = true
allowed_payment PaymentStatus.prepay_created PaymentStatus.paying = true
allowed_payment PaymentStatus.prepay_created PaymentStatus.paid = true
allowed_payment PaymentStatus.prepay_created PaymentStatus.closed = true
allowed_payment PaymentStatus.prepay_created PaymentStatus.failed = true
allowed_payment PaymentStatus.paying PaymentStatus.paid = true
allowed_payment PaymentStatus.paying PaymentStatus.closed = true
allowed_payment PaymentStatus.paying PaymentStatus.failed = true
allowed_payment PaymentStatus.paid PaymentStatus.partially_refunded = true
allowed_payment PaymentStatus.paid PaymentStatus.refunded = true
allowed_payment PaymentStatus.partially_refunded PaymentStatus.partially_refunded = true
allowed_payment PaymentStatus.partially_refunded PaymentStatus.refunded = true
allowed_payment _ _ = false

unfoldable pub transition_payment : PaymentStatus → PaymentStatus → Option Error
unfolding allowed_payment PaymentStatus.valid PaymentStatus.string
transition_payment from to =
    let refused =
      some (invalid_transition "payment" (PaymentStatus.string from) (PaymentStatus.string to)) in
    if not (PaymentStatus.valid from) || not (PaymentStatus.valid to)
    then refused
    else if str_eq (PaymentStatus.string from) (PaymentStatus.string to)
    then none
    else if allowed_payment from to
    then none
    else refused

-- The status that the switch of ApplyPaymentEvent picks; `none` is its default.
pub target_payment : PaymentEvent → Option PaymentStatus
target_payment PaymentEvent.payment_prepay_created = some PaymentStatus.prepay_created
target_payment PaymentEvent.payment_pending = some PaymentStatus.pending
target_payment PaymentEvent.payment_paying = some PaymentStatus.paying
target_payment PaymentEvent.payment_succeeded = some PaymentStatus.paid
target_payment PaymentEvent.payment_closed = some PaymentStatus.closed
target_payment PaymentEvent.payment_failed = some PaymentStatus.failed
target_payment PaymentEvent.refund_partially = some PaymentStatus.partially_refunded
target_payment PaymentEvent.refund_succeeded = some PaymentStatus.refunded
target_payment (PaymentEvent.other_event s) = none

-- The status comes back beside the error, as in the source.
unfoldable pub apply_payment_event : PaymentStatus → PaymentEvent → PaymentStatus × Option Error
unfolding target_payment PaymentStatus.string PaymentStatus.string_event
apply_payment_event current event = elim (target_payment event) [
  | none ↦ (
    current,
    some (
        invalid_transition "payment" (PaymentStatus.string current)
          (PaymentStatus.string_event event)),
  )
  | some next ↦ elim (transition_payment current next) [
    | some e ↦ (current, some e)
    | none ↦ (next, none)
  ]
]

-- The map `allowed` of TransitionRefund.
unfoldable pub allowed_refund : RefundStatus → RefundStatus → Bool
allowed_refund RefundStatus.pending RefundStatus.processing = true
allowed_refund RefundStatus.pending RefundStatus.succeeded = true
allowed_refund RefundStatus.pending RefundStatus.failed = true
allowed_refund RefundStatus.pending RefundStatus.closed = true
allowed_refund RefundStatus.processing RefundStatus.succeeded = true
allowed_refund RefundStatus.processing RefundStatus.failed = true
allowed_refund RefundStatus.processing RefundStatus.closed = true
allowed_refund RefundStatus.failed RefundStatus.processing = true
allowed_refund RefundStatus.failed RefundStatus.succeeded = true
allowed_refund _ _ = false

unfoldable pub transition_refund : RefundStatus → RefundStatus → Option Error
unfolding allowed_refund RefundStatus.valid RefundStatus.string
transition_refund from to =
    let refused =
      some (invalid_transition "refund" (RefundStatus.string from) (RefundStatus.string to)) in
    if not (RefundStatus.valid from) || not (RefundStatus.valid to)
    then refused
    else if str_eq (RefundStatus.string from) (RefundStatus.string to)
    then none
    else if allowed_refund from to
    then none
    else refused

pub target_refund : RefundEvent → Option RefundStatus
target_refund RefundEvent.refund_processing = some RefundStatus.processing
target_refund RefundEvent.refund_succeeded = some RefundStatus.succeeded
target_refund RefundEvent.refund_failed = some RefundStatus.failed
target_refund RefundEvent.refund_closed = some RefundStatus.closed
target_refund (RefundEvent.other_event s) = none

unfoldable pub apply_refund_event : RefundStatus → RefundEvent → RefundStatus × Option Error
unfolding target_refund RefundStatus.string RefundStatus.string_event
apply_refund_event current event = elim (target_refund event) [
  | none ↦ (
    current,
    some (
        invalid_transition "refund" (RefundStatus.string current)
          (RefundStatus.string_event event)),
  )
  | some next ↦ elim (transition_refund current next) [
    | some e ↦ (current, some e)
    | none ↦ (next, none)
  ]
]
