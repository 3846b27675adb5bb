-- ===== src/Payment/PaymentStatus.antt =====
-- backend-go/internal/payment/types.go: PaymentStatus and PaymentEvent. Each is a Go string type
-- with named constants; `other` is any string that is none of them.
use chihuo.Base.{String, Bool, true, false, ◌≡◌, refl, ap, str_eq, if◌then◌else◌}

pub data PaymentStatus : Type 0 where
  pending prepay_created paying paid closed failed partially_refunded refunded : PaymentStatus
  other : String → PaymentStatus

-- string(s)
unfoldable pub string : PaymentStatus → String
string pending = "PENDING"
string prepay_created = "PREPAY_CREATED"
string paying = "PAYING"
string paid = "PAID"
string closed = "CLOSED"
string failed = "FAILED"
string partially_refunded = "PARTIALLY_REFUNDED"
string refunded = "REFUNDED"
string (other s) = s

-- Valid()
unfoldable pub valid : PaymentStatus → Bool
valid (other s) = false
valid pending = true
valid _ = true

-- Terminal()
unfoldable pub terminal : PaymentStatus → Bool
terminal closed = true
terminal failed = true
terminal refunded = true
terminal _ = false

pub data PaymentEvent : Type 0 where
  payment_prepay_created payment_pending payment_paying payment_succeeded : PaymentEvent
  payment_closed payment_failed refund_partially refund_succeeded : PaymentEvent
  other_event : String → PaymentEvent

-- string(event)
unfoldable pub string_event : PaymentEvent → String
string_event payment_prepay_created = "PREPAY_CREATED"
string_event payment_pending = "PAYMENT_PENDING"
string_event payment_paying = "PAYMENT_PAYING"
string_event payment_succeeded = "PAYMENT_SUCCEEDED"
string_event payment_closed = "PAYMENT_CLOSED"
string_event payment_failed = "PAYMENT_FAILED"
string_event refund_partially = "REFUND_PARTIALLY_SUCCEEDED"
string_event refund_succeeded = "REFUND_SUCCEEDED"
string_event (other_event s) = s

-- PaymentStatus(s)
unfoldable pub parse : String → PaymentStatus
parse s =
    if str_eq s "PENDING"
    then pending
    else if str_eq s "PREPAY_CREATED"
    then prepay_created
    else if str_eq s "PAYING"
    then paying
    else if str_eq s "PAID"
    then paid
    else if str_eq s "CLOSED"
    then closed
    else if str_eq s "FAILED"
    then failed
    else if str_eq s "PARTIALLY_REFUNDED"
    then partially_refunded
    else if str_eq s "REFUNDED"
    then refunded
    else other s

pub parse-string : (s : PaymentStatus) → valid s ≡ true → parse (string s) ≡ s
unfolding parse string valid
parse-string (other s) v = cc
parse-string pending v = refl
parse-string _ v = refl

pub string_injective :
    (s t : PaymentStatus) → valid s ≡ true → valid t ≡ true → string s ≡ string t → s ≡ t
string_injective s t v w e = cc (parse-string s v, parse-string t w, ap parse e)
