-- ===== src/Payment/RefundStatus.antt =====
-- backend-go/internal/payment/types.go: RefundStatus and RefundEvent, as PaymentStatus.antt has
-- those of payments.
use chihuo.Base.{String, Bool, true, false, ◌≡◌, refl, ap, str_eq, if◌then◌else◌}

pub data RefundStatus : Type 0 where
  pending processing succeeded failed closed : RefundStatus
  other : String → RefundStatus

-- string(s)
unfoldable pub string : RefundStatus → String
string pending = "PENDING"
string processing = "PROCESSING"
string succeeded = "SUCCEEDED"
string failed = "FAILED"
string closed = "CLOSED"
string (other s) = s

-- Valid()
unfoldable pub valid : RefundStatus → Bool
valid (other s) = false
valid pending = true
valid _ = true

-- Terminal()
unfoldable pub terminal : RefundStatus → Bool
terminal succeeded = true
terminal closed = true
terminal _ = false

pub data RefundEvent : Type 0 where
  refund_processing refund_succeeded refund_failed refund_closed : RefundEvent
  other_event : String → RefundEvent

-- string(event)
unfoldable pub string_event : RefundEvent → String
string_event refund_processing = "REFUND_PROCESSING"
string_event refund_succeeded = "REFUND_SUCCEEDED"
string_event refund_failed = "REFUND_FAILED"
string_event refund_closed = "REFUND_CLOSED"
string_event (other_event s) = s

-- RefundStatus(s)
unfoldable pub parse : String → RefundStatus
parse s =
    if str_eq s "PENDING"
    then pending
    else if str_eq s "PROCESSING"
    then processing
    else if str_eq s "SUCCEEDED"
    then succeeded
    else if str_eq s "FAILED"
    then failed
    else if str_eq s "CLOSED"
    then closed
    else other s

pub parse-string : (s : RefundStatus) → valid s ≡ true → parse (string s) ≡ s
unfolding parse string valid
parse-string (other s) v = cc
parse-string pending v = refl
parse-string _ v = refl

pub string_injective :
    (s t : RefundStatus) → valid s ≡ true → valid t ≡ true → string s ≡ string t → s ≡ t
string_injective s t v w e = cc (parse-string s v, parse-string t w, ap parse e)
