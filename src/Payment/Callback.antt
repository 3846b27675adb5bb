-- ===== src/Payment/Callback.antt =====
-- backend-go/internal/payment/callback.go: the event that a provider's callback is read as. Decoding
-- JSON, verifying a signature, upper case and time.Parse are parameters.
pub mod Events
pub mod Parsing
use chihuo.Base.{
  ℕ, String, Bool, true, false, not, ◌&&◌, ◌||◌, Option, none, some, Result, ok, err, List, length,
  ltb, ◌==◌, if◌then◌else◌, then_check,
}
use chihuo.Base.Text.{trim_space, is_empty}
use chihuo.Base.Int.{ℤ, pos, pos_part, leb_ℤ}
use chihuo.Domain.{Time}
use chihuo.Payment.Error.{Error, invalid_callback, unsupported_callback, signature_verifier}
use chihuo.Payment.Provider.{ProviderPaymentStatus, ProviderRefundStatus}
use chihuo.Payment.Requests.{Money}

-- A Go string type with named constants; `other s` is a string s that is none of them.
pub data CallbackEventType : Type 0 where
  payment_succeeded payment_failed payment_closed : CallbackEventType
  refund_processing refund_succeeded refund_failed refund_closed : CallbackEventType
  other : String → CallbackEventType

pub record CallbackEvent : Type 0 where
  pub event_id : String
  pub event_type : CallbackEventType
  pub out_trade_no : String
  pub transaction_id : String
  pub out_refund_no : String
  pub refund_id : String
  pub payment_status : ProviderPaymentStatus
  pub refund_status : ProviderRefundStatus
  pub amount : Money
  pub refund_amount : Money
  pub occurred_at : Time

pub record CallbackPayload : Type 0 where
  pub event_id : String
  pub plain_type : CallbackEventType  -- the field `type`
  pub event_type : CallbackEventType
  pub out_trade_no : String
  pub transaction_id : String
  pub out_refund_no : String
  pub refund_id : String
  pub payment_status : ProviderPaymentStatus
  pub refund_status : ProviderRefundStatus
  pub amount_cents : ℤ
  pub refund_amount_cents : ℤ
  pub currency : String
  pub occurred_at : String

-- eventType == ""
unfoldable pub is_blank : CallbackEventType → Bool
is_blank (CallbackEventType.other s) = is_empty s
is_blank _ = false

-- isSupportedCallbackEvent
unfoldable pub is_supported_callback_event : CallbackEventType → Bool
is_supported_callback_event (CallbackEventType.other s) = false
is_supported_callback_event _ = true

-- validateRefundIdentifiers
unfoldable pub validate_refund_identifiers : CallbackEvent → Option Error
unfolding trim_space
validate_refund_identifiers event =
    if is_empty (trim_space event.out_refund_no) then some invalid_callback else none

-- `if err != nil { return CallbackEvent{}, err }`, and then the event.
abbrev pub unless_callback_error : Option Error → CallbackEvent → Result Error CallbackEvent
unless_callback_error none event = ok event
unless_callback_error (some e) event = err e

-- The switch at the end of event, on the event's type.
unfoldable pub settle : CallbackEventType → CallbackEvent → Result Error CallbackEvent
unfolding validate_refund_identifiers
settle CallbackEventType.payment_succeeded event =
    if leb_ℤ event.amount.amount_cents (pos 0)
    then err invalid_callback
    else ok (record event { payment_status = ProviderPaymentStatus.success })
settle CallbackEventType.payment_failed event =
    ok (record event { payment_status = ProviderPaymentStatus.pay_error })
settle CallbackEventType.payment_closed event =
    ok (record event { payment_status = ProviderPaymentStatus.closed })
settle CallbackEventType.refund_processing event =
    unless_callback_error (validate_refund_identifiers event)
      (record event { refund_status = ProviderRefundStatus.processing })
settle CallbackEventType.refund_succeeded event = elim (validate_refund_identifiers event) [
  | some e ↦ err e
  | none ↦
      if leb_ℤ event.refund_amount.amount_cents (pos 0)
      then err invalid_callback
      else ok (record event { refund_status = ProviderRefundStatus.success })
]
settle CallbackEventType.refund_failed event =
    unless_callback_error (validate_refund_identifiers event)
      (record event { refund_status = ProviderRefundStatus.abnormal })
settle CallbackEventType.refund_closed event =
    unless_callback_error (validate_refund_identifiers event)
      (record event { refund_status = ProviderRefundStatus.closed })
settle (CallbackEventType.other s) event = ok event

module _ (to_upper : String → String) (parse_rfc3339 : String → Option Time) where
  -- normalizedCurrency
  unfoldable pub normalized_currency : String → String
  unfolding trim_space
  normalized_currency value =
      let upper = to_upper (trim_space value) in if is_empty upper then "CNY" else upper

  -- parseCallbackTime
  unfoldable pub parse_callback_time : String → Result Error Time
  unfolding trim_space
  parse_callback_time value =
      if is_empty (trim_space value)
      then err invalid_callback
      else elim (parse_rfc3339 (trim_space value)) [
        | none ↦ err invalid_callback
        | some parsed ↦ ok parsed
      ]

  -- The type that event goes by.
  unfoldable pub chosen_type : CallbackPayload → CallbackEventType
  unfolding is_blank
  chosen_type p = if is_blank p.event_type then p.plain_type else p.event_type

  -- The event before the switch.
  unfoldable pub draft_event : CallbackPayload → Time → CallbackEvent
  unfolding normalized_currency chosen_type
  draft_event p occurred_at = record {
    event_id = p.event_id;
    event_type = chosen_type p;
    out_trade_no = p.out_trade_no;
    transaction_id = p.transaction_id;
    out_refund_no = p.out_refund_no;
    refund_id = p.refund_id;
    payment_status = p.payment_status;
    refund_status = p.refund_status;
    amount = record { amount_cents = p.amount_cents; currency = normalized_currency p.currency };
    refund_amount = record {
      amount_cents = p.refund_amount_cents;
      currency = normalized_currency p.currency;
    };
    occurred_at = occurred_at;
  }

  -- callbackPayload.event
  unfoldable pub event : CallbackPayload → Result Error CallbackEvent
  unfolding trim_space chosen_type is_supported_callback_event parse_callback_time settle
      draft_event
  event p =
      if is_empty (trim_space p.event_id) || is_empty (trim_space p.out_trade_no)
      then err invalid_callback
      else if not (is_supported_callback_event (chosen_type p))
      then err unsupported_callback
      else elim (parse_callback_time p.occurred_at) [
        | err e ↦ err e
        | ok occurred_at ↦ settle (chosen_type p) (draft_event p occurred_at)
      ]

-- What a JSON decoder makes of a body: its first value, if that is a payload, and whether nothing
-- follows it.
pub record Decoder : Type 0 where
  pub first : List ℕ → Option CallbackPayload
  pub at_end : List ℕ → Bool

pub record JsonCallbackEventParser : Type 0 where
  pub max_body_bytes : ℤ
  pub signature_verifier : Option (List ℕ → Option Error)
  pub allow_unsigned : Bool

-- The checks of ParseCallback before it reads the body: the signature, and the size.
unfoldable pub check_signature : JsonCallbackEventParser → List ℕ → Option Error
check_signature parser body = elim parser.signature_verifier [
  | none ↦ if parser.allow_unsigned then none else some signature_verifier
  | some verify ↦ verify body
]

unfoldable pub max_bytes : JsonCallbackEventParser → ℕ
max_bytes parser =
    if leb_ℤ parser.max_body_bytes (pos 0) then 1_048_576 else pos_part parser.max_body_bytes

unfoldable pub check_size : JsonCallbackEventParser → List ℕ → Option Error
unfolding max_bytes
check_size parser body =
    if length body == 0 || ltb (max_bytes parser) (length body) then some invalid_callback else none

unfoldable pub check_callback : JsonCallbackEventParser → List ℕ → Option Error
unfolding check_signature check_size
check_callback parser body = then_check (check_signature parser body) (check_size parser body)

-- JSONCallbackEventParser.ParseCallback, for what ctx.Err gives; the verifier stands for its answer
-- to the whole request
unfoldable pub parse_callback :
    (String → String)
    → (String → Option Time)
    → Decoder
    → JsonCallbackEventParser
    → Option Error
    → List ℕ
    → Result Error CallbackEvent
unfolding check_callback event
parse_callback to_upper parse_rfc3339 decoder parser ctx_error body = elim ctx_error [
  | some e ↦ err e
  | none ↦ elim (check_callback parser body) [
    | some e ↦ err e
    | none ↦ elim (decoder.first body) [
      | none ↦ err invalid_callback
      | some payload ↦
          if decoder.at_end body then event to_upper parse_rfc3339 payload else err invalid_callback
    ]
  ]
]
