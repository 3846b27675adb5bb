-- ===== src/Payment/Requests.antt =====
-- backend-go/internal/payment: the requests and results of types.go, the checks of noop.go on them,
-- and the idempotency keys. What Go's library does with Unicode case, JSON and SHA-256 is a `Codec`.
use Prim.Native.String.{len}
use chihuo.Base.{
  String, Bool, not, ◌&&◌, ◌||◌, Option, none, some, Result, ok, err, str_eq, leb, ltb, ◌==◌,
  if◌then◌else◌, then_check,
}
use chihuo.Base.Text.{trim_space, is_empty}
use chihuo.Base.Int.{ℤ, pos, leb_ℤ, ltb_ℤ}
use chihuo.Domain.{Time}
use chihuo.Payment.Error.{Error, invalid_request}
use chihuo.Payment.PaymentStatus.{PaymentStatus}
use chihuo.Payment.Provider.{ProviderPaymentStatus, ProviderRefundStatus}

pub record Money : Type 0 where
  pub amount_cents : ℤ
  pub currency : String

pub record CreateJsapiPrepayRequest : Type 0 where
  pub idempotency_key : String
  pub out_trade_no : String
  pub order_id : String
  pub open_id : String
  pub amount : Money
  pub description : String
  pub attach : String
  pub notify_url : String
  pub expire_at : Time

pub record JsapiPaymentParams : Type 0 where
  pub app_id : String
  pub time_stamp : String
  pub nonce_str : String
  pub package_value : String
  pub sign_type : String
  pub pay_sign : String

pub record PrepayResult : Type 0 where
  pub provider : String
  pub out_trade_no : String
  pub prepay_id : String
  pub payment_status : PaymentStatus
  pub payment_params : JsapiPaymentParams
  pub expires_at : Time

pub record QueryPaymentRequest : Type 0 where
  pub out_trade_no : String
  pub transaction_id : String

pub record PaymentResult : Type 0 where
  pub provider : String
  pub out_trade_no : String
  pub transaction_id : String
  pub status : ProviderPaymentStatus
  pub paid_amount : Money
  pub paid_at : Option Time

pub record ClosePaymentRequest : Type 0 where
  pub idempotency_key : String
  pub out_trade_no : String

pub record ClosePaymentResult : Type 0 where
  pub provider : String
  pub out_trade_no : String
  pub status : ProviderPaymentStatus
  pub closed_at : Option Time

pub record ApplyRefundRequest : Type 0 where
  pub idempotency_key : String
  pub out_refund_no : String
  pub out_trade_no : String
  pub transaction_id : String
  pub total_amount : Money
  pub refund_amount : Money
  pub reason : String
  pub notify_url : String

pub record RefundResult : Type 0 where
  pub provider : String
  pub out_refund_no : String
  pub out_trade_no : String
  pub refund_id : String
  pub status : ProviderRefundStatus
  pub total_amount : Money
  pub refund_amount : Money
  pub success_at : Option Time

pub record QueryRefundRequest : Type 0 where
  pub out_refund_no : String
  pub transaction_id : String

-- Go's library: strings.ToUpper, json.Marshal of the two requests (none is its error), and the hex
-- text of a SHA-256 digest.
pub record Codec : Type 0 where
  pub to_upper : String → String
  pub marshal_prepay : CreateJsapiPrepayRequest → Option String
  pub marshal_refund : ApplyRefundRequest → Option String
  pub sha256_hex : String → String

-- A `context.Context`: nil, one whose Err is nil, or one that has ended with an error.
pub data Context : Type 0 where
  nil_context live : Context
  ended : Error → Context

-- IdempotencyKey.Valid
unfoldable pub valid_key : String → Bool
unfolding trim_space
valid_key key = str_eq (trim_space key) key && leb 8 (len key) && leb (len key) 128

-- validateContext
unfoldable pub validate_context : Context → Option Error
validate_context nil_context = some invalid_request
validate_context live = none
validate_context (ended e) = some e

-- Money.Validate
unfoldable pub validate_money : Money → Option Error
unfolding trim_space
validate_money m =
    if leb_ℤ m.amount_cents (pos 0)
    then some invalid_request
    else if is_empty (trim_space m.currency)
    then some invalid_request
    else none

-- RequestFingerprint, of an encoding that json.Marshal returned
unfoldable pub request_fingerprint : Codec → Option String → Result Error String
request_fingerprint codec none = err invalid_request
request_fingerprint codec (some encoded) = ok (codec.sha256_hex encoded)

module _ (codec : Codec) where
  open codec use {to_upper}

  -- Money.normalized
  unfoldable pub normalized : Money → Money
  unfolding trim_space
  normalized m =
      let upper = to_upper (trim_space m.currency) in
      record m { currency = if is_empty upper then "CNY" else upper }

  -- validateCreateRequest
  unfoldable pub validate_create_request : CreateJsapiPrepayRequest → Time → Option Error
  unfolding valid_key normalized validate_money
  validate_create_request req now =
      if not (valid_key req.idempotency_key)
        || is_empty req.out_trade_no
        || is_empty req.order_id
        || is_empty req.open_id
        || is_empty req.description
        || is_empty req.notify_url
        || req.expire_at == 0
        || not (ltb now req.expire_at)
      then some invalid_request
      else validate_money (normalized req.amount)

  -- validateRefundRequest
  unfoldable pub validate_refund_request : ApplyRefundRequest → Option Error
  unfolding valid_key normalized validate_money
  validate_refund_request req =
      let total = normalized req.total_amount in
      let refund = normalized req.refund_amount in
      if not (valid_key req.idempotency_key)
        || is_empty req.out_refund_no
        || is_empty req.out_trade_no
      then some invalid_request
      else then_check (validate_money total) (
          then_check (validate_money refund) (
            if not (str_eq total.currency refund.currency)
              || ltb_ℤ total.amount_cents refund.amount_cents
            then some invalid_request
            else none))

-- validateQueryPaymentRequest
unfoldable pub validate_query_payment_request : QueryPaymentRequest → Option Error
validate_query_payment_request req =
    if is_empty req.out_trade_no && is_empty req.transaction_id then some invalid_request else none

-- validateCloseRequest
unfoldable pub validate_close_request : ClosePaymentRequest → Option Error
unfolding valid_key
validate_close_request req =
    if not (valid_key req.idempotency_key) || is_empty req.out_trade_no
    then some invalid_request
    else none

-- validateQueryRefundRequest
unfoldable pub validate_query_refund_request : QueryRefundRequest → Option Error
validate_query_refund_request req =
    if is_empty req.out_refund_no && is_empty req.transaction_id then some invalid_request else none
