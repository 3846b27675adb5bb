-- ===== src/Payment/Sandbox.antt =====
-- backend-go/internal/payment/sandbox.go: the provider that simulates payments in memory. Each
-- method holds the provider's lock, so it is one step; it takes its context and the times that the
-- clock gives as arguments, and returns its result and the provider afterwards. What the maps
-- `payments` and `refunds` hold by pointer is written back under its key.
pub mod Refunds
pub mod Idempotency
pub mod Lifecycle
pub mod History
use Prim.Native.String.{◌++◌ as str_append}
use chihuo.Base.{
  ℕ, ◌+◌, ◌-◌, ◌%◌, ◌^◌, ◌/◌, String, Bool, true, false, not, ◌&&◌, ◌||◌, Option, none, some,
  Result, ok, err, List, [], ◌∷◌, str_eq, if◌then◌else◌, is_nil,
}
use chihuo.Base.Text.{is_empty, decimal}
use chihuo.Base.Dict.{Dict, lookup, insert}
use chihuo.Base.Int.{pos}
use chihuo.Domain.{Time}
use chihuo.Payment.Error.{
  Error, invalid_request, idempotency_conflict, not_found, already_finalized,
}
use chihuo.Payment.PaymentStatus
use chihuo.Payment.Provider
use chihuo.Payment.Provider.{ProviderPaymentStatus, ProviderRefundStatus}
use chihuo.Payment.Requests.{
  Money, CreateJsapiPrepayRequest, JsapiPaymentParams, PrepayResult, QueryPaymentRequest,
  PaymentResult, ClosePaymentRequest, ClosePaymentResult, ApplyRefundRequest, RefundResult,
  QueryRefundRequest, Codec, Context, validate_context, request_fingerprint, normalized,
  validate_create_request, validate_refund_request, validate_query_payment_request,
  validate_close_request, validate_query_refund_request,
}

pub record SandboxPayment : Type 0 where
  pub request : CreateJsapiPrepayRequest
  pub fingerprint : String
  pub prepay : PrepayResult
  pub transaction_id : String
  pub status : ProviderPaymentStatus
  pub paid_at : Option Time

pub record SandboxRefund : Type 0 where
  pub request : ApplyRefundRequest
  pub fingerprint : String
  pub result : RefundResult

pub record SandboxIdempotencyRecord : Type 0 where
  pub fingerprint : String
  pub kind : String
  pub key : String

pub record SandboxProvider : Type 0 where
  pub sequence : ℕ  -- uint64
  pub payments : Dict SandboxPayment
  pub refunds : Dict SandboxRefund
  pub idempotency : Dict SandboxIdempotencyRecord

-- NewSandboxProvider
unfoldable pub new_sandbox_provider : SandboxProvider
new_sandbox_provider = record { sequence = 0; payments = []; refunds = []; idempotency = [] }

-- p.sequence++
abbrev pub next_sequence : SandboxProvider → ℕ
next_sequence p = (p.sequence + 1) % 2 ^ 64

abbrev pub done {ℓ} : {A : Type ℓ} → A → SandboxProvider → Result Error A × SandboxProvider
done a p = (ok a, p)

abbrev pub fail {ℓ} : {A : Type ℓ} → Error → SandboxProvider → Result Error A × SandboxProvider
fail e p = (err e, p)

-- `if err := check; err != nil { return …, err }`
abbrev pub unless_error {ℓ} :
    {A : Type ℓ}
    → Option Error
    → SandboxProvider
    → Result Error A × SandboxProvider
    → Result Error A × SandboxProvider
unless_error none p rest = rest
unless_error (some e) p rest = fail e p

-- checkIdempotency
unfoldable pub check_idempotency : String → String → String → SandboxProvider → Option Error
check_idempotency key fingerprint kind p = elim (lookup key p.idempotency) [
  | none ↦ none
  | some existing ↦
      if not (str_eq existing.fingerprint fingerprint) || not (str_eq existing.kind kind)
      then some idempotency_conflict
      else none
]

-- rememberIdempotency
unfoldable pub remember_idempotency :
    String → String → String → Dict SandboxIdempotencyRecord → Dict SandboxIdempotencyRecord
remember_idempotency key fingerprint kind records =
    insert key (record { fingerprint = fingerprint; kind = kind; key = key }) records

-- payment.status == ProviderPaymentSuccess || payment.status == ProviderPaymentRefunded
unfoldable pub is_paid : ProviderPaymentStatus → Bool
is_paid ProviderPaymentStatus.success = true
is_paid ProviderPaymentStatus.refunded = true
is_paid _ = false

-- payment.status == ProviderPaymentClosed
unfoldable pub is_closed : ProviderPaymentStatus → Bool
is_closed ProviderPaymentStatus.closed = true
is_closed _ = false

-- payment.status == ProviderPaymentNotPay
unfoldable pub is_not_pay : ProviderPaymentStatus → Bool
is_not_pay ProviderPaymentStatus.not_pay = true
is_not_pay _ = false

-- `t.Unix()`: Go's zero time is 62,135,596,800 seconds before 1970, and the clock reads later times.
unfoldable pub unix_seconds : Time → ℕ
unix_seconds t = t / 1_000_000_000 - 62_135_596_800

-- The prepay result that CreateJSAPIPrepay builds, for a sequence number and the clock's reading.
unfoldable pub new_prepay : CreateJsapiPrepayRequest → ℕ → Time → PrepayResult
unfolding decimal unix_seconds
new_prepay req sequence now =
    let prepay_id = str_append "sandbox_prepay_" (decimal sequence) in
    record {
      provider = "sandbox";
      out_trade_no = req.out_trade_no;
      prepay_id = prepay_id;
      payment_status = PaymentStatus.prepay_created;
      payment_params = record {
        app_id = "sandbox";
        time_stamp = decimal (unix_seconds now);
        nonce_str = str_append "sandbox_nonce_" (decimal sequence);
        package_value = str_append "prepay_id=" prepay_id;
        sign_type = "SANDBOX";
        pay_sign = "";
      };
      expires_at = req.expire_at;
    }

module _ (codec : Codec) where
  -- The rest of CreateJSAPIPrepay, with its request valid and its fingerprint taken.
  unfoldable pub create_with :
      String
      → Time
      → CreateJsapiPrepayRequest
      → SandboxProvider
      → Result Error PrepayResult × SandboxProvider
  unfolding check_idempotency remember_idempotency new_prepay
  create_with fingerprint later req p =
      unless_error (check_idempotency req.idempotency_key fingerprint "payment" p) p
        (elim (lookup req.out_trade_no p.payments) [
          | some existing ↦
              if str_eq existing.fingerprint fingerprint
              then done existing.prepay p
              else fail idempotency_conflict p
          | none ↦
              let pay_result : PrepayResult = new_prepay req (next_sequence p) later in
              done pay_result (record p {
                sequence = next_sequence p;
                payments =
                    insert req.out_trade_no
                      (record {
                        request = req;
                        fingerprint = fingerprint;
                        prepay = pay_result;
                        transaction_id = "";
                        status = ProviderPaymentStatus.not_pay;
                        paid_at = none;
                      })
                      p.payments;
                idempotency =
                    remember_idempotency req.idempotency_key fingerprint "payment" p.idempotency;
              })
        ])

  -- CreateJSAPIPrepay; `now` is read for the check and `later` for the time stamp
  unfoldable pub create_jsapi_prepay :
      Context
      → Time
      → Time
      → CreateJsapiPrepayRequest
      → SandboxProvider
      → Result Error PrepayResult × SandboxProvider
  unfolding validate_context validate_create_request request_fingerprint
  create_jsapi_prepay ctx now later req p = unless_error (validate_context ctx) p (
      unless_error (validate_create_request codec req now) p
        (elim (request_fingerprint codec (codec.marshal_prepay req)) [
          | err e ↦ fail e p
          | ok fingerprint ↦ create_with fingerprint later req p
        ]))

  -- The payments in an order of the runtime's choosing: the first of a transaction id.
  unfoldable pub find_transaction : String → List SandboxPayment → Option SandboxPayment
  find_transaction transaction_id [] = none
  find_transaction transaction_id (payment ∷ rest) =
      let next = find_transaction transaction_id rest in
      if str_eq payment.transaction_id transaction_id then some payment else next

  -- findPayment; `visited` are the payments in the order of the loop
  unfoldable pub find_payment :
      String → String → List SandboxPayment → SandboxProvider → Option SandboxPayment
  unfolding find_transaction
  find_payment out_trade_no transaction_id visited p =
      if is_empty out_trade_no
      then find_transaction transaction_id visited
      else lookup out_trade_no p.payments

  -- QueryPayment
  unfoldable pub query_payment :
      Context
      → QueryPaymentRequest
      → List SandboxPayment
      → SandboxProvider
      → Result Error PaymentResult × SandboxProvider
  unfolding validate_context validate_query_payment_request find_payment is_paid normalized
  query_payment ctx req visited p = unless_error (validate_context ctx) p (
      unless_error (validate_query_payment_request req) p
        (elim (find_payment req.out_trade_no req.transaction_id visited p) [
          | none ↦ fail not_found p
          | some payment ↦
              let amount = normalized codec payment.request.amount in
              done
                (record {
                  provider = "sandbox";
                  out_trade_no = payment.request.out_trade_no;
                  transaction_id = payment.transaction_id;
                  status = payment.status;
                  paid_amount =
                      if is_paid payment.status
                      then amount
                      else record { amount_cents = pos 0; currency = amount.currency };
                  paid_at = payment.paid_at;
                })
                p
        ]))

  -- ClosePayment
  unfoldable pub close_payment :
      Context
      → Time
      → ClosePaymentRequest
      → SandboxProvider
      → Result Error ClosePaymentResult × SandboxProvider
  unfolding validate_context validate_close_request is_paid is_closed
  close_payment ctx now req p =
      let result : ClosePaymentResult = record {
        provider = "sandbox";
        out_trade_no = req.out_trade_no;
        status = ProviderPaymentStatus.closed;
        closed_at = some now;
      } in
      unless_error (validate_context ctx) p (
        unless_error (validate_close_request req) p (elim (lookup req.out_trade_no p.payments) [
          | none ↦ fail not_found p
          | some payment ↦
              if is_paid payment.status
              then fail already_finalized p
              else if is_closed payment.status
              then done result p
              else done result (record p {
                payments =
                    insert req.out_trade_no
                      (record payment { status = ProviderPaymentStatus.closed }) p.payments;
              })
        ]))

-- MarkPaymentPaying: an error, or none
unfoldable pub mark_payment_paying : String → SandboxProvider → Option Error × SandboxProvider
unfolding is_not_pay
mark_payment_paying out_trade_no p = elim (lookup out_trade_no p.payments) [
  | none ↦ (some not_found, p)
  | some payment ↦ if not (is_not_pay payment.status) then (some already_finalized, p) else (
    none,
    record p {
      payments =
          insert out_trade_no (record payment { status = ProviderPaymentStatus.paying }) p.payments;
    },
  )
]

-- MarkPaymentPaid
unfoldable pub mark_payment_paid : Time → String → SandboxProvider → Option Error × SandboxProvider
unfolding is_paid is_closed decimal
mark_payment_paid now out_trade_no p = elim (lookup out_trade_no p.payments) [
  | none ↦ (some not_found, p)
  | some payment ↦
      if is_paid payment.status
      then (none, p)
      else if is_closed payment.status
      then (some already_finalized, p)
      else (
        none,
        record p {
          sequence = next_sequence p;
          payments =
              insert out_trade_no
                (record payment {
                  status = ProviderPaymentStatus.success;
                  transaction_id = str_append "sandbox_transaction_" (decimal (next_sequence p));
                  paid_at = some now;
                })
                p.payments;
        },
      )
]
