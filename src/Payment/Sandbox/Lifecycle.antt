-- ===== src/Payment/Sandbox/Lifecycle.antt =====
-- The life of a payment in the sandbox: what each operation may do to the payments and the refunds,
-- and what follows for any history of operations.
pub mod Requests
pub mod Marks
use chihuo.Base.{
  String, ◌≡◌, refl, ap, Bool, true, false, not, inl, inr, none, some, arith, str_eq, if_cases,
  Bool-cases, Option-cases, Result-cases,
}
use chihuo.Base.Dict.{Dict, lookup, insert, Each}
use chihuo.Domain.{Time}
use chihuo.Payment.Error.{idempotency_conflict}
use chihuo.Payment.Provider.{ProviderPaymentStatus}
use chihuo.Payment.Requests.{
  CreateJsapiPrepayRequest, ClosePaymentRequest, ApplyRefundRequest, Codec, Context,
  request_fingerprint, validate_context, validate_create_request, validate_close_request,
  validate_refund_request,
}
use chihuo.Payment.Sandbox.{
  SandboxPayment, SandboxRefund, SandboxProvider, done, fail, is_paid, is_closed, is_not_pay,
  check_idempotency, create_with, create_jsapi_prepay, close_payment, mark_payment_paying,
  mark_payment_paid,
}
use chihuo.Payment.Sandbox.Refunds.{
  is_settled, new_refund, refund_with, apply_refund, refund_payment, complete_refund,
}

-- The moves of a payment's status.
pub data Moves : ProviderPaymentStatus → ProviderPaymentStatus → Type 0 where
  opens : Moves ProviderPaymentStatus.not_pay ProviderPaymentStatus.paying
  pays :
      {s : ProviderPaymentStatus}
      → is_paid s ≡ false
      → is_closed s ≡ false
      → Moves s ProviderPaymentStatus.success
  closes : {s : ProviderPaymentStatus} → is_paid s ≡ false → Moves s ProviderPaymentStatus.closed
  refunds : {s : ProviderPaymentStatus} → is_paid s ≡ true → Moves s ProviderPaymentStatus.refunded

-- What an operation may do to the payments: nothing, add one that is not paid, or move one.
pub data PaymentsChange (ps ps' : Dict SandboxPayment) : Type 0 where
  kept : ps' ≡ ps → PaymentsChange ps ps'
  added :
      (k : String) (q : SandboxPayment)
      → lookup k ps ≡ none
      → q.status ≡ ProviderPaymentStatus.not_pay
      → q.request.out_trade_no ≡ k
      → ps' ≡ insert k q ps
      → PaymentsChange ps ps'
  moved :
      (k : String) (q q' : SandboxPayment)
      → lookup k ps ≡ some q
      → Moves q.status q'.status
      → q'.request ≡ q.request
      → ps' ≡ insert k q' ps
      → PaymentsChange ps ps'

-- The payment of a trade number is there, and paid.
abbrev pub IsPaidIn : Dict SandboxPayment → String → Type 0
IsPaidIn ps k = (q : SandboxPayment) × (lookup k ps ≡ some q) × (is_paid q.status ≡ true)

-- What an operation may do to the refunds: nothing, or write one whose payment is paid.
pub data RefundsChange (ps : Dict SandboxPayment) (rs rs' : Dict SandboxRefund) : Type 0 where
  kept : rs' ≡ rs → RefundsChange ps rs rs'
  wrote :
      (k : String) (r : SandboxRefund)
      → IsPaidIn ps r.result.out_trade_no
      → rs' ≡ insert k r rs
      → RefundsChange ps rs rs'

pub record Change (p p' : SandboxProvider) : Type 0 where
  pub payments : PaymentsChange p.payments p'.payments
  pub refunds : RefundsChange p.payments p.refunds p'.refunds

-- Every refund's payment is there, and paid.
abbrev pub RefundsArePaid : SandboxProvider → Type 0
RefundsArePaid p = Each (λ k r. IsPaidIn p.payments r.result.out_trade_no) p.refunds

pub unchanged : (p : SandboxProvider) → Change p p
unchanged p = record { payments = PaymentsChange.kept refl; refunds = RefundsChange.kept refl }

same_after : (p p' : SandboxProvider) → p' ≡ p → Change p p'
same_after p p' e = record {
  payments = PaymentsChange.kept (ap (λ x. x.payments) e);
  refunds = RefundsChange.kept (ap (λ x. x.refunds) e);
}
