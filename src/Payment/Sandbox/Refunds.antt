-- ===== src/Payment/Sandbox/Refunds.antt =====
-- backend-go/internal/payment/sandbox.go: the refunds of the sandbox provider.
use Prim.Native.String.{◌++◌ as str_append}
use chihuo.Base.{
  ℕ, String, Bool, true, false, not, ◌&&◌, ◌||◌, Option, none, some, Result, ok, err, List, [], ◌∷◌,
  str_eq, if◌then◌else◌,
}
use chihuo.Base.Text.{is_empty, decimal}
use chihuo.Base.Dict.{Dict, lookup, insert}
use chihuo.Domain.{Time}
use chihuo.Payment.Error.{Error, invalid_request, idempotency_conflict, not_found}
use chihuo.Payment.Provider.{ProviderPaymentStatus, ProviderRefundStatus}
use chihuo.Payment.Requests.{
  ApplyRefundRequest, RefundResult, QueryRefundRequest, Codec, Context, validate_context,
  request_fingerprint, normalized, validate_refund_request, validate_query_refund_request,
}
use chihuo.Payment.Sandbox.{
  SandboxPayment, SandboxRefund, SandboxProvider, next_sequence, done, fail, unless_error,
  check_idempotency, remember_idempotency, is_paid,
}

-- refund.result.Status == ProviderRefundSuccess || refund.result.Status == ProviderRefundClosed
unfoldable pub is_settled : ProviderRefundStatus → Bool
is_settled ProviderRefundStatus.success = true
is_settled ProviderRefundStatus.closed = true
is_settled _ = false

module _ (codec : Codec) where
  -- The refund result that ApplyRefund builds.
  unfoldable pub new_refund : ApplyRefundRequest → ℕ → RefundResult
  unfolding decimal normalized
  new_refund req sequence = record {
    provider = "sandbox";
    out_refund_no = req.out_refund_no;
    out_trade_no = req.out_trade_no;
    refund_id = str_append "sandbox_refund_" (decimal sequence);
    status = ProviderRefundStatus.processing;
    total_amount = normalized codec req.total_amount;
    refund_amount = normalized codec req.refund_amount;
    success_at = none;
  }

  -- The rest of ApplyRefund, with its request valid and its fingerprint taken.
  unfoldable pub refund_with :
      String → ApplyRefundRequest → SandboxProvider → Result Error RefundResult × SandboxProvider
  unfolding check_idempotency remember_idempotency is_paid new_refund
  refund_with fingerprint req p =
      unless_error (check_idempotency req.idempotency_key fingerprint "refund" p) p
        (elim (lookup req.out_trade_no p.payments) [
          | none ↦ fail not_found p
          | some payment ↦
              if not (is_paid payment.status)
              then fail invalid_request p
              else elim (lookup req.out_refund_no p.refunds) [
                | some existing ↦
                    if str_eq existing.fingerprint fingerprint
                    then done existing.result p
                    else fail idempotency_conflict p
                | none ↦
                    let result : RefundResult = new_refund req (next_sequence p) in
                    done result (record p {
                      sequence = next_sequence p;
                      refunds =
                          insert req.out_refund_no
                            (record { request = req; fingerprint = fingerprint; result = result })
                            p.refunds;
                      idempotency =
                          remember_idempotency req.idempotency_key fingerprint "refund"
                            p.idempotency;
                    })
              ]
        ])

  -- ApplyRefund
  unfoldable pub apply_refund :
      Context → ApplyRefundRequest → SandboxProvider → Result Error RefundResult × SandboxProvider
  unfolding validate_context validate_refund_request request_fingerprint
  apply_refund ctx req p = unless_error (validate_context ctx) p (
      unless_error (validate_refund_request codec req) p
        (elim (request_fingerprint codec (codec.marshal_refund req)) [
          | err e ↦ fail e p
          | ok fingerprint ↦ refund_with fingerprint req p
        ]))

-- The loop of QueryRefund, over the refunds in the order visited.
unfoldable pub find_refund : QueryRefundRequest → List SandboxRefund → Option RefundResult
find_refund req [] = none
find_refund req (refund ∷ rest) =
    let next = find_refund req rest in
    if (not (is_empty req.out_refund_no) && str_eq refund.result.out_refund_no req.out_refund_no)
      || (not (is_empty req.transaction_id)
          && str_eq refund.request.transaction_id req.transaction_id)
    then some refund.result
    else next

-- QueryRefund
unfoldable pub query_refund :
    Context
    → QueryRefundRequest
    → List SandboxRefund
    → SandboxProvider
    → Result Error RefundResult × SandboxProvider
unfolding validate_context validate_query_refund_request find_refund
query_refund ctx req visited p = unless_error (validate_context ctx) p (
    unless_error (validate_query_refund_request req) p
      (elim (find_refund req visited) [ none ↦ fail not_found p | some result ↦ done result p ]))

-- The end of CompleteRefund: the refund's payment is marked refunded, if it is there.
unfoldable pub refund_payment : String → Dict SandboxPayment → Dict SandboxPayment
refund_payment out_trade_no payments = elim (lookup out_trade_no payments) [
  | none ↦ payments
  | some payment ↦
      insert out_trade_no (record payment { status = ProviderPaymentStatus.refunded }) payments
]

-- CompleteRefund
unfoldable pub complete_refund :
    Time → String → Bool → SandboxProvider → Option Error × SandboxProvider
unfolding is_settled refund_payment
complete_refund now out_refund_no success p = elim (lookup out_refund_no p.refunds) [
  | none ↦ (some not_found, p)
  | some refund ↦
      if is_settled refund.result.status
      then (none, p)
      else if not success
      then (
        none,
        record p {
          refunds =
              insert out_refund_no
                (record refund {
                  result = record refund.result { status = ProviderRefundStatus.abnormal };
                })
                p.refunds;
        },
      )
      else (
        none,
        record p {
          refunds =
              insert out_refund_no
                (record refund {
                  result = record refund.result {
                    status = ProviderRefundStatus.success;
                    success_at = some now;
                  };
                })
                p.refunds;
          payments = refund_payment refund.result.out_trade_no p.payments;
        },
      )
]
