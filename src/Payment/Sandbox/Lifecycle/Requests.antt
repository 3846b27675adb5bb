-- ===== src/Payment/Sandbox/Lifecycle/Requests.antt =====
-- Each request to the sandbox provider, backend-go/internal/payment/sandbox.go, changes the payments and
-- the refunds as Lifecycle allows.
use chihuo.Base.{String, refl, inl, inr, str_eq, if_cases, Bool-cases, Option-cases, Result-cases}
use chihuo.Base.Dict.{lookup}
use chihuo.Domain.{Time}
use chihuo.Payment.Error.{idempotency_conflict}
use chihuo.Payment.Requests.{
  CreateJsapiPrepayRequest, ClosePaymentRequest, ApplyRefundRequest, Codec, Context,
  request_fingerprint, validate_context, validate_create_request, validate_close_request,
  validate_refund_request,
}
use chihuo.Payment.Sandbox.{
  SandboxProvider, done, fail, is_paid, is_closed, check_idempotency, create_with,
  create_jsapi_prepay, close_payment,
}
use chihuo.Payment.Sandbox.Refunds.{new_refund, refund_with, apply_refund}
use chihuo.Payment.Sandbox.Lifecycle.{Moves, PaymentsChange, RefundsChange, Change, unchanged}

module _ (codec : Codec) (p : SandboxProvider) where
  create_with-Change :
      (fingerprint : String) (later : Time) (req : CreateJsapiPrepayRequest)
      → Change p (create_with codec fingerprint later req p).1
  unfolding create_with
  create_with-Change fingerprint later req =
      elim (Option-cases (check_idempotency req.idempotency_key fingerprint "payment" p)) [
        | inr (e, bad) ↦ rw (bad, create_with) (unchanged p)
        | inl good ↦
            rw (good, create_with)
              (elim (Option-cases (lookup req.out_trade_no p.payments)) [
                | inr (q, there) ↦
                    rw (there, create_with)
                      (if_cases (λ r. Change p r.1) (str_eq q.fingerprint fingerprint)
                        (done q.prepay p) (fail idempotency_conflict p) (λ _. unchanged p)
                        (λ _. unchanged p))
                | inl fresh ↦
                    rw (fresh, create_with)
                      (record {
                        payments = PaymentsChange.added req.out_trade_no _ fresh refl refl refl;
                        refunds = RefundsChange.kept refl;
                      })
              ])
      ]

  pub create_jsapi_prepay-Change :
      (ctx : Context) (now later : Time) (req : CreateJsapiPrepayRequest)
      → Change p (create_jsapi_prepay codec ctx now later req p).1
  unfolding create_jsapi_prepay
  create_jsapi_prepay-Change ctx now later req = elim (Option-cases (validate_context ctx)) [
    | inr (e, bad) ↦ rw (bad, create_jsapi_prepay) (unchanged p)
    | inl live ↦
        rw (live, create_jsapi_prepay)
          (elim (Option-cases (validate_create_request codec req now)) [
            | inr (e, bad) ↦ rw (bad, create_jsapi_prepay) (unchanged p)
            | inl valid ↦
                rw (valid, create_jsapi_prepay)
                  (elim (Result-cases (request_fingerprint codec (codec.marshal_prepay req))) [
                    | inr (e, bad) ↦ rw (bad, create_jsapi_prepay) (unchanged p)
                    | inl (f, good) ↦
                        rw (good, create_jsapi_prepay) (create_with-Change f later req)
                  ])
          ])
  ]

  pub close_payment-Change :
      (ctx : Context) (now : Time) (req : ClosePaymentRequest)
      → Change p (close_payment codec ctx now req p).1
  unfolding close_payment
  close_payment-Change ctx now req = elim (Option-cases (validate_context ctx)) [
    | inr (e, bad) ↦ rw (bad, close_payment) (unchanged p)
    | inl live ↦
        rw (live, close_payment)
          (elim (Option-cases (validate_close_request req)) [
            | inr (e, bad) ↦ rw (bad, close_payment) (unchanged p)
            | inl valid ↦
                rw (valid, close_payment)
                  (elim (Option-cases (lookup req.out_trade_no p.payments)) [
                    | inl missing ↦ rw (missing, close_payment) (unchanged p)
                    | inr (q, found) ↦
                        rw (found, close_payment)
                          (elim (Bool-cases (is_paid q.status)) [
                            | inl paid ↦ rw paid (unchanged p)
                            | inr unpaid ↦ rw unpaid (elim (Bool-cases (is_closed q.status)) [
                              | inl shut ↦ rw shut (unchanged p)
                              | inr still ↦ rw still (record {
                                payments =
                                    PaymentsChange.moved req.out_trade_no q _ found
                                      (Moves.closes unpaid) refl refl;
                                refunds = RefundsChange.kept refl;
                              })
                            ])
                          ])
                  ])
          ])
  ]

  refund_with-Change :
      (fingerprint : String) (req : ApplyRefundRequest)
      → Change p (refund_with codec fingerprint req p).1
  unfolding refund_with new_refund
  refund_with-Change fingerprint req =
      elim (Option-cases (check_idempotency req.idempotency_key fingerprint "refund" p)) [
        | inr (e, bad) ↦ rw (bad, refund_with) (unchanged p)
        | inl good ↦
            rw (good, refund_with)
              (elim (Option-cases (lookup req.out_trade_no p.payments)) [
                | inl missing ↦ rw (missing, refund_with) (unchanged p)
                | inr (q, found) ↦
                    rw (found, refund_with)
                      (elim (Bool-cases (is_paid q.status)) [
                        | inr unpaid ↦ rw unpaid (unchanged p)
                        | inl paid ↦
                            rw paid (elim (Option-cases (lookup req.out_refund_no p.refunds)) [
                              | inr (r, there) ↦
                                  rw (there, refund_with)
                                    (if_cases (λ x. Change p x.1) (str_eq r.fingerprint fingerprint)
                                      (done r.result p) (fail idempotency_conflict p)
                                      (λ _. unchanged p) (λ _. unchanged p))
                              | inl fresh ↦
                                  rw (fresh, refund_with)
                                    (record {
                                      payments = PaymentsChange.kept refl;
                                      refunds =
                                          RefundsChange.wrote req.out_refund_no _ (q, found, paid)
                                            refl;
                                    })
                            ])
                      ])
              ])
      ]

  pub apply_refund-Change :
      (ctx : Context) (req : ApplyRefundRequest) → Change p (apply_refund codec ctx req p).1
  unfolding apply_refund
  apply_refund-Change ctx req = elim (Option-cases (validate_context ctx)) [
    | inr (e, bad) ↦ rw (bad, apply_refund) (unchanged p)
    | inl live ↦
        rw (live, apply_refund)
          (elim (Option-cases (validate_refund_request codec req)) [
            | inr (e, bad) ↦ rw (bad, apply_refund) (unchanged p)
            | inl valid ↦
                rw (valid, apply_refund)
                  (elim (Result-cases (request_fingerprint codec (codec.marshal_refund req))) [
                    | inr (e, bad) ↦ rw (bad, apply_refund) (unchanged p)
                    | inl (f, good) ↦ rw (good, apply_refund) (refund_with-Change f req)
                  ])
          ])
  ]
