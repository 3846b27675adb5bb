-- ===== src/Examples/Sandboxes.antt =====
-- The sandbox provider, through a payment and its refund.
use chihuo.Base.{String, ◌≡◌, ◌≢◌, refl, true, List, [], ◌∷◌, arith, none, some, ok, err, eq_iff}
use chihuo.Base.Dict.{lookup, insert}
use chihuo.Base.Int.{pos}
use chihuo.Payment.Error.{idempotency_conflict}
use chihuo.Payment.Requests.{
  Money, CreateJsapiPrepayRequest, ApplyRefundRequest, PrepayResult, RefundResult, Codec, Context,
  validate_context, validate_create_request, validate_refund_request, request_fingerprint,
}
use chihuo.Payment.Sandbox.{
  SandboxPayment, SandboxRefund, SandboxProvider, new_sandbox_provider, create_jsapi_prepay,
  mark_payment_paid, create_with,
}
use chihuo.Payment.Sandbox.Refunds.{apply_refund, refund_with}
use chihuo.Payment.Sandbox.History.{
  Call, run, step, LaterIn, refunds_have_payments, payments_advance,
}
use chihuo.Payment.Sandbox.Lifecycle.{IsPaidIn}
use chihuo.Payment.Sandbox.Idempotency.{create_replayed}
use chihuo.Payment.Sandbox.Idempotency.Refunds.{refund_replayed}
use chihuo.Payment.Sandbox.Idempotency.Keys.{refund_key_reused, prepay_key_refunded}

-- Encodings that keep what names a request, and a digest that keeps its text.
abbrev codec : Codec
codec = record {
  to_upper = λ s. s;
  marshal_prepay = λ r. some r.idempotency_key;
  marshal_refund = λ r. some r.out_refund_no;
  sha256_hex = λ s. s;
}

abbrev price : Money
price = record { amount_cents = pos 1_800; currency = "CNY" }

abbrev prepay_request : CreateJsapiPrepayRequest
prepay_request = record {
  idempotency_key = "pay_order1";
  out_trade_no = "order1";
  order_id = "order1";
  open_id = "wx";
  amount = price;
  description = "Lunch";
  attach = "";
  notify_url = "https://example.org";
  expire_at = 1_000;
}

abbrev refund_request : ApplyRefundRequest
refund_request = record {
  idempotency_key = "refund_order1";
  out_refund_no = "refund1";
  out_trade_no = "order1";
  transaction_id = "";
  total_amount = price;
  refund_amount = price;
  reason = "";
  notify_url = "";
}

abbrev calls : List Call
calls =
    Call.creates Context.live 1 2 prepay_request
    ∷ Call.marks_paid 3 "order1"
    ∷ Call.refunds Context.live refund_request
    ∷ []

abbrev completion : List Call
completion = Call.completes 5 "refund1" true ∷ []

stored_refund :
    (r : SandboxRefund) × (lookup "refund1" (run codec calls new_sandbox_provider).refunds ≡ some r)
unfolding run lookup step apply_refund refund_with mark_payment_paid create_jsapi_prepay create_with
    new_sandbox_provider insert
stored_refund = (_, refl)

stored_payment :
    (q : SandboxPayment) × (lookup "order1" (run codec calls new_sandbox_provider).payments
      ≡ some q)
unfolding run lookup step apply_refund refund_with mark_payment_paid create_jsapi_prepay create_with
    new_sandbox_provider insert
stored_payment = (_, refl)

refunds_have_payments_example :
    IsPaidIn (run codec calls new_sandbox_provider).payments stored_refund.0.result.out_trade_no
refunds_have_payments_example =
    refunds_have_payments codec calls "refund1" stored_refund.0 stored_refund.1

payments_advance_example :
    LaterIn
      (run codec completion (run codec calls new_sandbox_provider)).payments
      "order1"
      stored_payment.0
payments_advance_example =
    payments_advance codec calls completion "order1" stored_payment.0 stored_payment.1

answered_prepay :
    (a : PrepayResult) × (p' : SandboxProvider) × (create_jsapi_prepay codec Context.live 1 2
        prepay_request new_sandbox_provider
      ≡ (ok a, p'))
unfolding lookup create_jsapi_prepay create_with new_sandbox_provider insert
answered_prepay = (_, _, refl)

live_context : validate_context Context.live ≡ none
unfolding validate_context
live_context = refl

later_valid : validate_create_request codec prepay_request 500 ≡ none
unfolding validate_create_request
later_valid = refl

create_replayed_example :
    create_jsapi_prepay codec Context.live 500 600 prepay_request answered_prepay.1
    ≡ (ok answered_prepay.0, answered_prepay.1)
create_replayed_example =
    create_replayed codec Context.live Context.live 1 2 500 600 prepay_request answered_prepay.0
      new_sandbox_provider answered_prepay.1 answered_prepay.2 live_context later_valid

abbrev paid_provider : SandboxProvider
paid_provider =
    run codec (Call.creates Context.live 1 2 prepay_request ∷ Call.marks_paid 3 "order1" ∷ [])
      new_sandbox_provider

answered_refund :
    (a : RefundResult) × (p' : SandboxProvider) × (apply_refund codec Context.live refund_request
        paid_provider
      ≡ (ok a, p'))
unfolding run lookup step apply_refund refund_with mark_payment_paid create_jsapi_prepay create_with
    new_sandbox_provider insert
answered_refund = (_, _, refl)

refund_replayed_example :
    apply_refund codec Context.live refund_request answered_refund.1
    ≡ (ok answered_refund.0, answered_refund.1)
refund_replayed_example =
    refund_replayed codec Context.live Context.live refund_request answered_refund.0 paid_provider
      answered_refund.1 answered_refund.2 live_context

-- Another refund that brings the first one's key, and one that brings the payment's.
abbrev second_refund : ApplyRefundRequest
second_refund = record refund_request { out_refund_no = "refund2" }

abbrev mixed_refund : ApplyRefundRequest
mixed_refund = record refund_request { idempotency_key = "pay_order1" }

abbrev first_name : String
first_name = "refund1"

abbrev second_name : String
second_name = "refund2"

no_refund_yet : lookup "refund1" paid_provider.refunds ≡ none
unfolding run lookup step mark_payment_paid create_jsapi_prepay create_with new_sandbox_provider
    insert
no_refund_yet = refl

no_payment_yet : lookup "order1" new_sandbox_provider.payments ≡ none
unfolding lookup new_sandbox_provider
no_payment_yet = refl

second_valid : validate_refund_request codec second_refund ≡ none
unfolding validate_refund_request
second_valid = refl

mixed_valid : validate_refund_request codec mixed_refund ≡ none
unfolding validate_refund_request
mixed_valid = refl

second_fingerprinted :
    request_fingerprint codec (codec.marshal_refund second_refund) ≡ ok second_name
unfolding request_fingerprint
second_fingerprinted = refl

mixed_fingerprinted : request_fingerprint codec (codec.marshal_refund mixed_refund) ≡ ok first_name
unfolding request_fingerprint
mixed_fingerprinted = refl

names_differ : request_fingerprint codec (codec.marshal_refund refund_request) ≢ ok second_name
unfolding request_fingerprint
names_differ e = ground (arith, e, eq_iff first_name second_name)

refund_key_reused_example :
    let later = run codec completion answered_refund.1 in
    apply_refund codec Context.live second_refund later ≡ (err idempotency_conflict, later)
refund_key_reused_example =
    refund_key_reused codec Context.live Context.live refund_request second_refund answered_refund.0
      paid_provider answered_refund.1 completion second_name answered_refund.2 no_refund_yet refl
      live_context second_valid second_fingerprinted names_differ

abbrev payment_marked : List Call
payment_marked = Call.marks_paid 3 "order1" ∷ []

prepay_key_refunded_example :
    let later = run codec payment_marked answered_prepay.1 in
    apply_refund codec Context.live mixed_refund later ≡ (err idempotency_conflict, later)
prepay_key_refunded_example =
    prepay_key_refunded codec Context.live Context.live 1 2 prepay_request mixed_refund
      answered_prepay.0 new_sandbox_provider answered_prepay.1 payment_marked first_name
      answered_prepay.2 no_payment_yet refl live_context mixed_valid mixed_fingerprinted
