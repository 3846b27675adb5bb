-- ===== src/Payment/Sandbox/Idempotency/Refunds.antt =====
-- Retries of refund requests, ApplyRefund of backend-go/internal/payment/sandbox.go.
use Prim.{Unit, tt}
use chihuo.Base.{
  String, str_eq, ◌≡◌, ◌≢◌, ◌⊎◌, refl, subst, ◌∙◌, true, false, none, some, Result, ok, err, inl,
  inr, Bool-cases, Option-cases,
}
use chihuo.Base.Dict.{lookup, insert, lookup-insert_self}
use chihuo.Payment.Error.{Error, idempotency_conflict, not_found, invalid_request}
use chihuo.Payment.Requests.{
  ApplyRefundRequest, RefundResult, Codec, Context, validate_context, validate_refund_request,
  request_fingerprint,
}
use chihuo.Payment.Sandbox.{
  SandboxPayment, SandboxRefund, SandboxIdempotencyRecord, SandboxProvider, check_idempotency, done,
  fail, remember_idempotency, is_paid, next_sequence,
}
use chihuo.Payment.Sandbox.Refunds.{refund_with, apply_refund, new_refund}
use chihuo.Payment.Sandbox.Idempotency.{
  same_text, remembered_check, other_check, unless_error_ok, unless_error_passed,
}

module _ (codec : Codec) (fingerprint : String) (req : ApplyRefundRequest) where
  -- A second call returns what the first returned, and changes nothing.
  abbrev SameRefund : Result Error RefundResult × SandboxProvider → Type 0
  SameRefund (err e, p) = Unit {0}
  SameRefund (ok a, p) = refund_with codec fingerprint req p ≡ (ok a, p)

  pub refund_with_refused :
      (e : Error) (p : SandboxProvider)
      → check_idempotency req.idempotency_key fingerprint "refund" p ≡ some e
      → refund_with codec fingerprint req p ≡ fail e p
  unfolding refund_with
  refund_with_refused e p bad = rw bad refl

  pub refund_with_missing :
      (p : SandboxProvider)
      → check_idempotency req.idempotency_key fingerprint "refund" p ≡ none
      → lookup req.out_trade_no p.payments ≡ none
      → refund_with codec fingerprint req p ≡ fail not_found p
  unfolding refund_with
  refund_with_missing p good missing = rw (good, missing) refl

  pub refund_with_unpaid :
      (q : SandboxPayment) (p : SandboxProvider)
      → check_idempotency req.idempotency_key fingerprint "refund" p ≡ none
      → lookup req.out_trade_no p.payments ≡ some q
      → is_paid q.status ≡ false
      → refund_with codec fingerprint req p ≡ fail invalid_request p
  unfolding refund_with
  refund_with_unpaid q p good there unpaid = rw (good, there, unpaid) refl

  pub refund_with_found :
      (q : SandboxPayment) (r : SandboxRefund) (p : SandboxProvider)
      → check_idempotency req.idempotency_key fingerprint "refund" p ≡ none
      → lookup req.out_trade_no p.payments ≡ some q
      → is_paid q.status ≡ true
      → lookup req.out_refund_no p.refunds ≡ some r
      → str_eq r.fingerprint fingerprint ≡ true
      → refund_with codec fingerprint req p ≡ done r.result p
  unfolding refund_with
  refund_with_found q r p good there paid again same = rw (good, there, paid, again, same) refl

  pub refund_with_conflict :
      (q : SandboxPayment) (r : SandboxRefund) (p : SandboxProvider)
      → check_idempotency req.idempotency_key fingerprint "refund" p ≡ none
      → lookup req.out_trade_no p.payments ≡ some q
      → is_paid q.status ≡ true
      → lookup req.out_refund_no p.refunds ≡ some r
      → str_eq r.fingerprint fingerprint ≡ false
      → refund_with codec fingerprint req p ≡ fail idempotency_conflict p
  unfolding refund_with
  refund_with_conflict q r p good there paid again other = rw (good, there, paid, again, other) refl

  -- The refund that a first request stores, and the provider that it leaves.
  abbrev pub stored : SandboxProvider → SandboxRefund
  stored p = record {
    request = req;
    fingerprint = fingerprint;
    result = new_refund codec req (next_sequence p);
  }

  abbrev pub refunded : SandboxProvider → SandboxProvider
  refunded p = record p {
    sequence = next_sequence p;
    refunds = insert req.out_refund_no (stored p) p.refunds;
    idempotency =
        insert req.idempotency_key
          (record { fingerprint = fingerprint; kind = "refund"; key = req.idempotency_key })
          p.idempotency;
  }

  pub refund_with_fresh :
      (q : SandboxPayment) (p : SandboxProvider)
      → check_idempotency req.idempotency_key fingerprint "refund" p ≡ none
      → lookup req.out_trade_no p.payments ≡ some q
      → is_paid q.status ≡ true
      → lookup req.out_refund_no p.refunds ≡ none
      → refund_with codec fingerprint req p
        ≡ done (new_refund codec req (next_sequence p)) (refunded p)
  unfolding refund_with remember_idempotency
  refund_with_fresh q p good there paid fresh = rw (good, there, paid, fresh) refl

  refund_paid_again :
      (q : SandboxPayment) (p : SandboxProvider)
      → check_idempotency req.idempotency_key fingerprint "refund" p ≡ none
      → lookup req.out_trade_no p.payments ≡ some q
      → is_paid q.status ≡ true
      → SameRefund (refund_with codec fingerprint req p)
  refund_paid_again q p good there paid = elim (Option-cases (lookup req.out_refund_no p.refunds)) [
    | inr (r, found) ↦ elim (Bool-cases (str_eq r.fingerprint fingerprint)) [
      | inl same ↦ let again = refund_with_found q r p good there paid found same in rw again again
      | inr other ↦ rw (refund_with_conflict q r p good there paid found other) tt
    ]
    | inl fresh ↦ rw (refund_with_fresh q p good there paid fresh) (
        refund_with_found q (stored p) (refunded p)
          (remembered_check req.idempotency_key fingerprint "refund" (refunded p)
            (lookup-insert_self req.idempotency_key _ p.idempotency))
          there paid (lookup-insert_self req.out_refund_no _ p.refunds) (same_text fingerprint))
  ]

  refund_with_again : (p : SandboxProvider) → SameRefund (refund_with codec fingerprint req p)
  refund_with_again p =
      elim (Option-cases (check_idempotency req.idempotency_key fingerprint "refund" p)) [
        | inr (e, bad) ↦ rw (refund_with_refused e p bad) tt
        | inl good ↦ elim (Option-cases (lookup req.out_trade_no p.payments)) [
          | inl missing ↦ rw (refund_with_missing p good missing) tt
          | inr (q, there) ↦ elim (Bool-cases (is_paid q.status)) [
            | inr unpaid ↦ rw (refund_with_unpaid q p good there unpaid) tt
            | inl paid ↦ refund_paid_again q p good there paid
          ]
        ]
      ]

module _ (codec : Codec) (ctx : Context) (req : ApplyRefundRequest) where
  pub apply_refund_checked :
      (f : String) (p : SandboxProvider)
      → validate_context ctx ≡ none
      → validate_refund_request codec req ≡ none
      → request_fingerprint codec (codec.marshal_refund req) ≡ ok f
      → apply_refund codec ctx req p ≡ refund_with codec f req p
  unfolding apply_refund
  apply_refund_checked f p is_live valid good = rw (is_live, valid, good) refl

  pub apply_refund_ok :
      (a : RefundResult) (p p' : SandboxProvider)
      → apply_refund codec ctx req p ≡ (ok a, p')
      → (f : String) × (request_fingerprint codec (codec.marshal_refund req) ≡ ok f)
        × (refund_with codec f req p ≡ (ok a, p'))
        × (validate_refund_request codec req ≡ none)
  unfolding apply_refund
  apply_refund_ok a p p' answered =
      let checked = unless_error_ok (validate_context ctx) a p p' _ answered in
      let (f, good, made) =
        go (request_fingerprint codec (codec.marshal_refund req)) refl
          (unless_error_ok (validate_refund_request codec req) a p p' _ checked) in
      (f, good, made, unless_error_passed (validate_refund_request codec req) a p p' _ checked)
    where
      go :
          (r : Result Error String)
          → request_fingerprint codec (codec.marshal_refund req) ≡ r
          → elim r [ err e ↦ fail e p | ok f ↦ refund_with codec f req p ] ≡ (ok a, p')
          → (f : String) × (request_fingerprint codec (codec.marshal_refund req) ≡ ok f)
            × (refund_with codec f req p ≡ (ok a, p'))
      go (ok f) good h = (f, good, h)
      go (err e) bad h = cc

-- A refund request that was answered with a result is sent again: it gets the same result, and the
-- provider stays as the first call left it, so the retry gives back no more money.
pub refund_replayed :
    (codec : Codec) (first_ctx ctx : Context) (req : ApplyRefundRequest) (a : RefundResult)
    (p p' : SandboxProvider)
    → apply_refund codec first_ctx req p ≡ (ok a, p')
    → validate_context ctx ≡ none
    → apply_refund codec ctx req p' ≡ (ok a, p')
refund_replayed codec first_ctx ctx req a p p' answered is_live =
    let (f, good, made, valid) = apply_refund_ok codec first_ctx req a p p' answered in
    apply_refund_checked codec ctx req f p' is_live valid good
    ∙ subst (SameRefund codec f req) made (refund_with_again codec f req p)

-- A valid refund request whose key is recorded for something else is refused.
pub recorded_key_refused :
    (codec : Codec) (ctx : Context) (req : ApplyRefundRequest) (fingerprint : String)
    (entry : SandboxIdempotencyRecord) (p : SandboxProvider)
    → validate_context ctx ≡ none
    → validate_refund_request codec req ≡ none
    → request_fingerprint codec (codec.marshal_refund req) ≡ ok fingerprint
    → lookup req.idempotency_key p.idempotency ≡ some entry
    → (entry.fingerprint ≢ fingerprint) ⊎ (entry.kind ≢ "refund")
    → apply_refund codec ctx req p ≡ (err idempotency_conflict, p)
recorded_key_refused codec ctx req fingerprint entry p is_live valid good found other =
    apply_refund_checked codec ctx req fingerprint p is_live valid good
    ∙ refund_with_refused codec fingerprint req idempotency_conflict p
        (other_check req.idempotency_key fingerprint "refund" entry p found other)
