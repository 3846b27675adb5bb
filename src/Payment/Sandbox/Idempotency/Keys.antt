-- ===== src/Payment/Sandbox/Idempotency/Keys.antt =====
-- Idempotency keys of the sandbox provider, backend-go/internal/payment/sandbox.go, over any later
-- calls: a key that served a request serves no other.
use chihuo.Base.{
  String, str_eq, eq_iff, ◌≡◌, ◌≢◌, ◌⊎◌, ap, refl, sym, ◌∙◌, subst, none, some, Result, ok, err,
  inl, inr, arith, Bool, Bool-cases, Option-cases, Option, List, [], ◌∷◌,
}
use chihuo.Base.Dict.{Dict, lookup, lookup-insert_at, lookup-insert_ne, lookup-insert_self}
use chihuo.Domain.{Time}
use chihuo.Payment.Error.{Error, idempotency_conflict}
use chihuo.Payment.Requests.{
  CreateJsapiPrepayRequest, PrepayResult, ApplyRefundRequest, RefundResult, ClosePaymentRequest,
  Codec, Context, validate_context, validate_create_request, validate_refund_request,
  request_fingerprint,
}
use chihuo.Payment.Sandbox.{
  SandboxIdempotencyRecord, SandboxProvider, check_idempotency, create_with, create_jsapi_prepay,
  close_payment, mark_payment_paying, mark_payment_paid, fail, unless_error, remember_idempotency,
  is_paid,
}
use chihuo.Payment.Sandbox.Refunds.{refund_with, apply_refund, complete_refund}
use chihuo.Payment.Sandbox.History.{Call, step, run}
use chihuo.Payment.Sandbox.Idempotency.{
  create_with_refused, create_with_found, create_with_conflict, create_with_fresh,
  create_jsapi_prepay_ok,
}
use chihuo.Payment.Sandbox.Idempotency.Refunds.{
  refund_with_refused, refund_with_missing, refund_with_unpaid, refund_with_found,
  refund_with_conflict, refund_with_fresh, apply_refund_ok, recorded_key_refused,
}

-- The records keep a key for requests of one kind with one fingerprint.
abbrev pub IsUsedFor : String → String → String → Dict SandboxIdempotencyRecord → Type 0
IsUsedFor key fingerprint kind records =
    (entry : SandboxIdempotencyRecord) × (lookup key records ≡ some entry)
    × (entry.fingerprint ≡ fingerprint)
    × (entry.kind ≡ kind)

-- A request that passes the check of its key writes nothing else under a key in use.
module _ (key fingerprint kind : String) where
  remembered-IsUsedFor :
      (place f k : String) (p : SandboxProvider)
      → check_idempotency place f k p ≡ none
      → IsUsedFor key fingerprint kind p.idempotency
      → IsUsedFor key fingerprint kind (remember_idempotency place f k p.idempotency)
  unfolding check_idempotency remember_idempotency
  remembered-IsUsedFor place f k p passed (entry, found, same, alike) =
      let new : SandboxIdempotencyRecord = record { fingerprint = f; kind = k; key = place } in
      elim (Bool-cases (str_eq place key)) [
        | inl here ↦
            let at : place ≡ key = (eq_iff place key).0 here in
            (
              new,
              lookup-insert_at place key new p.idempotency at,
              ground (arith, passed, found, at, same, eq_iff entry.fingerprint f),
              ground (arith, passed, found, at, alike, eq_iff entry.kind k),
            )
        | inr further ↦ (
          entry,
          lookup-insert_ne place key new p.idempotency
                (λ e. ground (arith, further, e, eq_iff place key))
              ∙ found,
          same,
          alike,
        )
      ]

  create_with-IsUsedFor :
      (codec : Codec) (f : String) (later : Time) (req : CreateJsapiPrepayRequest)
      (p : SandboxProvider)
      → IsUsedFor key fingerprint kind p.idempotency
      → IsUsedFor key fingerprint kind (create_with codec f later req p).1.idempotency
  create_with-IsUsedFor codec f later req p used =
      elim (Option-cases (check_idempotency req.idempotency_key f "payment" p)) [
        | inr (e, bad) ↦ rw (create_with_refused codec f later req e p bad) used
        | inl good ↦ elim (Option-cases (lookup req.out_trade_no p.payments)) [
          | inr (q, there) ↦ elim (Bool-cases (str_eq q.fingerprint f)) [
            | inl same ↦ rw (create_with_found codec f later req q p good there same) used
            | inr other ↦ rw (create_with_conflict codec f later req q p good there other) used
          ]
          | inl fresh ↦ rw (create_with_fresh codec f later req p good fresh) (
              unfold remember_idempotency in
              remembered-IsUsedFor req.idempotency_key f "payment" p good used)
        ]
      ]

  refund_with-IsUsedFor :
      (codec : Codec) (f : String) (req : ApplyRefundRequest) (p : SandboxProvider)
      → IsUsedFor key fingerprint kind p.idempotency
      → IsUsedFor key fingerprint kind (refund_with codec f req p).1.idempotency
  refund_with-IsUsedFor codec f req p used =
      elim (Option-cases (check_idempotency req.idempotency_key f "refund" p)) [
        | inr (e, bad) ↦ rw (refund_with_refused codec f req e p bad) used
        | inl good ↦ elim (Option-cases (lookup req.out_trade_no p.payments)) [
          | inl missing ↦ rw (refund_with_missing codec f req p good missing) used
          | inr (q, there) ↦ elim (Bool-cases (is_paid q.status)) [
            | inr unpaid ↦ rw (refund_with_unpaid codec f req q p good there unpaid) used
            | inl paid ↦ elim (Option-cases (lookup req.out_refund_no p.refunds)) [
              | inr (r, found) ↦ elim (Bool-cases (str_eq r.fingerprint f)) [
                | inl same ↦
                    rw (refund_with_found codec f req q r p good there paid found same) used
                | inr other ↦
                    rw (refund_with_conflict codec f req q r p good there paid found other) used
              ]
              | inl fresh ↦ rw (refund_with_fresh codec f req q p good there paid fresh) (
                  unfold remember_idempotency in
                  remembered-IsUsedFor req.idempotency_key f "refund" p good used)
            ]
          ]
        ]
      ]

close_payment-keys :
    (codec : Codec) (ctx : Context) (now : Time) (req : ClosePaymentRequest) (p : SandboxProvider)
    → (close_payment codec ctx now req p).1.idempotency ≡ p.idempotency
unfolding close_payment
close_payment-keys codec ctx now req p = ground arith

mark_payment_paying-keys :
    (k : String) (p : SandboxProvider) → (mark_payment_paying k p).1.idempotency ≡ p.idempotency
unfolding mark_payment_paying
mark_payment_paying-keys k p = ground arith

mark_payment_paid-keys :
    (now : Time) (k : String) (p : SandboxProvider)
    → (mark_payment_paid now k p).1.idempotency ≡ p.idempotency
unfolding mark_payment_paid
mark_payment_paid-keys now k p = ground arith

complete_refund-keys :
    (now : Time) (k : String) (success : Bool) (p : SandboxProvider)
    → (complete_refund now k success p).1.idempotency ≡ p.idempotency
unfolding complete_refund
complete_refund-keys now k success p = ground arith

module _ (key fingerprint kind : String) (codec : Codec) where
  unless_error-IsUsedFor {ℓ} :
      {A : Type ℓ} (o : Option Error) (p : SandboxProvider)
      (rest : Result Error A × SandboxProvider)
      → IsUsedFor key fingerprint kind p.idempotency
      → IsUsedFor key fingerprint kind rest.1.idempotency
      → IsUsedFor key fingerprint kind (unless_error o p rest).1.idempotency
  unless_error-IsUsedFor none p rest before after = after
  unless_error-IsUsedFor (some e) p rest before after = before

  create_jsapi_prepay-IsUsedFor :
      (ctx : Context) (now later : Time) (req : CreateJsapiPrepayRequest) (p : SandboxProvider)
      → IsUsedFor key fingerprint kind p.idempotency
      → IsUsedFor key fingerprint kind (create_jsapi_prepay codec ctx now later req p).1.idempotency
  unfolding create_jsapi_prepay
  create_jsapi_prepay-IsUsedFor ctx now later req p used =
      unless_error-IsUsedFor (validate_context ctx) p _ used (
        unless_error-IsUsedFor (validate_create_request codec req now) p _ used
          (go (request_fingerprint codec (codec.marshal_prepay req))))
    where
      go :
          (r : Result Error String)
          → IsUsedFor key fingerprint kind
              (elim r as (λ _. Result Error PrepayResult × SandboxProvider) [
                | err e ↦ fail e p
                | ok f ↦ create_with codec f later req p
              ]).1.idempotency
      go (ok f) = create_with-IsUsedFor key fingerprint kind codec f later req p used
      go (err e) = used

  apply_refund-IsUsedFor :
      (ctx : Context) (req : ApplyRefundRequest) (p : SandboxProvider)
      → IsUsedFor key fingerprint kind p.idempotency
      → IsUsedFor key fingerprint kind (apply_refund codec ctx req p).1.idempotency
  unfolding apply_refund
  apply_refund-IsUsedFor ctx req p used = unless_error-IsUsedFor (validate_context ctx) p _ used (
      unless_error-IsUsedFor (validate_refund_request codec req) p _ used
        (go (request_fingerprint codec (codec.marshal_refund req))))
    where
      go :
          (r : Result Error String)
          → IsUsedFor key fingerprint kind
              (elim r as (λ _. Result Error RefundResult × SandboxProvider) [
                | err e ↦ fail e p
                | ok f ↦ refund_with codec f req p
              ]).1.idempotency
      go (ok f) = refund_with-IsUsedFor key fingerprint kind codec f req p used
      go (err e) = used

  step-IsUsedFor :
      (c : Call) (p : SandboxProvider)
      → IsUsedFor key fingerprint kind p.idempotency
      → IsUsedFor key fingerprint kind (step codec c p).idempotency
  unfolding step
  step-IsUsedFor (Call.creates ctx now later req) p used =
      create_jsapi_prepay-IsUsedFor ctx now later req p used
  step-IsUsedFor (Call.closes ctx now req) p used = rw (close_payment-keys codec ctx now req p) used
  step-IsUsedFor (Call.refunds ctx req) p used = apply_refund-IsUsedFor ctx req p used
  step-IsUsedFor (Call.marks_paying k) p used = rw (mark_payment_paying-keys k p) used
  step-IsUsedFor (Call.marks_paid now k) p used = rw (mark_payment_paid-keys now k p) used
  step-IsUsedFor (Call.completes now k success) p used =
      rw (complete_refund-keys now k success p) used

  run-IsUsedFor :
      (calls : List Call) (p : SandboxProvider)
      → IsUsedFor key fingerprint kind p.idempotency
      → IsUsedFor key fingerprint kind (run codec calls p).idempotency
  unfolding run
  run-IsUsedFor [] p used = used
  run-IsUsedFor (c ∷ calls) p used = run-IsUsedFor calls (step codec c p) (step-IsUsedFor c p used)

  -- A refund with a key in use for something else is refused.
  used_key_refused :
      (ctx : Context) (other : ApplyRefundRequest) (g : String) (p : SandboxProvider)
      → IsUsedFor key fingerprint kind p.idempotency
      → other.idempotency_key ≡ key
      → validate_context ctx ≡ none
      → validate_refund_request codec other ≡ none
      → request_fingerprint codec (codec.marshal_refund other) ≡ ok g
      → (fingerprint ≢ g) ⊎ (kind ≢ "refund")
      → apply_refund codec ctx other p ≡ (err idempotency_conflict, p)
  used_key_refused ctx other g p (entry, found, same, alike) same_key is_live valid good differs =
      recorded_key_refused codec ctx other g entry p is_live valid good
        (subst (λ k. lookup k p.idempotency ≡ some entry) (sym same_key) found)
        (elim differs [
          | inl other_text ↦ inl (λ e. other_text (sym same ∙ e))
          | inr other_kind ↦ inr (λ e. other_kind (sym alike ∙ e))
        ])

refusal_is_no_answer {ℓ κ} :
    {A : Type ℓ} {B : Type κ} (e : Error) (a : A) (p p' : SandboxProvider)
    → ◌≡◌ {A = Result Error A × SandboxProvider} (fail e p) (ok a, p')
    → B
refusal_is_no_answer e a p p' same = cc

-- A first prepay, or a first refund, leaves its key in use.
first_prepay-IsUsedFor :
    (codec : Codec) (f : String) (later : Time) (req : CreateJsapiPrepayRequest) (a : PrepayResult)
    (p p' : SandboxProvider)
    → create_with codec f later req p ≡ (ok a, p')
    → lookup req.out_trade_no p.payments ≡ none
    → IsUsedFor req.idempotency_key f "payment" p'.idempotency
first_prepay-IsUsedFor codec f later req a p p' made fresh =
    elim (Option-cases (check_idempotency req.idempotency_key f "payment" p)) [
      | inr (e, bad) ↦
          let refused = create_with_refused codec f later req e p bad in
          refusal_is_no_answer e a p p' (sym refused ∙ made)
      | inl good ↦
          let answer = create_with_fresh codec f later req p good fresh in
          subst (λ r. IsUsedFor req.idempotency_key f "payment" r.1.idempotency) (sym answer ∙ made)
            (_, lookup-insert_self req.idempotency_key _ p.idempotency, refl, refl)
    ]

first_refund-IsUsedFor :
    (codec : Codec) (f : String) (req : ApplyRefundRequest) (a : RefundResult)
    (p p' : SandboxProvider)
    → refund_with codec f req p ≡ (ok a, p')
    → lookup req.out_refund_no p.refunds ≡ none
    → IsUsedFor req.idempotency_key f "refund" p'.idempotency
first_refund-IsUsedFor codec f req a p p' made fresh =
    elim (Option-cases (check_idempotency req.idempotency_key f "refund" p)) [
      | inr (e, bad) ↦
          refusal_is_no_answer e a p p' (sym (refund_with_refused codec f req e p bad) ∙ made)
      | inl good ↦ elim (Option-cases (lookup req.out_trade_no p.payments)) [
        | inl missing ↦
            refusal_is_no_answer _ a p p'
              (sym (refund_with_missing codec f req p good missing) ∙ made)
        | inr (q, there) ↦ elim (Bool-cases (is_paid q.status)) [
          | inr unpaid ↦
              refusal_is_no_answer _ a p p'
                (sym (refund_with_unpaid codec f req q p good there unpaid) ∙ made)
          | inl paid ↦
              let answer = refund_with_fresh codec f req q p good there paid fresh in
              subst (λ r. IsUsedFor req.idempotency_key f "refund" r.1.idempotency)
                (sym answer ∙ made)
                (_, lookup-insert_self req.idempotency_key _ p.idempotency, refl, refl)
        ]
      ]
    ]

-- Once a new refund has been answered with a result, then after any further calls every valid refund
-- request that brings the same key with another fingerprint is refused with a conflict, and the
-- provider stays as it is: the key gives back no more money.
pub refund_key_reused :
    (codec : Codec) (first_ctx ctx : Context) (req other : ApplyRefundRequest) (a : RefundResult)
    (p p' : SandboxProvider) (calls : List Call) (g : String)
    → apply_refund codec first_ctx req p ≡ (ok a, p')
    → lookup req.out_refund_no p.refunds ≡ none
    → other.idempotency_key ≡ req.idempotency_key
    → validate_context ctx ≡ none
    → validate_refund_request codec other ≡ none
    → request_fingerprint codec (codec.marshal_refund other) ≡ ok g
    → request_fingerprint codec (codec.marshal_refund req) ≢ ok g
    → let later = run codec calls p' in
      apply_refund codec ctx other later ≡ (err idempotency_conflict, later)
refund_key_reused codec first_ctx ctx req other a p p' calls g answered fresh same_key is_live valid
      good differs =
    let (f, fingerprinted, made, _) = apply_refund_ok codec first_ctx req a p p' answered in
    let used = first_refund-IsUsedFor codec f req a p p' made fresh in
    used_key_refused req.idempotency_key f "refund" codec ctx other g (run codec calls p')
      (run-IsUsedFor req.idempotency_key f "refund" codec calls p' used) same_key is_live valid good
      (inl (λ e. differs (fingerprinted ∙ ap ok e)))

abbrev payment_kind : String
payment_kind = "payment"

abbrev refund_kind : String
refund_kind = "refund"

kinds_differ : payment_kind ≢ refund_kind
kinds_differ e = ground (arith, e, eq_iff payment_kind refund_kind)

-- Once a prepay for a new trade number has been answered with a result, then after any further calls
-- every valid refund request that brings the prepay's key, whatever its fingerprint, is refused with a
-- conflict, and the provider stays as it is.
pub prepay_key_refunded :
    (codec : Codec) (first_ctx ctx : Context) (now at : Time) (req : CreateJsapiPrepayRequest)
    (other : ApplyRefundRequest) (a : PrepayResult) (p p' : SandboxProvider) (calls : List Call)
    (g : String)
    → create_jsapi_prepay codec first_ctx now at req p ≡ (ok a, p')
    → lookup req.out_trade_no p.payments ≡ none
    → other.idempotency_key ≡ req.idempotency_key
    → validate_context ctx ≡ none
    → validate_refund_request codec other ≡ none
    → request_fingerprint codec (codec.marshal_refund other) ≡ ok g
    → let later = run codec calls p' in
      apply_refund codec ctx other later ≡ (err idempotency_conflict, later)
prepay_key_refunded codec first_ctx ctx now at req other a p p' calls g answered fresh same_key
      is_live valid good =
    let (f, _, made) = create_jsapi_prepay_ok codec first_ctx now at req a p p' answered in
    let used = first_prepay-IsUsedFor codec f at req a p p' made fresh in
    used_key_refused req.idempotency_key f "payment" codec ctx other g (run codec calls p')
      (run-IsUsedFor req.idempotency_key f "payment" codec calls p' used) same_key is_live valid
      good (inr kinds_differ)
