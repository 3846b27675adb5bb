-- ===== src/Payment/Sandbox/Idempotency.antt =====
-- Retries of the sandbox provider's requests, backend-go/internal/payment/sandbox.go: a prepay request
-- that is sent again; Refunds is about refund requests, and Keys about a key used for another request.
pub mod Refunds
pub mod Keys
use chihuo.Base.{
  String, str_eq, eq_iff, ◌≡◌, refl, sym, ap, ◌∙◌, subst, ◌≢◌, ◌⊎◌, Bool, true, false, not, ◌||◌,
  Option, none, some, Result, ok, err, inl, inr, arith, if◌then◌else◌, if_cases, Bool-cases,
  Option-cases, Result-cases,
}
use Prim.{Unit, tt}
use chihuo.Base.Dict.{Dict, lookup, insert, lookup-insert_self}
use chihuo.Domain.{Time}
use chihuo.Payment.Error.{Error, idempotency_conflict}
use chihuo.Payment.Provider.{ProviderPaymentStatus, ProviderRefundStatus}
use chihuo.Payment.Requests.{
  CreateJsapiPrepayRequest, PrepayResult, ApplyRefundRequest, RefundResult, Codec, Context,
  validate_context, validate_create_request, validate_refund_request, request_fingerprint,
}
use chihuo.Payment.Sandbox.{
  SandboxPayment, SandboxIdempotencyRecord, SandboxProvider, check_idempotency, create_with,
  create_jsapi_prepay, done, fail, unless_error, remember_idempotency, is_paid, new_prepay,
  next_sequence, SandboxRefund,
}
use chihuo.Payment.Sandbox.Refunds.{refund_with, apply_refund, new_refund}

pub same_text : (s : String) → str_eq s s ≡ true
same_text s = ground (arith, eq_iff s s)

-- The same key, fingerprint and kind pass the check of the record that they left.
pub remembered_check :
    (key fingerprint kind : String) (p : SandboxProvider)
    → lookup key p.idempotency ≡ some (record { fingerprint = fingerprint; kind = kind; key = key })
    → check_idempotency key fingerprint kind p ≡ none
unfolding check_idempotency
remembered_check key fingerprint kind p found =
    rw (found, check_idempotency) (ground (arith, eq_iff fingerprint fingerprint, eq_iff kind kind))

module _ (codec : Codec) (fingerprint : String) where
  -- A second call returns what the first returned, and changes nothing.
  abbrev SamePrepay :
      Time → CreateJsapiPrepayRequest → Result Error PrepayResult × SandboxProvider → Type 0
  SamePrepay later req (err e, p) = Unit {0}
  SamePrepay later req (ok a, p) = create_with codec fingerprint later req p ≡ (ok a, p)

  pub create_with_found :
      (later : Time) (req : CreateJsapiPrepayRequest) (q : SandboxPayment) (p : SandboxProvider)
      → check_idempotency req.idempotency_key fingerprint "payment" p ≡ none
      → lookup req.out_trade_no p.payments ≡ some q
      → str_eq q.fingerprint fingerprint ≡ true
      → create_with codec fingerprint later req p ≡ done q.prepay p
  unfolding create_with
  create_with_found later req q p good there same = rw (good, there, same) refl

  pub create_with_refused :
      (later : Time) (req : CreateJsapiPrepayRequest) (e : Error) (p : SandboxProvider)
      → check_idempotency req.idempotency_key fingerprint "payment" p ≡ some e
      → create_with codec fingerprint later req p ≡ fail e p
  unfolding create_with
  create_with_refused later req e p bad = rw bad refl

  pub create_with_conflict :
      (later : Time) (req : CreateJsapiPrepayRequest) (q : SandboxPayment) (p : SandboxProvider)
      → check_idempotency req.idempotency_key fingerprint "payment" p ≡ none
      → lookup req.out_trade_no p.payments ≡ some q
      → str_eq q.fingerprint fingerprint ≡ false
      → create_with codec fingerprint later req p ≡ fail idempotency_conflict p
  unfolding create_with
  create_with_conflict later req q p good there other = rw (good, there, other) refl

  -- The payment that a first request stores, and the provider that it leaves.
  abbrev pub stored : Time → CreateJsapiPrepayRequest → SandboxProvider → SandboxPayment
  stored later req p = record {
    request = req;
    fingerprint = fingerprint;
    prepay = new_prepay req (next_sequence p) later;
    transaction_id = "";
    status = ProviderPaymentStatus.not_pay;
    paid_at = none;
  }

  abbrev pub created : Time → CreateJsapiPrepayRequest → SandboxProvider → SandboxProvider
  created later req p = record p {
    sequence = next_sequence p;
    payments = insert req.out_trade_no (stored later req p) p.payments;
    idempotency =
        insert req.idempotency_key
          (record { fingerprint = fingerprint; kind = "payment"; key = req.idempotency_key })
          p.idempotency;
  }

  pub create_with_fresh :
      (later : Time) (req : CreateJsapiPrepayRequest) (p : SandboxProvider)
      → check_idempotency req.idempotency_key fingerprint "payment" p ≡ none
      → lookup req.out_trade_no p.payments ≡ none
      → create_with codec fingerprint later req p
        ≡ done (new_prepay req (next_sequence p) later) (created later req p)
  unfolding create_with remember_idempotency
  create_with_fresh later req p good fresh = rw (good, fresh) refl

  create_with_again :
      (first second : Time) (req : CreateJsapiPrepayRequest) (p : SandboxProvider)
      → SamePrepay second req (create_with codec fingerprint first req p)
  create_with_again first second req p =
      elim (Option-cases (check_idempotency req.idempotency_key fingerprint "payment" p)) [
        | inr (e, bad) ↦ rw (create_with_refused first req e p bad) tt
        | inl good ↦ elim (Option-cases (lookup req.out_trade_no p.payments)) [
          | inr (q, there) ↦ elim (Bool-cases (str_eq q.fingerprint fingerprint)) [
            | inl same ↦
                rw (create_with_found first req q p good there same)
                  (create_with_found second req q p good there same)
            | inr other ↦ rw (create_with_conflict first req q p good there other) tt
          ]
          | inl fresh ↦ rw (create_with_fresh first req p good fresh) (
              create_with_found second req (stored first req p) (created first req p)
                (remembered_check req.idempotency_key fingerprint "payment" (created first req p)
                  (lookup-insert_self req.idempotency_key _ p.idempotency))
                (lookup-insert_self req.out_trade_no _ p.payments) (same_text fingerprint))
        ]
      ]

-- Another fingerprint or another kind fails the check of a record.
pub other_check :
    (key fingerprint kind : String) (entry : SandboxIdempotencyRecord) (p : SandboxProvider)
    → lookup key p.idempotency ≡ some entry
    → (entry.fingerprint ≢ fingerprint) ⊎ (entry.kind ≢ kind)
    → check_idempotency key fingerprint kind p ≡ some idempotency_conflict
unfolding check_idempotency
other_check key fingerprint kind entry p found other =
    rw (found, check_idempotency)
      (ground (arith, other, eq_iff entry.fingerprint fingerprint, eq_iff entry.kind kind))

-- An answer with a result means that the check passed.
pub unless_error_ok {ℓ} :
    {A : Type ℓ} (o : Option Error) (a : A) (p p' : SandboxProvider)
    (rest : Result Error A × SandboxProvider)
    → unless_error o p rest ≡ (ok a, p')
    → rest ≡ (ok a, p')
unless_error_ok none a p p' rest h = h
unless_error_ok (some e) a p p' rest h = cc

pub unless_error_passed {ℓ} :
    {A : Type ℓ} (o : Option Error) (a : A) (p p' : SandboxProvider)
    (rest : Result Error A × SandboxProvider)
    → unless_error o p rest ≡ (ok a, p')
    → o ≡ none
unless_error_passed none a p p' rest h = refl
unless_error_passed (some e) a p p' rest h = cc

module _ (codec : Codec) (ctx : Context) (now later : Time) (req : CreateJsapiPrepayRequest) where
  pub create_jsapi_prepay_checked :
      (f : String) (p : SandboxProvider)
      → validate_context ctx ≡ none
      → validate_create_request codec req now ≡ none
      → request_fingerprint codec (codec.marshal_prepay req) ≡ ok f
      → create_jsapi_prepay codec ctx now later req p ≡ create_with codec f later req p
  unfolding create_jsapi_prepay
  create_jsapi_prepay_checked f p is_live valid good = rw (is_live, valid, good) refl

  pub create_jsapi_prepay_ok :
      (a : PrepayResult) (p p' : SandboxProvider)
      → create_jsapi_prepay codec ctx now later req p ≡ (ok a, p')
      → (f : String) × (request_fingerprint codec (codec.marshal_prepay req) ≡ ok f)
        × (create_with codec f later req p ≡ (ok a, p'))
  unfolding create_jsapi_prepay
  create_jsapi_prepay_ok a p p' answered =
      go (request_fingerprint codec (codec.marshal_prepay req)) refl (
        unless_error_ok (validate_create_request codec req now) a p p' _
          (unless_error_ok (validate_context ctx) a p p' _ answered))
    where
      go :
          (r : Result Error String)
          → request_fingerprint codec (codec.marshal_prepay req) ≡ r
          → elim r [ err e ↦ fail e p | ok f ↦ create_with codec f later req p ] ≡ (ok a, p')
          → (f : String) × (request_fingerprint codec (codec.marshal_prepay req) ≡ ok f)
            × (create_with codec f later req p ≡ (ok a, p'))
      go (ok f) good h = (f, good, h)
      go (err e) bad h = cc

-- A request that was answered with a result is sent again, perhaps at a later time: while it is
-- still valid, it gets the same result, and the provider stays as the first call left it.
pub create_replayed :
    (codec : Codec) (first_ctx ctx : Context) (first_now first_later now later : Time)
    (req : CreateJsapiPrepayRequest) (a : PrepayResult) (p p' : SandboxProvider)
    → create_jsapi_prepay codec first_ctx first_now first_later req p ≡ (ok a, p')
    → validate_context ctx ≡ none
    → validate_create_request codec req now ≡ none
    → create_jsapi_prepay codec ctx now later req p' ≡ (ok a, p')
create_replayed codec first_ctx ctx first_now first_later now later req a p p' answered is_live
      valid =
    let (f, good, made) =
      create_jsapi_prepay_ok codec first_ctx first_now first_later req a p p' answered in
    create_jsapi_prepay_checked codec ctx now later req f p' is_live valid good
    ∙ subst (SamePrepay codec f later req) made (create_with_again codec f first_later later req p)
