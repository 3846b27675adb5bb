-- ===== src/Payment/Sandbox/History.antt =====
-- The sandbox provider, backend-go/internal/payment/sandbox.go, over any history of its calls, in
-- the order in which they took its lock.
use chihuo.Base.{
  String, str_eq, eq_iff, ◌≡◌, refl, subst, ◌∙◌, ◌⊎◌, Bool, true, false, inl, inr, some, arith,
  Bool-cases, List, [], ◌∷◌,
}
use chihuo.Base.Dict.{Dict, lookup, lookup-insert_ne, Each-insert, lookup-insert_at}
use chihuo.Domain.{Time}
use chihuo.Payment.Provider.{ProviderPaymentStatus}
use chihuo.Payment.Requests.{
  CreateJsapiPrepayRequest, ClosePaymentRequest, ApplyRefundRequest, Codec, Context,
}
use chihuo.Payment.Sandbox.{
  SandboxPayment, SandboxRefund, SandboxProvider, new_sandbox_provider, is_paid, is_closed,
  create_jsapi_prepay, close_payment, mark_payment_paying, mark_payment_paid,
}
use chihuo.Payment.Sandbox.Refunds.{apply_refund, complete_refund}
use chihuo.Payment.Sandbox.Lifecycle.{
  Moves, PaymentsChange, RefundsChange, IsPaidIn, Change, RefundsArePaid,
}
use chihuo.Payment.Sandbox.Lifecycle.Requests.{
  create_jsapi_prepay-Change, close_payment-Change, apply_refund-Change,
}
use chihuo.Payment.Sandbox.Lifecycle.Marks.{
  mark_payment_paying-Change, mark_payment_paid-Change, complete_refund-Change,
}

-- The calls that write, with the times that they read.
pub data Call : Type 0 where
  creates : Context → Time → Time → CreateJsapiPrepayRequest → Call
  closes : Context → Time → ClosePaymentRequest → Call
  refunds : Context → ApplyRefundRequest → Call
  marks_paying : String → Call
  marks_paid : Time → String → Call
  completes : Time → String → Bool → Call

-- The provider after a call, whatever the call returned.
unfoldable pub step : Codec → Call → SandboxProvider → SandboxProvider
step codec (creates ctx now later req) p = (create_jsapi_prepay codec ctx now later req p).1
step codec (closes ctx now req) p = (close_payment codec ctx now req p).1
step codec (refunds ctx req) p = (apply_refund codec ctx req p).1
step codec (marks_paying k) p = (mark_payment_paying k p).1
step codec (marks_paid now k) p = (mark_payment_paid now k p).1
step codec (completes now k success) p = (complete_refund now k success p).1

-- The provider after the calls of a list, in their order.
unfoldable pub run : Codec → List Call → SandboxProvider → SandboxProvider
run codec [] p = p
run codec (c ∷ cs) p = run codec cs (step codec c p)

Moves-paid : {s s' : ProviderPaymentStatus} → Moves s s' → is_paid s ≡ true → is_paid s' ≡ true
unfolding is_paid
Moves-paid Moves.opens h = h
Moves-paid (Moves.pays unpaid open_still) h = refl
Moves-paid (Moves.closes unpaid) h = cc
Moves-paid (Moves.refunds paid) h = refl

Moves-closed :
    {s s' : ProviderPaymentStatus} → Moves s s' → is_closed s ≡ true → is_closed s' ≡ true
unfolding is_paid is_closed
Moves-closed Moves.opens h = h
Moves-closed (Moves.pays unpaid open_still) h = cc
Moves-closed (Moves.closes unpaid) h = refl
Moves-closed {s} (Moves.refunds paid) h = ground arith

-- What a payment may become: its request is kept, money that was taken stays taken, and a closed
-- payment stays closed.
pub record Later (q q' : SandboxPayment) : Type 0 where
  pub same_request : q'.request ≡ q.request
  pub still_paid : (is_paid q.status ≡ false) ⊎ (is_paid q'.status ≡ true)
  pub still_closed : (is_closed q.status ≡ false) ⊎ (is_closed q'.status ≡ true)

Later-refl : (q : SandboxPayment) → Later q q
Later-refl q = record {
  same_request = refl;
  still_paid = ground arith;
  still_closed = ground arith;
}

Later-trans : {a b c : SandboxPayment} → Later a b → Later b c → Later a c
Later-trans f g = record {
  same_request = g.same_request ∙ f.same_request;
  still_paid = ground (arith, f.still_paid, g.still_paid);
  still_closed = ground (arith, f.still_closed, g.still_closed);
}

Moves-Later :
    {q q' : SandboxPayment} → Moves q.status q'.status → q'.request ≡ q.request → Later q q'
Moves-Later {q} m same = record {
  same_request = same;
  still_paid = elim (Bool-cases (is_paid q.status)) [
    | inl paid ↦ inr (Moves-paid m paid)
    | inr unpaid ↦ inl unpaid
  ];
  still_closed = elim (Bool-cases (is_closed q.status)) [
    | inl shut ↦ inr (Moves-closed m shut)
    | inr still ↦ inl still
  ];
}

-- What becomes of the payment stored under a key.
abbrev pub LaterIn : Dict SandboxPayment → String → SandboxPayment → Type 0
LaterIn ps' k q = (q' : SandboxPayment) × (lookup k ps' ≡ some q') × Later q q'

changed_payment :
    {ps ps' : Dict SandboxPayment} (k : String) (q : SandboxPayment)
    → PaymentsChange ps ps'
    → lookup k ps ≡ some q
    → LaterIn ps' k q
changed_payment k q (PaymentsChange.kept same) found = (q, rw same found, Later-refl q)
changed_payment {ps} k q (PaymentsChange.added j fresh absent new keyed same) found = (
  q,
  rw same (lookup-insert_ne j k fresh ps (λ e. ground (arith, absent, found, e)) ∙ found),
  Later-refl q,
)
changed_payment {ps} k q (PaymentsChange.moved j o o' there m kept same) found =
    elim (Bool-cases (str_eq j k)) [
      | inl here ↦ (
        o',
        rw same (lookup-insert_at j k o' ps (ground (arith, here, eq_iff j k))),
        subst (λ x. Later x o') (ground (arith, there, found, here, eq_iff j k))
            (Moves-Later {q = o} {q' = o'} m kept),
      )
      | inr elsewhere ↦ (
        q,
        rw same
            (lookup-insert_ne j k o' ps (λ e. ground (arith, elsewhere, e, eq_iff j k)) ∙ found),
        Later-refl q,
      )
    ]

step-Change :
    (codec : Codec) (c : Call) (p : SandboxProvider) → RefundsArePaid p → Change p (step codec c p)
unfolding step
step-Change codec (creates ctx now later req) p inv =
    create_jsapi_prepay-Change codec p ctx now later req
step-Change codec (closes ctx now req) p inv = close_payment-Change codec p ctx now req
step-Change codec (refunds ctx req) p inv = apply_refund-Change codec p ctx req
step-Change codec (marks_paying k) p inv = mark_payment_paying-Change p k
step-Change codec (marks_paid now k) p inv = mark_payment_paid-Change p now k
step-Change codec (completes now k success) p inv = complete_refund-Change p now k success inv

paid_stays :
    {ps ps' : Dict SandboxPayment} (k : String)
    → PaymentsChange ps ps'
    → IsPaidIn ps k
    → IsPaidIn ps' k
paid_stays k change (q, found, paid) =
    let (q', found', later) = changed_payment k q change found in
    (q', found', ground (arith, later.still_paid, paid))

Change-RefundsArePaid :
    {p p' : SandboxProvider} → Change p p' → RefundsArePaid p → RefundsArePaid p'
Change-RefundsArePaid {p} {p'} change inv = elim change.refunds [
  | RefundsChange.kept same ↦ rw same (λ k r found. carried k r (inv k r found))
  | RefundsChange.wrote j r paid same ↦ rw same (
      Each-insert (λ k x. IsPaidIn p'.payments x.result.out_trade_no) j r p.refunds
        (carried j r paid) (λ k x found. carried k x (inv k x found)))
]
  where
    carried :
        (k : String) (r : SandboxRefund)
        → IsPaidIn p.payments r.result.out_trade_no
        → IsPaidIn p'.payments r.result.out_trade_no
    carried k r = paid_stays r.result.out_trade_no change.payments

run-RefundsArePaid :
    (codec : Codec) (cs : List Call) (p : SandboxProvider)
    → RefundsArePaid p
    → RefundsArePaid (run codec cs p)
unfolding run
run-RefundsArePaid codec [] p inv = inv
run-RefundsArePaid codec (c ∷ cs) p inv =
    run-RefundsArePaid codec cs (step codec c p)
      (Change-RefundsArePaid (step-Change codec c p inv) inv)

new-RefundsArePaid : RefundsArePaid new_sandbox_provider
unfolding new_sandbox_provider lookup
new-RefundsArePaid k r found = cc

-- After any calls on a new provider, and whatever they returned, every refund that is stored has a
-- stored payment under its trade number whose money was taken.
pub refunds_have_payments :
    (codec : Codec) (cs : List Call) (k : String) (r : SandboxRefund)
    → lookup k (run codec cs new_sandbox_provider).refunds ≡ some r
    → IsPaidIn (run codec cs new_sandbox_provider).payments r.result.out_trade_no
refunds_have_payments codec cs k r found =
    run-RefundsArePaid codec cs new_sandbox_provider new-RefundsArePaid k r found

run_later :
    (codec : Codec) (cs : List Call) (p : SandboxProvider) (k : String) (q : SandboxPayment)
    → RefundsArePaid p
    → lookup k p.payments ≡ some q
    → LaterIn (run codec cs p).payments k q
unfolding run
run_later codec [] p k q inv found = (q, found, Later-refl q)
run_later codec (c ∷ cs) p k q inv found =
    let change = step-Change codec c p inv in
    let (q1, found1, later1) = changed_payment k q change.payments found in
    let (q2, found2, later2) =
      run_later codec cs (step codec c p) k q1 (Change-RefundsArePaid change inv) found1 in
    (q2, found2, Later-trans later1 later2)

-- A payment stored after some calls on a new provider is still stored after any further calls, with
-- the request that created it; if its money was taken it is so still, and if it was closed it is
-- still closed.
pub payments_advance :
    (codec : Codec) (before after : List Call) (k : String) (q : SandboxPayment)
    → lookup k (run codec before new_sandbox_provider).payments ≡ some q
    → LaterIn (run codec after (run codec before new_sandbox_provider)).payments k q
payments_advance codec before after k q found =
    run_later codec after (run codec before new_sandbox_provider) k q
      (run-RefundsArePaid codec before new_sandbox_provider new-RefundsArePaid) found
