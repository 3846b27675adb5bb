-- ===== src/Payment/Sandbox/Lifecycle/Marks.antt =====
-- Each call that simulates the provider's side, MarkPaymentPaying, MarkPaymentPaid and CompleteRefund
-- of backend-go/internal/payment/sandbox.go, changes the payments and the refunds as Lifecycle allows.
use chihuo.Base.{String, ◌≡◌, refl, Bool, false, not, inl, inr, arith, Bool-cases, Option-cases}
use chihuo.Base.Dict.{lookup}
use chihuo.Domain.{Time}
use chihuo.Payment.Provider.{ProviderPaymentStatus}
use chihuo.Payment.Sandbox.{
  SandboxProvider, is_paid, is_closed, is_not_pay, mark_payment_paying, mark_payment_paid,
}
use chihuo.Payment.Sandbox.Refunds.{is_settled, refund_payment, complete_refund}
use chihuo.Payment.Sandbox.Lifecycle.{
  Moves, PaymentsChange, RefundsChange, Change, RefundsArePaid, unchanged,
}

moved_status :
    (s : ProviderPaymentStatus) → not (is_not_pay s) ≡ false → s ≡ ProviderPaymentStatus.not_pay
unfolding is_not_pay
moved_status s h = ground arith

module _ (p : SandboxProvider) where
  pub mark_payment_paying-Change : (k : String) → Change p (mark_payment_paying k p).1
  unfolding mark_payment_paying
  mark_payment_paying-Change k = elim (Option-cases (lookup k p.payments)) [
    | inl missing ↦ rw (missing, mark_payment_paying) (unchanged p)
    | inr (q, found) ↦
        rw (found, mark_payment_paying)
          (elim (Bool-cases (not (is_not_pay q.status))) [
            | inl begun ↦ rw begun (unchanged p)
            | inr fresh ↦ rw fresh (record {
              payments =
                  PaymentsChange.moved k q _ found (rw (moved_status q.status fresh) Moves.opens)
                    refl refl;
              refunds = RefundsChange.kept refl;
            })
          ])
  ]

  pub mark_payment_paid-Change : (now : Time) (k : String) → Change p (mark_payment_paid now k p).1
  unfolding mark_payment_paid
  mark_payment_paid-Change now k = elim (Option-cases (lookup k p.payments)) [
    | inl missing ↦ rw (missing, mark_payment_paid) (unchanged p)
    | inr (q, found) ↦
        rw (found, mark_payment_paid)
          (elim (Bool-cases (is_paid q.status)) [
            | inl paid ↦ rw paid (unchanged p)
            | inr unpaid ↦ rw unpaid (elim (Bool-cases (is_closed q.status)) [
              | inl shut ↦ rw shut (unchanged p)
              | inr still ↦ rw still (record {
                payments = PaymentsChange.moved k q _ found (Moves.pays unpaid still) refl refl;
                refunds = RefundsChange.kept refl;
              })
            ])
          ])
  ]

  pub complete_refund-Change :
      (now : Time) (k : String) (success : Bool)
      → RefundsArePaid p
      → Change p (complete_refund now k success p).1
  unfolding complete_refund refund_payment
  complete_refund-Change now k success inv = elim (Option-cases (lookup k p.refunds)) [
    | inl missing ↦ rw (missing, complete_refund) (unchanged p)
    | inr (r, found) ↦
        rw (found, complete_refund)
          (elim (Bool-cases (is_settled r.result.status)) [
            | inl settled ↦ rw settled (unchanged p)
            | inr pending ↦ rw pending (elim (Bool-cases (not success)) [
              | inl failed ↦ rw failed (record {
                payments = PaymentsChange.kept refl;
                refunds = RefundsChange.wrote k _ (inv k r found) refl;
              })
              | inr succeeded ↦
                  let (q, there, paid) = inv k r found in
                  rw succeeded (record {
                    payments =
                        rw (there, refund_payment)
                          (PaymentsChange.moved r.result.out_trade_no q _ there (Moves.refunds paid)
                            refl refl);
                    refunds = RefundsChange.wrote k _ (inv k r found) refl;
                  })
            ])
          ])
  ]
