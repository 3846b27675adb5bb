-- ===== src/Payment/Callback/Events.antt =====
-- What the payloads that event of backend-go/internal/payment/callback.go accepts have in common.
use Prim.{Unit, tt}
use chihuo.Base.{
  String, ◌≡◌, ◌⊎◌, refl, inl, inr, true, false, ◌||◌, Option, none, some, Result, ok, err, arith,
  Bool-cases, Result-cases, subst, sym, ◌∙◌,
}
use chihuo.Base.Text.{trim_space, is_empty}
use chihuo.Base.Int.{pos, leb_ℤ, ◌<ℤ◌}
use chihuo.Domain.{Time}
use chihuo.Payment.Error.{Error, invalid_callback}
use chihuo.Payment.Provider.{ProviderPaymentStatus, ProviderRefundStatus}
use chihuo.Payment.Callback.{
  CallbackEventType, CallbackEvent, CallbackPayload, is_supported_callback_event,
  validate_refund_identifiers, settle, chosen_type, draft_event, parse_callback_time, event,
}

-- An event's fields agree with its type: the status is the one that the type stands for, a success has
-- a positive amount, and a refund has the platform's refund number.
abbrev pub Agrees : CallbackEventType → CallbackEvent → Type 0
Agrees CallbackEventType.payment_succeeded e =
    (e.payment_status ≡ ProviderPaymentStatus.success) × (pos 0 <ℤ e.amount.amount_cents)
Agrees CallbackEventType.payment_failed e = e.payment_status ≡ ProviderPaymentStatus.pay_error
Agrees CallbackEventType.payment_closed e = e.payment_status ≡ ProviderPaymentStatus.closed
Agrees CallbackEventType.refund_processing e =
    (e.refund_status ≡ ProviderRefundStatus.processing)
    × (is_empty (trim_space e.out_refund_no) ≡ false)
Agrees CallbackEventType.refund_succeeded e =
    (e.refund_status ≡ ProviderRefundStatus.success)
    × (is_empty (trim_space e.out_refund_no) ≡ false)
    × (pos 0 <ℤ e.refund_amount.amount_cents)
Agrees CallbackEventType.refund_failed e =
    (e.refund_status ≡ ProviderRefundStatus.abnormal)
    × (is_empty (trim_space e.out_refund_no) ≡ false)
Agrees CallbackEventType.refund_closed e =
    (e.refund_status ≡ ProviderRefundStatus.closed)
    × (is_empty (trim_space e.out_refund_no) ≡ false)
Agrees (CallbackEventType.other s) e = ⊥

-- The event keeps what it was drafted with.
abbrev Kept : CallbackEvent → CallbackEvent → Type 0
Kept d e =
    (e.event_type ≡ d.event_type) × (e.event_id ≡ d.event_id) × (e.out_trade_no ≡ d.out_trade_no)

-- What settling a draft of a type gives.
abbrev Settled : CallbackEventType → CallbackEvent → Result Error CallbackEvent → Type 0
Settled t d (err e) = Unit {0}
Settled t d (ok e) = Kept d e × Agrees t e

refund_identified :
    (d : CallbackEvent)
    → ((x : Error) × (validate_refund_identifiers d ≡ some x))
      ⊎ ((validate_refund_identifiers d ≡ none) × (is_empty (trim_space d.out_refund_no) ≡ false))
unfolding validate_refund_identifiers
refund_identified d = elim (Bool-cases (is_empty (trim_space d.out_refund_no))) [
  | inl blank ↦ inl (invalid_callback, rw blank refl)
  | inr named ↦ inr (rw named refl, named)
]

settle-Settled :
    (t : CallbackEventType) (d : CallbackEvent)
    → is_supported_callback_event t ≡ true
    → Settled t d (settle t d)
unfolding settle is_supported_callback_event
settle-Settled CallbackEventType.payment_succeeded d yes_t =
    elim (Bool-cases (leb_ℤ d.amount.amount_cents (pos 0))) [
      | inl unpaid ↦ rw unpaid tt
      | inr paid ↦ rw paid ((refl, refl, refl), (refl, ground (arith, paid)))
    ]
settle-Settled CallbackEventType.payment_failed d yes_t = ((refl, refl, refl), refl)
settle-Settled CallbackEventType.payment_closed d yes_t = ((refl, refl, refl), refl)
settle-Settled CallbackEventType.refund_processing d yes_t = elim (refund_identified d) [
  | inl (x, blank) ↦ rw blank tt
  | inr (named, id) ↦ rw named ((refl, refl, refl), (refl, id))
]
settle-Settled CallbackEventType.refund_succeeded d yes_t = elim (refund_identified d) [
  | inl (x, blank) ↦ rw (blank, settle) tt
  | inr (named, id) ↦
      rw (named, settle)
        (elim (Bool-cases (leb_ℤ d.refund_amount.amount_cents (pos 0))) [
          | inl unpaid ↦ rw unpaid tt
          | inr paid ↦ rw paid ((refl, refl, refl), (refl, id, ground (arith, paid)))
        ])
]
settle-Settled CallbackEventType.refund_failed d yes_t = elim (refund_identified d) [
  | inl (x, blank) ↦ rw blank tt
  | inr (named, id) ↦ rw named ((refl, refl, refl), (refl, id))
]
settle-Settled CallbackEventType.refund_closed d yes_t = elim (refund_identified d) [
  | inl (x, blank) ↦ rw blank tt
  | inr (named, id) ↦ rw named ((refl, refl, refl), (refl, id))
]
settle-Settled (CallbackEventType.other s) d yes_t = cc

-- An event that is fit to be acted on: its fields agree with its own type, and it carries the
-- payload's event id and trade number, neither of them blank.
pub record IsFit (p : CallbackPayload) (e : CallbackEvent) : Type 0 where
  pub of_payload : (e.event_id ≡ p.event_id) × (e.out_trade_no ≡ p.out_trade_no)
  pub named :
      (is_empty (trim_space p.event_id) ≡ false) × (is_empty (trim_space p.out_trade_no) ≡ false)
  pub agrees : Agrees e.event_type e

abbrev pub FitResult : CallbackPayload → Result Error CallbackEvent → Type 0
FitResult p (err e) = Unit {0}
FitResult p (ok e) = IsFit p e

module _ (to_upper : String → String) (parse_rfc3339 : String → Option Time) where
  Settled-FitResult :
      (p : CallbackPayload) (t : CallbackEventType) (at : Time) (r : Result Error CallbackEvent)
      → chosen_type to_upper parse_rfc3339 p ≡ t
      → is_empty (trim_space p.event_id) || is_empty (trim_space p.out_trade_no) ≡ false
      → Settled t (draft_event to_upper parse_rfc3339 p at) r
      → FitResult p r
  unfolding draft_event
  Settled-FitResult p t at (err e) chosen named s = tt
  Settled-FitResult p t at (ok e) chosen named ((same_type, same_id, same_trade), agrees) = record {
    of_payload = (same_id, same_trade);
    named = (ground (arith, named), ground (arith, named));
    agrees = subst (λ u. Agrees u e) (sym chosen ∙ sym same_type) agrees;
  }

  pub event-FitResult : (p : CallbackPayload) → FitResult p (event to_upper parse_rfc3339 p)
  unfolding event
  event-FitResult p =
      let chosen = chosen_type to_upper parse_rfc3339 p in
      elim (Bool-cases (is_empty (trim_space p.event_id) || is_empty (trim_space p.out_trade_no))) [
        | inl blank ↦ rw blank tt
        | inr named ↦ rw named (elim (Bool-cases (is_supported_callback_event chosen)) [
          | inr unknown ↦ rw unknown tt
          | inl supported ↦
              rw supported
                (elim (Result-cases (parse_callback_time to_upper parse_rfc3339 p.occurred_at)) [
                  | inr (e, bad) ↦ rw bad tt
                  | inl (at, good) ↦ rw good (
                      Settled-FitResult p chosen at _ refl named
                        (settle-Settled chosen (draft_event to_upper parse_rfc3339 p at) supported))
                ])
        ])
      ]
