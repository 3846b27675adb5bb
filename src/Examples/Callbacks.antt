-- ===== src/Examples/Callbacks.antt =====
-- A callback that reports a payment.
use chihuo.Base.{ℕ, String, ◌≡◌, refl, true, some, none, Option, ok, List, [], ◌∷◌}
use chihuo.Base.Int.{pos}
use chihuo.Domain.{Time}
use chihuo.Payment.Provider.{ProviderPaymentStatus, ProviderRefundStatus}
use chihuo.Payment.Callback.{
  CallbackEventType, CallbackEvent, CallbackPayload, Decoder, JsonCallbackEventParser,
  parse_callback,
}
use chihuo.Payment.Callback.Parsing.{IsAccepted, parse_callback_accepts}

abbrev payload : CallbackPayload
payload = record {
  event_id = "e1";
  plain_type = CallbackEventType.payment_succeeded;
  event_type = CallbackEventType.other "";
  out_trade_no = "order1";
  transaction_id = "t1";
  out_refund_no = "";
  refund_id = "";
  payment_status = ProviderPaymentStatus.other "";
  refund_status = ProviderRefundStatus.other "";
  amount_cents = pos 1_800;
  refund_amount_cents = pos 0;
  currency = "CNY";
  occurred_at = "2025-01-01T00:00:00Z";
}

abbrev decoder : Decoder
decoder = record { first = λ body. some payload; at_end = λ body. true }

abbrev parser : JsonCallbackEventParser
parser = record {
  max_body_bytes = pos 0;
  signature_verifier = some (λ body. none);
  allow_unsigned = true;
}

abbrev upper : String → String
upper s = s

abbrev new_year : String → Option Time
new_year s = some 63_871_286_400_000_000_000

abbrev body : List ℕ
body = 123 ∷ 125 ∷ []

parsed : (e : CallbackEvent) × (parse_callback upper new_year decoder parser none body ≡ ok e)
unfolding parse_callback
parsed = (_, refl)

parse_callback_accepts_example : IsAccepted decoder parser body parsed.0
parse_callback_accepts_example =
    parse_callback_accepts upper new_year decoder parser none body parsed.0 parsed.1
