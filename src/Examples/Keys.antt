-- ===== src/Examples/Keys.antt =====
-- Idempotency keys of orders and refunds.
use Prim.Native.String.{len, ◌++◌ as str_append}
use chihuo.Base.{◌+◌, ◌≤◌, String, ◌≡◌, refl, true, ok, err, arith}
use chihuo.Payment.Error.{invalid_request}
use chihuo.Payment.Keys.{
  is_identifier_part, new_payment_idempotency_key, new_scoped_idempotency_key,
  new_refund_idempotency_key,
}
use chihuo.Payment.Keys.Scopes.{refund_key_too_long}

abbrev digest : String → String
digest s = s

abbrev order : String
order = "order-17"

keyed : new_payment_idempotency_key digest order ≡ ok "pay_order-17"
unfolding new_payment_idempotency_key new_scoped_idempotency_key is_identifier_part
keyed = refl

abbrev payment_uuid : String
payment_uuid = "0b0a6a3e-3c0e-4f6e-9d55-0f4c8a7b1c2d"

abbrev refund_uuid : String
refund_uuid = "7f1d2c3b-5a6b-4c7d-8e9f-a0b1c2d3e4f5"

two_uuids : 64 ≤ len payment_uuid + len refund_uuid
two_uuids = omega arith

refund_key_too_long_example :
    new_refund_idempotency_key digest payment_uuid refund_uuid ≡ err invalid_request
refund_key_too_long_example = refund_key_too_long digest payment_uuid refund_uuid two_uuids

abbrev first_part : String
first_part = "a"

abbrev middle_part : String
middle_part = "b"

part : is_identifier_part first_part ≡ true
unfolding is_identifier_part
part = refl

joined_part : is_identifier_part (str_append first_part (str_append "_" middle_part)) ≡ true
unfolding is_identifier_part
joined_part = refl
