-- ===== src/Payment/Keys.antt =====
-- backend-go/internal/payment/idempotency.go: the keys built from identifiers. The hex text of a
-- SHA-256 digest is a parameter.
pub mod Scopes
use Prim.Native.Char.{Char, code}
use Prim.Native.String.{len, ◌++◌ as str_append}
use chihuo.Base.{
  ℕ, String, Bool, true, false, ◌&&◌, ◌||◌, Result, ok, err, leb, ltb, ◌==◌, if◌then◌else◌,
}
use chihuo.Payment.Error.{Error, invalid_request}

-- The classes [A-Za-z0-9] and [A-Za-z0-9_-] of identifierPartPattern.
unfoldable pub is_alphanumeric : Char → Bool
is_alphanumeric c =
    (leb 65 (code c) && leb (code c) 90)
    || (leb 97 (code c) && leb (code c) 122)
    || (leb 48 (code c) && leb (code c) 57)

unfoldable pub are_part_chars : String → Bool
unfolding is_alphanumeric
are_part_chars String.[] = true
are_part_chars (String.◌∷◌ c s) =
    (is_alphanumeric c || code c == 95 || code c == 45) && are_part_chars s

unfoldable pub starts_well : String → Bool
unfolding is_alphanumeric are_part_chars
starts_well String.[] = false
starts_well (String.◌∷◌ c s) = is_alphanumeric c && are_part_chars s

-- identifierPartPattern.MatchString: what matches has one byte for a character
unfoldable pub is_identifier_part : String → Bool
unfolding starts_well
is_identifier_part value = leb (len value) 64 && starts_well value

module _ (sha256_hex : String → String) where
  -- newScopedIdempotencyKey
  unfoldable pub new_scoped_idempotency_key : String → String → Result Error String
  unfolding is_identifier_part
  new_scoped_idempotency_key scope subject =
      if is_identifier_part scope
      then (if is_identifier_part subject
          then (let value = str_append scope (str_append "_" subject) in
              ok (
                if ltb 128 (len value)
                then str_append scope (str_append "_" (sha256_hex value))
                else value))
          else err invalid_request)
      else err invalid_request

  -- NewPaymentIdempotencyKey
  unfoldable pub new_payment_idempotency_key : String → Result Error String
  unfolding new_scoped_idempotency_key
  new_payment_idempotency_key order_id = new_scoped_idempotency_key "pay" order_id

  -- NewRefundIdempotencyKey
  unfoldable pub new_refund_idempotency_key : String → String → Result Error String
  unfolding is_identifier_part new_scoped_idempotency_key
  new_refund_idempotency_key payment_id refund_id =
      if is_identifier_part payment_id
      then new_scoped_idempotency_key "refund" (str_append payment_id (str_append "_" refund_id))
      else err invalid_request

  -- NewCallbackIdempotencyKey
  unfoldable pub new_callback_idempotency_key : String → Result Error String
  unfolding new_scoped_idempotency_key
  new_callback_idempotency_key event_id = new_scoped_idempotency_key "callback" event_id
