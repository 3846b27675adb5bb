-- ===== src/Payment/Keys/Scopes.antt =====
-- Which identifiers get which keys, for the keys of backend-go/internal/payment/idempotency.go.
use Prim.Native.String.{len, ◌++◌ as str_append}
use text.Mathlib.TextLemmas.{append_assoc, append_cancel_left}
use text.Mathlib.TextPositions.{len-append}
use chihuo.Base.{◌+◌, ◌≤◌, String, ◌≡◌, sym, ap, ◌∙◌, true, ok, err, arith}
use chihuo.Payment.Error.{invalid_request}
use chihuo.Payment.Keys.{
  is_identifier_part, new_scoped_idempotency_key, new_payment_idempotency_key,
  new_refund_idempotency_key,
}

part_length : (s : String) → is_identifier_part s ≡ true → len s ≤ 64
unfolding is_identifier_part
part_length s h = ground (arith, h)

joined_length : (a b : String) → len (str_append a (str_append "_" b)) ≡ len a + (1 + len b)
joined_length a b = rw (len-append a (str_append "_" b), len-append "_" b)

regroup :
    (a b c : String)
    → str_append a (str_append "_" (str_append b (str_append "_" c)))
      ≡ str_append (str_append a (str_append "_" b)) (str_append "_" c)
regroup a b c =
    ap (str_append a) (sym (append_assoc "_" b (str_append "_" c)))
    ∙ sym (append_assoc a (str_append "_" b) (str_append "_" c))

module _ (sha256_hex : String → String) where
  -- For a scope as short as those in use, a key is the scope, an underscore and the subject: such a key
  -- has at most 128 bytes, so no digest replaces it.
  scoped_key :
      (scope subject key : String)
      → len scope ≤ 8
      → new_scoped_idempotency_key sha256_hex scope subject ≡ ok key
      → (is_identifier_part scope ≡ true)
        × (is_identifier_part subject ≡ true)
        × (key ≡ str_append scope (str_append "_" subject))
  unfolding new_scoped_idempotency_key
  scoped_key scope subject key short h =
      ground (arith, h, short, part_length subject, joined_length scope subject)

  -- Two orders that both get a payment key get different keys if they are different.
  pub payment_keys_differ :
      (a b key : String)
      → new_payment_idempotency_key sha256_hex a ≡ ok key
      → new_payment_idempotency_key sha256_hex b ≡ ok key
      → a ≡ b
  unfolding new_payment_idempotency_key
  payment_keys_differ a b key ha hb =
      let (_, _, ka) = scoped_key "pay" a key (omega arith) ha in
      let (_, _, kb) = scoped_key "pay" b key (omega arith) hb in
      append_cancel_left "_" a b
        (append_cancel_left "pay" (str_append "_" a) (str_append "_" b) (sym ka ∙ kb))

  -- No refund key is made for a payment id and a refund id of 64 bytes or more together, such as two
  -- UUIDs: the two and an underscore are checked as one identifier, of at most 64 bytes.
  pub refund_key_too_long :
      (payment_id refund_id : String)
      → 64 ≤ len payment_id + len refund_id
      → new_refund_idempotency_key sha256_hex payment_id refund_id ≡ err invalid_request
  unfolding new_refund_idempotency_key new_scoped_idempotency_key is_identifier_part
  refund_key_too_long payment_id refund_id long =
      ground (arith, long, joined_length payment_id refund_id)

  -- Refund keys do not tell apart where the payment id ends: ids a and b_c give the key of a_b and c,
  -- if a and a_b are both identifiers.
  pub refund_keys_collide :
      (a b c : String)
      → is_identifier_part a ≡ true
      → is_identifier_part (str_append a (str_append "_" b)) ≡ true
      → new_refund_idempotency_key sha256_hex a (str_append b (str_append "_" c))
        ≡ new_refund_idempotency_key sha256_hex (str_append a (str_append "_" b)) c
  unfolding new_refund_idempotency_key
  refund_keys_collide a b c ha hab =
      rw (ha, hab) (ap (new_scoped_idempotency_key sha256_hex "refund") (regroup a b c))
