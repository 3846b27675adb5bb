-- ===== src/Payment/Callback/Parsing.antt =====
-- What a callback must be for ParseCallback of backend-go/internal/payment/callback.go to accept it.
use Prim.{Unit, tt}
use chihuo.Base.{
  ℕ, ◌≤◌, ◌<◌, String, ◌≡◌, ◌⊎◌, refl, inl, inr, true, Option, none, some, Result, ok, err, List,
  length, arith, if◌then◌else◌, then_check, Bool-cases, Option-cases, subst,
}
use chihuo.Domain.{Time}
use chihuo.Payment.Error.{Error, signature_verifier}
use chihuo.Payment.Callback.{
  CallbackEvent, CallbackPayload, Decoder, JsonCallbackEventParser, check_signature, check_size,
  max_bytes, check_callback, parse_callback,
}
use chihuo.Payment.Callback.Events.{IsFit, FitResult, event-FitResult}

-- The callback may be believed: its signature was verified, or none is asked for.
abbrev pub IsTrusted : JsonCallbackEventParser → List ℕ → Type 0
IsTrusted parser body =
    ((parser.signature_verifier ≡ none) × (parser.allow_unsigned ≡ true))
    ⊎ ((verify : List ℕ → Option Error) × (parser.signature_verifier ≡ some verify)
        × (verify body ≡ none))

both_checked : (a b : Option Error) → then_check a b ≡ none → (a ≡ none) × (b ≡ none)
both_checked none b h = (refl, h)
both_checked (some e) b h = cc

signed_callback :
    (parser : JsonCallbackEventParser) (body : List ℕ)
    → check_signature parser body ≡ none
    → IsTrusted parser body
unfolding check_signature
signed_callback parser body h = go parser.signature_verifier refl h
  where
    go :
        (v : Option (List ℕ → Option Error))
        → parser.signature_verifier ≡ v
        → (elim v [
          | none ↦ if parser.allow_unsigned then none else some signature_verifier
          | some verify ↦ verify body
        ])
          ≡ none
        → IsTrusted parser body
    go none unsigned e = inl (unsigned, ground (arith, e))
    go (some verify) signed e = inr (verify, signed, e)

sized_callback :
    (parser : JsonCallbackEventParser) (body : List ℕ)
    → check_size parser body ≡ none
    → (0 < length body) × (length body ≤ max_bytes parser)
unfolding check_size
sized_callback parser body h = (ground (arith, h), ground (arith, h))

-- An accepted callback was decoded whole from a body that passed the checks.
abbrev pub IsAccepted : Decoder → JsonCallbackEventParser → List ℕ → CallbackEvent → Type 0
IsAccepted decoder parser body e =
    IsTrusted parser body
    × (0 < length body)
    × (length body ≤ max_bytes parser)
    × (decoder.at_end body ≡ true)
    × ((p : CallbackPayload) × (decoder.first body ≡ some p) × IsFit p e)

abbrev ParseResult :
    Decoder → JsonCallbackEventParser → List ℕ → Result Error CallbackEvent → Type 0
ParseResult decoder parser body (err e) = Unit {0}
ParseResult decoder parser body (ok e) = IsAccepted decoder parser body e

module _ (to_upper : String → String) (parse_rfc3339 : String → Option Time) (decoder : Decoder)
    (parser : JsonCallbackEventParser) (body : List ℕ) where
  decoded-ParseResult :
      (p : CallbackPayload) (r : Result Error CallbackEvent)
      → check_callback parser body ≡ none
      → decoder.at_end body ≡ true
      → decoder.first body ≡ some p
      → FitResult p r
      → ParseResult decoder parser body r
  unfolding check_callback
  decoded-ParseResult p (err e) checked ended decoded fit = tt
  decoded-ParseResult p (ok e) checked ended decoded fit =
      let (signed, sized) =
        both_checked (check_signature parser body) (check_size parser body) checked in
      let (some_bytes, few_bytes) = sized_callback parser body sized in
      (signed_callback parser body signed, some_bytes, few_bytes, ended, (p, decoded, fit))

  parse_callback-ParseResult :
      (ctx_error : Option Error)
      → ParseResult decoder parser body
          (parse_callback to_upper parse_rfc3339 decoder parser ctx_error body)
  unfolding parse_callback
  parse_callback-ParseResult (some x) = tt
  parse_callback-ParseResult none = elim (Option-cases (check_callback parser body)) [
    | inr (x, refused) ↦ rw (refused, parse_callback) tt
    | inl checked ↦
        rw (checked, parse_callback)
          (elim (Option-cases (decoder.first body)) [
            | inl garbled ↦ rw (garbled, parse_callback) tt
            | inr (p, decoded) ↦
                rw (decoded, parse_callback)
                  (elim (Bool-cases (decoder.at_end body)) [
                    | inr more ↦ rw more tt
                    | inl ended ↦ rw ended (
                        decoded-ParseResult p _ checked ended decoded
                          (event-FitResult to_upper parse_rfc3339 p))
                  ])
          ])
  ]

-- ParseCallback returns an event only for a body within the parser's size limit that is one JSON value
-- and whose signature was verified, or where unsigned callbacks are allowed. The event carries the
-- payload's event id and trade number, neither blank, and its statuses, amounts and refund number agree
-- with its type.
pub parse_callback_accepts :
    (to_upper : String → String) (parse_rfc3339 : String → Option Time) (decoder : Decoder)
    (parser : JsonCallbackEventParser) (ctx_error : Option Error) (body : List ℕ)
    (e : CallbackEvent)
    → parse_callback to_upper parse_rfc3339 decoder parser ctx_error body ≡ ok e
    → IsAccepted decoder parser body e
parse_callback_accepts to_upper parse_rfc3339 decoder parser ctx_error body e parsed =
    subst (ParseResult decoder parser body) parsed
      (parse_callback-ParseResult to_upper parse_rfc3339 decoder parser body ctx_error)
