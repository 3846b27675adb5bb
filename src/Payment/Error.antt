-- ===== src/Payment/Error.antt =====
-- backend-go/internal/payment/errors.go. An error that wraps a sentinel by `%w` is the sentinel:
-- callers tell errors apart by `errors.Is`.
use chihuo.Base.{String}

pub data Error : Type 0 where
  invalid_request idempotency_conflict not_found already_finalized signature_verifier : Error
  invalid_callback unsupported_callback provider_unavailable credential_unavailable : Error
  -- InvalidTransitionError{Aggregate, From, To}
  invalid_transition : String → String → String → Error
  -- an error of code outside the package: the context's, a signature verifier's
  external : String → Error
