-- ===== src/Payment.antt =====
-- The payment package, backend-go/internal/payment: statuses and their transitions, idempotency
-- keys, request validation, the sandbox provider and provider callbacks.
pub mod Error
pub mod PaymentStatus
pub mod RefundStatus
pub mod State
pub mod Provider
pub mod Requests
pub mod Callback
pub mod Keys
pub mod Sandbox
