-- ===== src/Payment/Provider.antt =====
-- backend-go/internal/payment/types.go: the statuses that a payment provider reports, as Go strings
-- with named constants; `other` is any string that is none of them.
use chihuo.Base.{String}

pub data ProviderPaymentStatus : Type 0 where
  not_pay paying success closed revoked pay_error refunded unknown : ProviderPaymentStatus
  other : String → ProviderPaymentStatus

pub data ProviderRefundStatus : Type 0 where
  processing success closed abnormal unknown : ProviderRefundStatus
  other : String → ProviderRefundStatus
