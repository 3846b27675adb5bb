-- ===== src/Domain/OrderStatus.antt =====
-- backend-go/internal/domain/models.go: OrderStatus. A Go string type with named constants; `other s` is a string s
-- that is none of them. `string` and `parse` are the conversions to and from Go's string.
use chihuo.Base.{String}

pub data OrderStatus : Type 0 where
  pending_payment paid accepted preparing ready_for_pickup picked_up delivering delivered cancelled
        refunded :
      OrderStatus
  other : String → OrderStatus

unfoldable pub string : OrderStatus → String
string pending_payment = "PENDING_PAYMENT"
string paid = "PAID"
string accepted = "ACCEPTED"
string preparing = "PREPARING"
string ready_for_pickup = "READY_FOR_PICKUP"
string picked_up = "PICKED_UP"
string delivering = "DELIVERING"
string delivered = "DELIVERED"
string cancelled = "CANCELLED"
string refunded = "REFUNDED"
string (other s) = s
