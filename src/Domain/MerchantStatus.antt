-- ===== src/Domain/MerchantStatus.antt =====
-- backend-go/internal/domain/models.go: MerchantStatus. A Go string type with named constants; `other s` is a string s
-- that is none of them. `string` and `parse` are the conversions to and from Go's string.
use chihuo.Base.{String, str_eq, if◌then◌else◌}

pub data MerchantStatus : Type 0 where
  pending approved rejected suspended : MerchantStatus
  other : String → MerchantStatus

unfoldable pub string : MerchantStatus → String
string pending = "PENDING"
string approved = "APPROVED"
string rejected = "REJECTED"
string suspended = "SUSPENDED"
string (other s) = s

unfoldable pub parse : String → MerchantStatus
parse s =
    if str_eq s "PENDING"
    then pending
    else if str_eq s "APPROVED"
    then approved
    else if str_eq s "REJECTED"
    then rejected
    else if str_eq s "SUSPENDED"
    then suspended
    else other s
