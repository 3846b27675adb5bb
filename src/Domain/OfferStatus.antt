-- ===== src/Domain/OfferStatus.antt =====
-- backend-go/internal/domain/models.go: OfferStatus. A Go string type with named constants; `other s` is a string s
-- that is none of them. `string` and `parse` are the conversions to and from Go's string.
use chihuo.Base.{String}

pub data OfferStatus : Type 0 where
  submitted accepted rejected withdrawn : OfferStatus
  other : String → OfferStatus

unfoldable pub string : OfferStatus → String
string submitted = "SUBMITTED"
string accepted = "ACCEPTED"
string rejected = "REJECTED"
string withdrawn = "WITHDRAWN"
string (other s) = s
