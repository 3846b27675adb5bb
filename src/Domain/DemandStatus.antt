-- ===== src/Domain/DemandStatus.antt =====
-- backend-go/internal/domain/models.go: DemandStatus. A Go string type with named constants; `other s` is a string s
-- that is none of them. `string` and `parse` are the conversions to and from Go's string.
use chihuo.Base.{String, str_eq, if◌then◌else◌}

pub data DemandStatus : Type 0 where
  pending_review open_status ready closed rejected : DemandStatus
  other : String → DemandStatus

unfoldable pub string : DemandStatus → String
string pending_review = "PENDING_REVIEW"
string open_status = "OPEN"
string ready = "READY"
string closed = "CLOSED"
string rejected = "REJECTED"
string (other s) = s

unfoldable pub parse : String → DemandStatus
parse s =
    if str_eq s "PENDING_REVIEW"
    then pending_review
    else if str_eq s "OPEN"
    then open_status
    else if str_eq s "READY"
    then ready
    else if str_eq s "CLOSED"
    then closed
    else if str_eq s "REJECTED"
    then rejected
    else other s
