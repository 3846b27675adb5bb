-- ===== src/Domain/CampaignStatus.antt =====
-- backend-go/internal/domain/models.go: CampaignStatus. A Go string type with named constants; `other s` is a string s
-- that is none of them. `string` and `parse` are the conversions to and from Go's string.
use chihuo.Base.{String, str_eq, if◌then◌else◌}

pub data CampaignStatus : Type 0 where
  draft pending_review open_status sold_out closed cancelled : CampaignStatus
  other : String → CampaignStatus

unfoldable pub string : CampaignStatus → String
string draft = "DRAFT"
string pending_review = "PENDING_REVIEW"
string open_status = "OPEN"
string sold_out = "SOLD_OUT"
string closed = "CLOSED"
string cancelled = "CANCELLED"
string (other s) = s

unfoldable pub parse : String → CampaignStatus
parse s =
    if str_eq s "DRAFT"
    then draft
    else if str_eq s "PENDING_REVIEW"
    then pending_review
    else if str_eq s "OPEN"
    then open_status
    else if str_eq s "SOLD_OUT"
    then sold_out
    else if str_eq s "CLOSED"
    then closed
    else if str_eq s "CANCELLED"
    then cancelled
    else other s
