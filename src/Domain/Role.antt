-- ===== src/Domain/Role.antt =====
-- backend-go/internal/domain/models.go: Role. A Go string type with named constants; `other s` is a string s
-- that is none of them. `string` and `parse` are the conversions to and from Go's string.
use chihuo.Base.{String, Bool, true, false}

pub data Role : Type 0 where
  consumer merchant rider admin : Role
  other : String → Role

unfoldable pub string : Role → String
string consumer = "CONSUMER"
string merchant = "MERCHANT"
string rider = "RIDER"
string admin = "ADMIN"
string (other s) = s

-- Valid()
unfoldable pub valid : Role → Bool
valid (other s) = false
valid consumer = true
valid _ = true
