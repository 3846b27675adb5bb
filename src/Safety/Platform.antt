-- ===== src/Safety/Platform.antt =====
-- What the food-safety package uses of Go's libraries and runtime, as a parameter of its model.
use chihuo.Base.{ℕ, String, Option}
use chihuo.Base.Dict.{Dict}
use chihuo.Domain.{Time}
use chihuo.Safety.Kinds.{EvidenceKind}
use chihuo.Safety.Model.{EvidenceSubject}

-- backend-go/internal/safety/validation.go: the anonymous struct that evidenceHash encodes
pub record EvidencePayload : Type 0 where
  pub subject : EvidenceSubject
  pub sequence : ℕ
  pub previous_hash : String
  pub kind : EvidenceKind
  pub uri : String
  pub sha256 : String
  pub mime_type : String
  pub captured_by : String
  pub captured_at : String
  pub description : String
  pub metadata : Dict String

-- `to_lower` is strings.ToLower; `scheme` is the scheme that url.Parse finds, none where it fails;
-- `format` is UTC().Format(time.RFC3339Nano); `digest` is the SHA-256 in hex of the payload's JSON;
-- `visit` is the order in which a range visits a map of strings.
pub record Platform : Type 0 where
  pub to_lower : String → String
  pub scheme : String → Option String
  pub format : Time → String
  pub digest : EvidencePayload → String
  pub visit : Dict String → Dict String
