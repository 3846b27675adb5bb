-- ===== src/Safety/Status.antt =====
-- backend-go/internal/safety/model.go: the statuses, as Go strings with named constants; `other` is
-- any string that is none of them.
use chihuo.Base.{String}

pub data QualificationStatus : Type 0 where
  draft pending_review approved rejected suspended expired : QualificationStatus
  other : String → QualificationStatus

pub data FoodBatchStatus : Type 0 where
  draft scheduled producing packed ready_for_handoff in_delivery completed quarantined recalled
        disposed cancelled :
      FoodBatchStatus
  other : String → FoodBatchStatus

pub data IncidentStatus : Type 0 where
  reported contained investigating confirmed recalling compensating resolved closed dismissed :
      IncidentStatus
  other : String → IncidentStatus

pub data RecallStatus : Type 0 where
  draft initiated in_progress completed cancelled : RecallStatus
  other : String → RecallStatus

pub data DispositionStatus : Type 0 where
  planned completed failed cancelled : DispositionStatus
  other : String → DispositionStatus
