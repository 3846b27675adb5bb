-- ===== src/Safety/Memory/Lists.antt =====
-- backend-go/internal/safety/memory.go: the lists of what the service holds. A range over a map
-- visits it in an order of the runtime's choosing, so each takes the values in the order visited.
use chihuo.Base.{String, Bool, ◌&&◌, ◌||◌, List, str_eq, keep, sort_slice}
use chihuo.Base.Text.{is_empty}
use chihuo.Safety.Status.{QualificationStatus, FoodBatchStatus, IncidentStatus, RecallStatus}
use chihuo.Safety.Kinds.{text_qualification, text_batch, text_incident, text_recall}
use chihuo.Safety.Model.{MerchantQualification, FoodBatch, FoodSafetyIncident, Recall}
use chihuo.Safety.Errors.{check_context}
use chihuo.Safety.Validation.{is_after}
use chihuo.Safety.Memory.{MemoryService, Env, Answer, answer, unless_error}

-- An element that the loop does not skip: each filter is empty or met.
unfoldable pub matches : String → String → String → String → Bool
matches merchant_id status its_merchant its_status =
    (is_empty merchant_id || str_eq its_merchant merchant_id)
    && (is_empty status || str_eq its_status status)

module _ (env : Env) (merchant_id : String) where
  -- ListQualifications
  unfoldable pub list_qualifications :
      QualificationStatus
      → List MerchantQualification
      → MemoryService
      → Answer (List MerchantQualification)
  unfolding unless_error check_context keep sort_slice is_after matches text_qualification
  list_qualifications status visited s = unless_error (check_context env.context) s (
      answer
        (sort_slice (λ a b. is_after a.created_at b.created_at)
          (keep
            (λ q.
              matches merchant_id (text_qualification status) q.merchant_id
                (text_qualification q.status))
            visited))
        s)

  -- ListBatches
  unfoldable pub list_batches :
      FoodBatchStatus → List FoodBatch → MemoryService → Answer (List FoodBatch)
  unfolding unless_error check_context keep sort_slice is_after matches text_batch
  list_batches status visited s = unless_error (check_context env.context) s (
      answer
        (sort_slice (λ a b. is_after a.created_at b.created_at)
          (keep
            (λ batch.
              matches merchant_id (text_batch status) batch.merchant_id (text_batch batch.status))
            visited))
        s)

  -- ListIncidents
  unfoldable pub list_incidents :
      IncidentStatus → List FoodSafetyIncident → MemoryService → Answer (List FoodSafetyIncident)
  unfolding unless_error check_context keep sort_slice is_after matches text_incident
  list_incidents status visited s = unless_error (check_context env.context) s (
      answer
        (sort_slice (λ a b. is_after a.reported_at b.reported_at)
          (keep
            (λ incident.
              matches merchant_id (text_incident status) incident.merchant_id
                (text_incident incident.status))
            visited))
        s)

  -- ListRecalls
  unfoldable pub list_recalls : RecallStatus → List Recall → MemoryService → Answer (List Recall)
  unfolding unless_error check_context keep sort_slice is_after matches text_recall
  list_recalls status visited s = unless_error (check_context env.context) s (
      answer
        (sort_slice (λ a b. is_after a.created_at b.created_at)
          (keep
            (λ recall.
              matches merchant_id (text_recall status) recall.merchant_id
                (text_recall recall.status))
            visited))
        s)
