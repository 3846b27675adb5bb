-- ===== src/Safety/Validation/Resources.antt =====
-- backend-go/internal/safety/validation.go: batches, incidents, recalls and dispositions.
use Prim.Native.String.{◌++◌ as str_append}
use chihuo.Base.{
  ℕ, suc, Bool, true, false, not, ◌&&◌, ◌||◌, Option, none, some, List, [], ◌∷◌, ◌++◌, is_nil,
}
use chihuo.Base.Int.{ℤ, pos, leb_ℤ, ltb_ℤ, eqb_ℤ, ◌+64◌}
use chihuo.Domain.{Time}
use chihuo.Safety.Status.{FoodBatchStatus}
use chihuo.Safety.Kinds.{
  valid_severity, valid_scope, valid_disposition_type, valid_incident, valid_recall,
  valid_disposition,
}
use chihuo.Safety.Model.{
  IngredientLot, OrderAssociation, FoodBatch, RegulatoryReport, FoodSafetyIncident, Recall,
  Disposition,
}
use chihuo.Safety.Errors.{Error, FieldError, flag, report}
use chihuo.Safety.Platform.{Platform}
use chihuo.Safety.Validation.{blank, is_zero, is_after, indexed, blank_fields}

abbrev pub is_missing {ℓ} : {A : Type ℓ} → Option A → Bool
is_missing value = is_nil value

abbrev pub no_elements {ℓ} : {A : Type ℓ} → List A → Bool
no_elements [] = true
no_elements (x ∷ xs) = false

-- batch.Status == BatchDraft || batch.Status == BatchCancelled
unfoldable pub needs_no_production : FoodBatchStatus → Bool
needs_no_production FoodBatchStatus.draft = true
needs_no_production FoodBatchStatus.cancelled = true
needs_no_production _ = false

-- BatchQuarantined, BatchRecalled, BatchDisposed or BatchCancelled
unfoldable pub is_inactive : FoodBatchStatus → Bool
is_inactive FoodBatchStatus.quarantined = true
is_inactive FoodBatchStatus.recalled = true
is_inactive FoodBatchStatus.disposed = true
is_inactive FoodBatchStatus.cancelled = true
is_inactive _ = false

-- batch.ProducedAt != nil && batch.ExpiresAt != nil && !batch.ExpiresAt.After(*batch.ProducedAt)
unfoldable pub expires_early : Option Time → Option Time → Bool
unfolding is_after
expires_early (some produced) (some expires) = not (is_after expires produced)
expires_early _ _ = false

-- batch.ExpiresAt != nil && !batch.ExpiresAt.After(now)
unfoldable pub has_expired : Option Time → Time → Bool
unfolding is_after
has_expired none now = false
has_expired (some expires) now = not (is_after expires now)

-- The loop over batch.Orders, from index i.
unfoldable pub order_fields : ℕ → List OrderAssociation → List FieldError
unfolding blank flag indexed
order_fields i [] = []
order_fields i (o ∷ os) =
    flag (blank o.order_id || leb_ℤ o.quantity (pos 0) || blank o.linked_by) (indexed "orders" i)
      "order id, quantity and linked_by are required"
    ++ order_fields (suc i) os

-- The checks of ValidateBatch that come first, then those of its quantities and of its times.
unfoldable pub batch_identity_fields : FoodBatch → List FieldError
unfolding blank flag is_zero
batch_identity_fields batch =
    flag (blank batch.id) "id" "is required"
    ++ flag (blank batch.merchant_id) "merchant_id" "is required"
    ++ flag (blank batch.product_id) "product_id" "is required"
    ++ flag (blank batch.storage_condition) "storage_condition" "is required"
    ++ flag (is_zero batch.production_date) "production_date" "is required"
    ++ flag (leb_ℤ batch.shelf_life_minutes (pos 0)) "shelf_life_minutes" "must be positive"

unfoldable pub batch_quantity_fields : FoodBatch → List FieldError
unfolding flag
batch_quantity_fields batch =
    let weight = batch.specification.weight_grams in
    flag
      (leb_ℤ batch.quantity_planned (pos 0)
        || ltb_ℤ batch.quantity_produced (pos 0)
        || ltb_ℤ batch.quantity_planned batch.quantity_produced)
      "quantity" "planned and produced quantities are inconsistent"
    ++ flag
        (ltb_ℤ batch.quantity_remaining (pos 0)
          || ltb_ℤ batch.quantity_produced batch.quantity_remaining)
        "quantity_remaining" "must be between zero and quantity produced"
    ++ flag (leb_ℤ batch.unit_weight_grams (pos 0)) "unit_weight_grams" "must be positive"
    ++ flag (leb_ℤ weight (pos 0) || not (eqb_ℤ weight batch.unit_weight_grams))
        "specification.weight_grams" "must be positive and match unit_weight_grams"
    ++ flag (no_elements batch.specification.ingredients) "specification.ingredients"
        "at least one ingredient is required"

unfoldable pub batch_time_fields : FoodBatch → Time → List FieldError
unfolding flag needs_no_production is_inactive expires_early has_expired
batch_time_fields batch now =
    flag (not (needs_no_production batch.status) && is_missing batch.produced_at) "produced_at"
      "is required after production starts"
    ++ flag (expires_early batch.produced_at batch.expires_at) "expires_at"
        "must be after produced_at"
    ++ flag (has_expired batch.expires_at now && not (is_inactive batch.status)) "expires_at"
        "must be in the future for an active batch"

module _ (platform : Platform) where
  -- The loop over batch.IngredientLots, from index i.
  unfoldable pub lot_fields : ℕ → List IngredientLot → List FieldError
  unfolding flag indexed is_zero is_after blank_fields
  lot_fields i [] = []
  lot_fields i (lot ∷ lots) =
      let prefix = str_append (indexed "ingredient_lots" i) "." in
      blank_fields prefix "is required" (
        platform.visit (
          ("ingredient", lot.ingredient)
          ∷ ("supplier", lot.supplier)
          ∷ ("lot_number", lot.lot_number)
          ∷ []))
      ++ flag (is_zero lot.expires_at || not (is_after lot.expires_at lot.received_at))
          (str_append prefix "expires_at") "must be after received_at"
      ++ flag (leb_ℤ lot.quantity_grams (pos 0)) (str_append prefix "quantity_grams")
          "must be positive"
      ++ lot_fields (suc i) lots

  -- ValidateBatch
  unfoldable pub validate_batch : FoodBatch → Time → Option Error
  unfolding report batch_identity_fields batch_quantity_fields batch_time_fields lot_fields
      order_fields
  validate_batch batch now = report (
      batch_identity_fields batch
      ++ batch_quantity_fields batch
      ++ batch_time_fields batch now
      ++ lot_fields 0 batch.ingredient_lots
      ++ order_fields 0 batch.orders)

-- report.Reported && report.ReportedAt == nil
unfoldable pub lacks_report_time : RegulatoryReport → Bool
lacks_report_time sent = sent.reported && is_missing sent.reported_at

-- ValidateIncident
unfoldable pub validate_incident : FoodSafetyIncident → Option Error
unfolding blank flag report is_zero lacks_report_time valid_severity valid_incident
validate_incident incident = report (
    flag (blank incident.id) "id" "is required"
    ++ flag (blank incident.merchant_id) "merchant_id" "is required"
    ++ flag (blank incident.reported_by) "reported_by" "is required"
    ++ flag (blank incident.category) "category" "is required"
    ++ flag (not (valid_severity incident.severity)) "severity" "is invalid"
    ++ flag (blank incident.title || blank incident.description) "description"
        "title and description are required"
    ++ flag (no_elements incident.batch_ids && no_elements incident.order_ids) "affected_resources"
        "at least one batch_id or order_id is required"
    ++ flag (not (valid_incident incident.status)) "status" "is invalid"
    ++ flag (is_zero incident.reported_at) "reported_at" "is required"
    ++ flag (lacks_report_time incident.regulatory_report) "regulatory_report.reported_at"
        "is required when reported is true")

-- recovered < 0 || disposed < 0 || recovered+disposed > affected
unfoldable pub exceeds_affected : ℤ → ℤ → ℤ → Bool
exceeds_affected affected recovered disposed =
    ltb_ℤ recovered (pos 0) || ltb_ℤ disposed (pos 0) || ltb_ℤ affected (recovered +64 disposed)

-- ValidateRecall
unfoldable pub validate_recall : Recall → Option Error
unfolding blank flag report exceeds_affected valid_scope valid_recall
validate_recall recall = report (
    flag (blank recall.id || blank recall.incident_id || blank recall.merchant_id) "identity"
      "id, incident_id and merchant_id are required"
    ++ flag (not (valid_scope recall.scope)) "scope" "is invalid"
    ++ flag (blank recall.reason) "reason" "is required"
    ++ flag (no_elements recall.batch_ids && no_elements recall.order_ids) "affected_resources"
        "at least one batch_id or order_id is required"
    ++ flag
        (leb_ℤ recall.affected_quantity (pos 0)
          || exceeds_affected recall.affected_quantity recall.recovered_quantity
              recall.disposed_quantity)
        "quantities" "affected, recovered and disposed quantities are inconsistent"
    ++ flag (not (valid_recall recall.status)) "status" "is invalid")

-- ValidateDisposition
unfoldable pub validate_disposition : Disposition → Option Error
unfolding blank flag report valid_disposition_type valid_disposition
validate_disposition disposition = report (
    flag (blank disposition.id || blank disposition.incident_id) "identity"
      "id and incident_id are required"
    ++ flag (blank disposition.batch_id && blank disposition.order_id) "target"
        "batch_id or order_id is required"
    ++ flag (not (valid_disposition_type disposition.kind_of)) "type" "is invalid"
    ++ flag (not (valid_disposition disposition.status)) "status" "is invalid"
    ++ flag (leb_ℤ disposition.quantity (pos 0)) "quantity" "must be positive"
    ++ flag (blank disposition.unit || blank disposition.action_by) "action"
        "unit and action_by are required")
