-- ===== src/Safety/Validation/Reports.antt =====
-- What a check that reports nothing has ruled out.
use chihuo.Base.{false, none, List, [], ◌∷◌, ◌++◌, ◌≡◌, refl, arith}
use chihuo.Base.Int.{pos, ◌<ℤ◌}
use chihuo.Domain.{Time}
use chihuo.Safety.Model.{FoodBatch, Recall}
use chihuo.Safety.Errors.{FieldError, flag, report}
use chihuo.Safety.Platform.{Platform}
use chihuo.Safety.Validation.{blank}
use chihuo.Safety.Validation.Resources.{
  batch_identity_fields, batch_quantity_fields, batch_time_fields, lot_fields, order_fields,
  validate_batch, validate_recall,
}

-- A report of several lists is empty only if each is.
pub report_first : (xs ys : List FieldError) → report (xs ++ ys) ≡ none → report xs ≡ none
unfolding report
report_first [] ys h = refl
report_first (x ∷ xs) ys h = ground arith

pub report_rest : (xs ys : List FieldError) → report (xs ++ ys) ≡ none → report ys ≡ none
unfolding report
report_rest [] ys h = h
report_rest (x ∷ xs) ys h = ground arith

quantity-planned :
    (b : FoodBatch) → report (batch_quantity_fields b) ≡ none → pos 0 <ℤ b.quantity_planned
unfolding report flag batch_quantity_fields
quantity-planned b h = ground arith

-- A batch that ValidateBatch accepts is planned with a positive quantity.
pub validate_batch-planned :
    (platform : Platform) (b : FoodBatch) (now : Time)
    → validate_batch platform b now ≡ none
    → pos 0 <ℤ b.quantity_planned
unfolding validate_batch
validate_batch-planned platform b now h =
    let start = batch_identity_fields b ++ batch_quantity_fields b in
    let timed = start ++ batch_time_fields b now in
    let supplied = timed ++ lot_fields platform 0 b.ingredient_lots in
    let h1 = report_first supplied (order_fields 0 b.orders) h in
    let h2 = report_first timed (lot_fields platform 0 b.ingredient_lots) h1 in
    let h3 = report_first start (batch_time_fields b now) h2 in
    quantity-planned b (report_rest (batch_identity_fields b) (batch_quantity_fields b) h3)

-- A recall that ValidateRecall accepts names its merchant.
pub validate_recall-named :
    (recall : Recall) → validate_recall recall ≡ none → blank recall.merchant_id ≡ false
unfolding validate_recall report flag
validate_recall-named recall h = ground arith
