-- ===== src/Safety/Memory/Batches.antt =====
-- backend-go/internal/safety/memory.go: batches.
pub mod Approval
pub mod Orders
use chihuo.Base.{
  ◌+◌, ◌-◌, suc, String, Bool, true, false, not, ◌&&◌, ◌||◌, Option, none, some, List, [], ◌∷◌,
  ◌++◌, Result, ok, err, str_eq, if◌then◌else◌, then_check, is_nil,
}
use chihuo.Base.Text.{trim_space, is_empty}
use chihuo.Base.Dict.{Dict, lookup, insert}
use chihuo.Base.Int.{ℤ, pos, negsuc, leb_ℤ, ltb_ℤ, ◌+64◌, ◌*64◌}
use chihuo.Domain.{Time}
use chihuo.Safety.Status.{FoodBatchStatus}
use chihuo.Safety.Transitions.{can_transition_batch}
use chihuo.Safety.Kinds.{EvidenceSubjectType, valid_batch}
use chihuo.Safety.Model.{MerchantQualification, OrderAssociation, FoodBatch}
use chihuo.Safety.Inputs.{
  CreateBatchInput, RecordProductionInput, TransitionInput, OrderAssociationInput,
  AssociateOrdersInput,
}
use chihuo.Safety.Errors.{
  Error, conflict, invalid_state, invalid_transition, field_error, refuse, check_context,
}
use chihuo.Safety.Platform.{Platform}
use chihuo.Safety.Validation.{blank, is_zero, is_after, is_approved_qualification}
use chihuo.Safety.Validation.Resources.{validate_batch, no_elements}
use chihuo.Safety.Memory.{
  MemoryService, Env, Answer, answer, fail, unless_error, if_found, guarded, append_unique,
  append_status_change, contains_string, validate_evidence_refs,
}

-- s.batches[id] = batch
unfoldable pub put_batch : String → FoodBatch → MemoryService → Answer FoodBatch
unfolding insert
put_batch id batch s = answer batch (record s { batches = insert id batch s.batches })

-- A qualification that approvedQualificationLocked does not skip.
unfoldable pub qualifies : String → Time → MerchantQualification → Bool
unfolding is_approved_qualification is_after
qualifies merchant_id now q =
    str_eq q.merchant_id merchant_id
    && is_approved_qualification q.status
    && is_after q.business_license_expires_at now
    && is_after q.food_permit_expires_at now

-- The choice between the selection so far and a qualification that is not skipped.
select : Option MerchantQualification → MerchantQualification → Option MerchantQualification
unfolding is_after
select none q = some q
select (some selected) q =
    if is_after q.updated_at selected.updated_at then some q else some selected

-- The loop of approvedQualificationLocked, over the qualifications in the order visited.
unfoldable pub approved_from :
    String
    → Time
    → Option MerchantQualification
    → List MerchantQualification
    → Option MerchantQualification
unfolding qualifies select
approved_from merchant_id now selected [] = selected
approved_from merchant_id now selected (q ∷ qs) =
    approved_from merchant_id now
      (if qualifies merchant_id now q then select selected q else selected) qs

-- approvedQualificationLocked
unfoldable pub approved_qualification :
    String → Time → List MerchantQualification → Option MerchantQualification
unfolding approved_from
approved_qualification merchant_id now visited = approved_from merchant_id now none visited

-- The batch that CreateBatch builds.
unfoldable pub drafted_batch : Env → CreateBatchInput → FoodBatch
unfolding trim_space
drafted_batch env input =
    let now = env.clock 0 in
    record {
      id = env.new_id 0;
      merchant_id = trim_space input.merchant_id;
      product_id = trim_space input.product_id;
      campaign_id = trim_space input.campaign_id;
      production_date = input.production_date;
      produced_at = none;
      expires_at = none;
      shelf_life_minutes = input.shelf_life_minutes;
      storage_condition = trim_space input.storage_condition;
      quantity_planned = input.quantity_planned;
      quantity_produced = pos 0;
      quantity_remaining = pos 0;
      unit_weight_grams = input.unit_weight_grams;
      specification = input.specification;
      ingredient_lots = input.ingredient_lots;
      orders = [];
      recall_ids = [];
      evidence_ids = [];
      status = FoodBatchStatus.draft;
      status_history = [];
      created_by = trim_space input.created_by;
      created_at = now;
      updated_at = now;
    }

-- The checks of CreateBatch.
unfoldable pub create_batch_refusal :
    Platform → Env → List MerchantQualification → CreateBatchInput → Option Error
unfolding check_context refuse blank approved_qualification drafted_batch validate_batch
create_batch_refusal platform env visited input =
    let now = env.clock 0 in
    then_check (check_context env.context) (
      then_check (refuse (blank input.created_by) (field_error "created_by" "is required")) (
        then_check
          (refuse (is_nil (approved_qualification input.merchant_id now visited)) invalid_state)
          (validate_batch platform (drafted_batch env input) now)))

-- CreateBatch; `visited` holds the qualifications in the order visited
unfoldable pub create_batch :
    Platform
    → Env
    → List MerchantQualification
    → CreateBatchInput
    → MemoryService
    → Answer FoodBatch
unfolding unless_error create_batch_refusal drafted_batch put_batch
create_batch platform env visited input s =
    let batch = drafted_batch env input in
    unless_error (create_batch_refusal platform env visited input) s (put_batch batch.id batch s)

-- GetBatch
unfoldable pub get_batch : Env → String → MemoryService → Answer FoodBatch
unfolding check_context unless_error if_found lookup
get_batch env id s =
    unless_error (check_context env.context) s
      (if_found (lookup id s.batches) s (λ batch. answer batch s))

-- t.Add(d), no earlier than the zero time
unfoldable pub add_duration : Time → ℤ → Time
add_duration t (pos n) = t + n
add_duration t (negsuc n) = t - suc n

-- time.Duration(minutes) * time.Minute
unfoldable pub minutes : ℤ → ℤ
unfolding ◌*64◌
minutes n = n *64 pos 60000000000

-- batch.Status == BatchProducing
unfoldable pub is_producing : FoodBatchStatus → Bool
is_producing FoodBatchStatus.producing = true
is_producing _ = false

-- The shelf life that RecordBatchProduction uses.
unfoldable pub shelf_life : RecordProductionInput → FoodBatch → ℤ
shelf_life input batch =
    if ltb_ℤ (pos 0) input.shelf_life_minutes
    then input.shelf_life_minutes
    else batch.shelf_life_minutes

-- producedAt and expiresAt of RecordBatchProduction
unfoldable pub production_time : Env → RecordProductionInput → Time
unfolding is_zero
production_time env input = if is_zero input.produced_at then env.clock 0 else input.produced_at

unfoldable pub expiry_time : Env → RecordProductionInput → FoodBatch → Time
unfolding is_zero add_duration minutes production_time shelf_life
expiry_time env input batch =
    if is_zero input.expires_at
    then add_duration (production_time env input) (minutes (shelf_life input batch))
    else input.expires_at

-- The batch after RecordBatchProduction.
unfoldable pub produced : Env → RecordProductionInput → FoodBatch → FoodBatch
unfolding production_time expiry_time shelf_life
produced env input batch = record batch {
  shelf_life_minutes = shelf_life input batch;
  quantity_produced = input.quantity;
  quantity_remaining = input.quantity;
  produced_at = some (production_time env input);
  expires_at = some (expiry_time env input batch);
  updated_at = env.clock 1;
}

-- The checks of RecordBatchProduction, on its input and on the batch found.
unfoldable pub production_input_refusal : Env → RecordProductionInput → Option Error
unfolding check_context refuse blank
production_input_refusal env input = then_check (check_context env.context) (
    then_check (refuse (blank input.actor_id) (field_error "actor_id" "is required"))
      (refuse (leb_ℤ input.quantity (pos 0)) (field_error "quantity" "must be positive")))

unfoldable pub production_refusal : Env → RecordProductionInput → FoodBatch → Option Error
unfolding refuse is_producing is_after production_time expiry_time
production_refusal env input batch =
    then_check (refuse (not (is_producing batch.status)) invalid_state) (
      then_check
        (refuse (ltb_ℤ batch.quantity_planned input.quantity)
          (field_error "quantity" "cannot exceed quantity planned"))
        (refuse (not (is_after (expiry_time env input batch) (production_time env input)))
          (field_error "expires_at" "must be after produced_at")))

-- RecordBatchProduction
unfoldable pub record_batch_production :
    Env → String → RecordProductionInput → MemoryService → Answer FoodBatch
unfolding guarded production_input_refusal lookup production_refusal produced put_batch
record_batch_production env id input s =
    guarded (production_input_refusal env input) (lookup id s.batches)
      (production_refusal env input) s (λ batch. put_batch id (produced env input batch) s)

-- The statuses in which AssociateOrders takes orders.
unfoldable pub takes_orders : FoodBatchStatus → Bool
takes_orders FoodBatchStatus.draft = true
takes_orders FoodBatchStatus.scheduled = true
takes_orders FoodBatchStatus.producing = true
takes_orders FoodBatchStatus.packed = true
takes_orders FoodBatchStatus.ready_for_handoff = true
takes_orders _ = false

-- existingOrders and totalQuantity of AssociateOrders
unfoldable pub order_ids : List OrderAssociation → List String
order_ids [] = []
order_ids (o ∷ os) = o.order_id ∷ order_ids os

unfoldable pub total_quantity : ℤ → List OrderAssociation → ℤ
unfolding ◌+64◌
total_quantity sum [] = sum
total_quantity sum (o ∷ os) = total_quantity (sum +64 o.quantity) os

-- The checks of AssociateOrders on one order.
unfoldable pub order_refusal :
    ℤ → List String → ℤ → Dict String → OrderAssociationInput → Option Error
unfolding refuse trim_space contains_string lookup ◌+64◌
order_refusal planned known sum assigned o =
    let order_id = trim_space o.order_id in
    then_check
      (refuse (is_empty order_id || leb_ℤ o.quantity (pos 0))
        (field_error "orders" "order_id and quantity are required"))
      (then_check (refuse (contains_string known order_id) conflict) (
        then_check (refuse (not (is_nil (lookup order_id assigned))) conflict)
          (refuse (ltb_ℤ planned (sum +64 o.quantity)) conflict)))

-- The association of one order.
unfoldable pub association : String → Time → OrderAssociationInput → OrderAssociation
unfolding trim_space
association actor_id now o = record {
  order_id = trim_space o.order_id;
  quantity = o.quantity;
  linked_by = actor_id;
  linked_at = now;
}

module _ (planned : ℤ) (assigned : Dict String) (actor_id : String) (now : Time) where
  -- The loop of AssociateOrders, from the orders known and their total so far: the associations
  -- that it appends.
  unfoldable pub associate :
      List String → ℤ → List OrderAssociationInput → Result Error (List OrderAssociation)
  unfolding order_refusal association ◌+64◌
  associate known sum [] = ok []
  associate known sum (o ∷ os) =
      let linked = association actor_id now o in
      let rest = associate (linked.order_id ∷ known) (sum +64 o.quantity) os in
      elim (order_refusal planned known sum assigned o) [
        | some e ↦ err e
        | none ↦ elim rest [ ok added ↦ ok (linked ∷ added) | err e ↦ err e ]
      ]

-- for orderID := range addedOrders { s.orderBatch[orderID] = id }
unfoldable pub assign_orders : String → List OrderAssociation → Dict String → Dict String
unfolding insert
assign_orders id [] assigned = assigned
assign_orders id (o ∷ os) assigned = assign_orders id os (insert o.order_id id assigned)

-- The rest of AssociateOrders, after its loop.
unfoldable pub link_orders :
    Env
    → String
    → FoodBatch
    → MemoryService
    → Result Error (List OrderAssociation)
    → Answer FoodBatch
unfolding assign_orders put_batch
link_orders env id batch s (err e) = fail e s
link_orders env id batch s (ok added) =
    put_batch id (record batch { orders = batch.orders ++ added; updated_at = env.clock 0 })
      (record s { order_batch = assign_orders id added s.order_batch })

-- AssociateOrders
unfoldable pub associate_orders :
    Env → String → AssociateOrdersInput → MemoryService → Answer FoodBatch
unfolding guarded check_context refuse blank lookup takes_orders associate order_ids total_quantity
    link_orders
associate_orders env id input s =
    guarded
      (then_check (check_context env.context) (
        then_check (refuse (blank input.actor_id) (field_error "actor_id" "is required")) (
          refuse (no_elements input.orders)
            (field_error "orders" "at least one order is required"))))
      (lookup id s.batches) (λ batch. refuse (not (takes_orders batch.status)) invalid_state) s
      (λ batch. link_orders env id batch s (
        associate batch.quantity_planned s.order_batch input.actor_id (env.clock 0)
          (order_ids batch.orders) (total_quantity (pos 0) batch.orders) input.orders))

-- The checks of TransitionBatch for a target beyond the transition itself.
unfoldable pub target_refusal : FoodBatchStatus → FoodBatch → Option Error
unfolding refuse
target_refusal FoodBatchStatus.packed batch =
    refuse
      (is_nil batch.produced_at || is_nil batch.expires_at || leb_ℤ batch.quantity_produced (pos 0))
      invalid_state
target_refusal FoodBatchStatus.ready_for_handoff batch =
    refuse (leb_ℤ batch.quantity_produced (pos 0)) invalid_state
target_refusal FoodBatchStatus.in_delivery batch = refuse (no_elements batch.orders) invalid_state
target_refusal _ batch = none

-- The batch after TransitionBatch.
unfoldable pub transitioned : Env → FoodBatchStatus → TransitionInput → FoodBatch → FoodBatch
unfolding append_unique append_status_change
transitioned env target input batch =
    let now = env.clock 0 in
    record batch {
      status = target;
      evidence_ids = append_unique batch.evidence_ids input.evidence_ids;
      updated_at = now;
      status_history =
          append_status_change batch.status_history batch.status target input.actor_id input.reason
            now;
    }

-- The checks of TransitionBatch on the batch found.
unfoldable pub batch_refusal :
    String → FoodBatchStatus → TransitionInput → MemoryService → FoodBatch → Option Error
unfolding refuse valid_batch can_transition_batch target_refusal validate_evidence_refs
batch_refusal id target input s batch =
    then_check (refuse (not (valid_batch target)) (field_error "status" "is invalid")) (
      then_check (refuse (not (can_transition_batch batch.status target)) invalid_transition) (
        then_check (target_refusal target batch)
          (validate_evidence_refs s EvidenceSubjectType.batch id input.evidence_ids)))

-- TransitionBatch
unfoldable pub transition_batch :
    Env → String → FoodBatchStatus → TransitionInput → MemoryService → Answer FoodBatch
unfolding guarded check_context refuse blank lookup batch_refusal transitioned put_batch
transition_batch env id target input s =
    guarded
      (then_check (check_context env.context)
        (refuse (blank input.actor_id) (field_error "actor_id" "is required")))
      (lookup id s.batches) (batch_refusal id target input s) s
      (λ batch. put_batch id (transitioned env target input batch) s)
