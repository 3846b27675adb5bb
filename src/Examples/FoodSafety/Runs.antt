-- ===== src/Examples/FoodSafety/Runs.antt =====
-- Results about the food-safety service, at a run of it.
use chihuo.Base.{
  ◌≢◌, String, Bool, true, false, some, none, List, [], ◌∷◌, ◌≡◌, refl, inl, inr, is_nil,
  Option-cases, arith, Result, ok, err, All, ◌++◌,
}
use chihuo.Base.Int.{pos, wrap64, ◌*ℤ◌, ◌+ℤ◌}
use chihuo.Base.Dict.{Dict, get_or, insert, lookup, values}
use chihuo.Safety.Status.{QualificationStatus, FoodBatchStatus, RecallStatus}
use chihuo.Safety.Transitions.Histories.{batch_route}
use chihuo.Safety.Model.{
  MerchantQualification, OrderAssociation, FoodBatch, FoodSafetyIncident, Recall,
}
use chihuo.Safety.Zero.{zero_qualification, zero_batch, zero_incident, zero_recall}
use chihuo.Safety.Errors.{Error, check_context}
use chihuo.Safety.Inputs.{AssociateOrdersInput}
use chihuo.Safety.Memory.{Answer, new_memory_service}
use chihuo.Safety.Memory.Qualifications.{
  has_passed, create_qualification, submit_qualification, record_site_inspection,
  review_qualification,
}
use chihuo.Safety.Memory.Batches.{
  drafted_batch, create_batch, record_batch_production, associate_orders, transition_batch,
}
use chihuo.Safety.Memory.Incidents.{create_incident, transition_incident}
use chihuo.Safety.Memory.Recalls.{create_recall, transition_recall}
use chihuo.Safety.Memory.Chains.{add_evidence, verify_evidence_chain, subject_exists}
use chihuo.Safety.Memory.Calls.{run}
use chihuo.Safety.Memory.Lifecycle.{HasLived}
use chihuo.Safety.Memory.Containment.{IsContained}
use chihuo.Safety.Memory.Recalled.{IsHonoured}
use mathlib.Core.List.{Memᴰ}
use chihuo.Safety.Memory.Batches.Approval.{IsCurrent, created_batch_was_approved}
use chihuo.Safety.Memory.Batches.Orders.{associated_orders_were_free}
use chihuo.Safety.Memory.Atomicity.{failed_call_changes_nothing}
use chihuo.Safety.Memory.History.{batches_have_lived}
use chihuo.Safety.Memory.History.Batches.{
  IsTraced, HasQuantities, statuses, batch_histories_are_allowed, batch_quantities_are_bounded,
  completed_batches_took_the_route,
}
use chihuo.Safety.Memory.History.Resources.{
  approved_qualifications_were_inspected, containment_stays, initiated_recalls_hold_their_batches,
  evidence_chains_verify,
}
use chihuo.Examples.FoodSafety.{
  sample_platform, env_of, incident_subject, moves_batch, batch_input, qualified, packed, delivered,
  recalled, photographed,
}

abbrev delivered_batch : FoodBatch
delivered_batch = get_or zero_batch "b1" delivered.0.batches

abbrev batch_after_recall : FoodBatch
batch_after_recall = get_or zero_batch "b1" recalled.0.batches

abbrev contained_incident : FoodSafetyIncident
contained_incident = get_or zero_incident "f1" recalled.0.incidents

abbrev initiated_recall : Recall
initiated_recall = get_or zero_recall "c1" recalled.0.recalls

lookup-get_or :
    {V : Type 0} (z : V) (k : String) (m : Dict V)
    → is_nil (lookup k m) ≡ false
    → lookup k m ≡ some (get_or z k m)
unfolding get_or
lookup-get_or z k m there = elim (Option-cases (lookup k m)) [
  | inl missing ↦ ground (arith, missing, there)
  | inr (v, found) ↦ rw (found, get_or) refl
]

delivered_has_key : is_nil (lookup "b1" delivered.0.batches) ≡ false
unfolding run get_or lookup insert new_memory_service create_qualification submit_qualification
    record_site_inspection review_qualification create_batch record_batch_production
    associate_orders transition_batch create_incident transition_incident create_recall
    transition_recall add_evidence values wrap64 ◌*ℤ◌ ◌+ℤ◌
delivered_has_key = refl

delivered_is_found : lookup "b1" delivered.0.batches ≡ some delivered_batch
delivered_is_found = lookup-get_or zero_batch "b1" delivered.0.batches delivered_has_key

delivered_is_completed : delivered_batch.status ≡ FoodBatchStatus.completed
unfolding run get_or lookup insert new_memory_service create_qualification submit_qualification
    record_site_inspection review_qualification create_batch record_batch_production
    associate_orders transition_batch create_incident transition_incident create_recall
    transition_recall add_evidence values wrap64 ◌*ℤ◌ ◌+ℤ◌
delivered_is_completed = refl

recalled_has_key : is_nil (lookup "b1" recalled.0.batches) ≡ false
unfolding run get_or lookup insert new_memory_service create_qualification submit_qualification
    record_site_inspection review_qualification create_batch record_batch_production
    associate_orders transition_batch create_incident transition_incident create_recall
    transition_recall add_evidence values wrap64 ◌*ℤ◌ ◌+ℤ◌
recalled_has_key = refl

recalled_is_found : lookup "b1" recalled.0.batches ≡ some batch_after_recall
recalled_is_found = lookup-get_or zero_batch "b1" recalled.0.batches recalled_has_key

recalled_is_recalled : batch_after_recall.status ≡ FoodBatchStatus.recalled
unfolding run get_or lookup insert new_memory_service create_qualification submit_qualification
    record_site_inspection review_qualification create_batch record_batch_production
    associate_orders transition_batch create_incident transition_incident create_recall
    transition_recall add_evidence values wrap64 ◌*ℤ◌ ◌+ℤ◌
recalled_is_recalled = refl

incident_has_key : is_nil (lookup "f1" recalled.0.incidents) ≡ false
unfolding run get_or lookup insert new_memory_service create_qualification submit_qualification
    record_site_inspection review_qualification create_batch record_batch_production
    associate_orders transition_batch create_incident transition_incident create_recall
    transition_recall add_evidence values wrap64 ◌*ℤ◌ ◌+ℤ◌
incident_has_key = refl

incident_is_found : lookup "f1" recalled.0.incidents ≡ some contained_incident
incident_is_found = lookup-get_or zero_incident "f1" recalled.0.incidents incident_has_key

recall_has_key : is_nil (lookup "c1" recalled.0.recalls) ≡ false
unfolding run get_or lookup insert new_memory_service create_qualification submit_qualification
    record_site_inspection review_qualification create_batch record_batch_production
    associate_orders transition_batch create_incident transition_incident create_recall
    transition_recall add_evidence values wrap64 ◌*ℤ◌ ◌+ℤ◌
recall_has_key = refl

recall_is_found : lookup "c1" recalled.0.recalls ≡ some initiated_recall
recall_is_found = lookup-get_or zero_recall "c1" recalled.0.recalls recall_has_key

recall_is_initiated : initiated_recall.status ≡ RecallStatus.initiated
unfolding run get_or lookup insert new_memory_service create_qualification submit_qualification
    record_site_inspection review_qualification create_batch record_batch_production
    associate_orders transition_batch create_incident transition_incident create_recall
    transition_recall add_evidence values wrap64 ◌*ℤ◌ ◌+ℤ◌
recall_is_initiated = refl

subject_is_there : subject_exists photographed.0 incident_subject ≡ true
unfolding run get_or lookup insert new_memory_service create_qualification submit_qualification
    record_site_inspection review_qualification create_batch record_batch_production
    associate_orders transition_batch create_incident transition_incident create_recall
    transition_recall add_evidence values wrap64 ◌*ℤ◌ ◌+ℤ◌
subject_is_there = refl

skipping_fails :
    (run sample_platform (moves_batch FoodBatchStatus.completed) packed.0).0
    ≡ some Error.invalid_transition
unfolding run get_or lookup insert new_memory_service create_qualification submit_qualification
    record_site_inspection review_qualification create_batch record_batch_production
    associate_orders transition_batch create_incident transition_incident create_recall
    transition_recall add_evidence values wrap64 ◌*ℤ◌ ◌+ℤ◌
skipping_fails = refl

in_time : check_context (env_of "" 3000).context ≡ none
unfolding check_context
in_time = refl

batches_have_lived_example : HasLived batch_after_recall
batches_have_lived_example =
    batches_have_lived sample_platform recalled.0 "b1" batch_after_recall recalled.1
      recalled_is_found

batch_histories_are_allowed_example : IsTraced batch_after_recall
batch_histories_are_allowed_example =
    batch_histories_are_allowed sample_platform recalled.0 "b1" batch_after_recall recalled.1
      recalled_is_found

batch_quantities_are_bounded_example : HasQuantities batch_after_recall
batch_quantities_are_bounded_example =
    batch_quantities_are_bounded sample_platform recalled.0 "b1" batch_after_recall recalled.1
      recalled_is_found

completed_batches_took_the_route_example :
    batch_route FoodBatchStatus.draft ≡ some (statuses delivered_batch.status_history)
completed_batches_took_the_route_example =
    completed_batches_took_the_route sample_platform delivered.0 "b1" delivered_batch delivered.1
      delivered_is_found delivered_is_completed

containment_stays_example : IsContained recalled.0.batches contained_incident
containment_stays_example =
    containment_stays sample_platform recalled.0 "f1" contained_incident recalled.1
      incident_is_found

initiated_recalls_hold_their_batches_example : IsHonoured recalled.0.batches initiated_recall
initiated_recalls_hold_their_batches_example =
    initiated_recalls_hold_their_batches sample_platform recalled.0 "c1" initiated_recall recalled.1
      recall_is_found

evidence_chains_verify_example :
    verify_evidence_chain sample_platform (env_of "" 3000) incident_subject photographed.0 ≡ none
evidence_chains_verify_example =
    evidence_chains_verify sample_platform photographed.0 (env_of "" 3000) incident_subject
      photographed.1 in_time subject_is_there

failed_call_changes_nothing_example :
    (run sample_platform (moves_batch FoodBatchStatus.completed) packed.0).1 ≡ packed.0
failed_call_changes_nothing_example =
    failed_call_changes_nothing sample_platform (moves_batch FoodBatchStatus.completed) packed.0
      Error.invalid_transition skipping_fails

-- The batch that CreateBatch returns, and the one that AssociateOrders returns.
abbrev visited_list : List MerchantQualification
visited_list = values qualified.0.qualifications

created :
    (create_batch sample_platform (env_of "b1" 1400) visited_list batch_input qualified.0).0
    ≡ ok (drafted_batch (env_of "b1" 1400) batch_input)
unfolding run get_or lookup insert new_memory_service create_qualification submit_qualification
    record_site_inspection review_qualification create_batch record_batch_production
    associate_orders transition_batch create_incident transition_incident create_recall
    transition_recall add_evidence values wrap64 ◌*ℤ◌ ◌+ℤ◌
created = refl

created_batch_was_approved_example :
    (q : MerchantQualification) × Memᴰ q visited_list × IsCurrent "m1" 1400 q
created_batch_was_approved_example =
    created_batch_was_approved sample_platform (env_of "b1" 1400) visited_list batch_input
      qualified.0 (drafted_batch (env_of "b1" 1400) batch_input) created

abbrev second_order : AssociateOrdersInput
second_order = record {
  actor_id = "m1";
  orders = record { order_id = " o2 "; quantity = pos 15 } ∷ [];
}

abbrev is_ok : Result Error FoodBatch → Bool
is_ok (ok b) = true
is_ok (err e) = false

abbrev value_of : Result Error FoodBatch → FoodBatch
value_of (ok b) = b
value_of (err e) = zero_batch

answer_has_value : (r : Answer FoodBatch) → is_ok r.0 ≡ true → r.0 ≡ ok (value_of r.0)
answer_has_value (ok b, s) h = refl
answer_has_value (err e, s) h = ground (arith, h)

sale_succeeds : is_ok (associate_orders (env_of "" 1690) "b1" second_order packed.0).0 ≡ true
unfolding run get_or lookup insert new_memory_service create_qualification submit_qualification
    record_site_inspection review_qualification create_batch record_batch_production
    associate_orders transition_batch create_incident transition_incident create_recall
    transition_recall add_evidence values wrap64 ◌*ℤ◌ ◌+ℤ◌
sale_succeeds = refl

associated_orders_were_free_example :
    (old : FoodBatch) × (added : List OrderAssociation) × (lookup "b1" packed.0.batches ≡ some old)
    × ((value_of (associate_orders (env_of "" 1690) "b1" second_order packed.0).0).orders
        ≡ old.orders ++ added)
    × All (λ o. lookup o.order_id packed.0.order_batch ≡ none) added
    × All
        (λ o.
          lookup o.order_id
            (associate_orders (env_of "" 1690) "b1" second_order packed.0).1.order_batch
          ≡ some "b1")
        added
    × ((j : String)
        → All (λ o. o.order_id ≢ j) added
        → lookup j (associate_orders (env_of "" 1690) "b1" second_order packed.0).1.order_batch
          ≡ lookup j packed.0.order_batch)
    × ((j at : String)
        → lookup j packed.0.order_batch ≡ some at
        → lookup j (associate_orders (env_of "" 1690) "b1" second_order packed.0).1.order_batch
          ≡ some at)
associated_orders_were_free_example =
    associated_orders_were_free (env_of "" 1690) "b1" second_order packed.0
      (value_of (associate_orders (env_of "" 1690) "b1" second_order packed.0).0)
      (answer_has_value (associate_orders (env_of "" 1690) "b1" second_order packed.0)
        sale_succeeds)

abbrev approved_one : MerchantQualification
approved_one = get_or zero_qualification "q1" recalled.0.qualifications

qualification_has_key : is_nil (lookup "q1" recalled.0.qualifications) ≡ false
unfolding run get_or lookup insert new_memory_service create_qualification submit_qualification
    record_site_inspection review_qualification create_batch record_batch_production
    associate_orders transition_batch create_incident transition_incident create_recall
    transition_recall add_evidence values wrap64 ◌*ℤ◌ ◌+ℤ◌
qualification_has_key = refl

qualification_is_approved : approved_one.status ≡ QualificationStatus.approved
unfolding run get_or lookup insert new_memory_service create_qualification submit_qualification
    record_site_inspection review_qualification create_batch record_batch_production
    associate_orders transition_batch create_incident transition_incident create_recall
    transition_recall add_evidence values wrap64 ◌*ℤ◌ ◌+ℤ◌
qualification_is_approved = refl

approved_qualifications_were_inspected_example : has_passed approved_one.site_inspection ≡ true
approved_qualifications_were_inspected_example =
    approved_qualifications_were_inspected sample_platform recalled.0 "q1" approved_one recalled.1
      (lookup-get_or zero_qualification "q1" recalled.0.qualifications qualification_has_key)
      qualification_is_approved
