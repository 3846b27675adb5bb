-- ===== src/Safety/Memory/History/Resources.antt =====
-- What holds of incidents, recalls and evidence in every service that calls lead to.
use chihuo.Base.{String, true, some, none, ◌≡◌, refl, inl, inr, arith}
use chihuo.Base.Dict.{lookup, get_or, Each}
use chihuo.Safety.Model.{MerchantQualification, FoodSafetyIncident, Recall, EvidenceSubject}
use chihuo.Safety.Errors.{check_context, refuse}
use chihuo.Safety.Platform.{Platform}
use chihuo.Safety.Memory.{MemoryService, Env, new_memory_service}
use chihuo.Safety.Memory.Chains.{subject_exists, subject_key, verify_from, verify_evidence_chain}
use chihuo.Safety.Memory.Chains.Integrity.{HasVerifiedChains}
use chihuo.Safety.Memory.Chains.Calls.{run-HasVerifiedChains}
use chihuo.Safety.Memory.Containment.{IsContained}
use chihuo.Safety.Memory.Containment.Calls.{run-IsContained}
use chihuo.Safety.Memory.Recalled.{IsHonoured}
use chihuo.Safety.Memory.Recalled.Calls.{run-IsHonoured}
use chihuo.Safety.Status.{QualificationStatus}
use chihuo.Safety.Validation.{is_approved_qualification}
use chihuo.Safety.Memory.Qualifications.{has_passed}
use chihuo.Safety.Memory.Qualifications.Inspected.{IsInspected, run-StillInspected}
use chihuo.Safety.Memory.History.{Reachable}

module _ (platform : Platform) where
  no_incidents : Each (λ _. IsContained new_memory_service.batches) new_memory_service.incidents
  unfolding new_memory_service lookup
  no_incidents id incident found = ground arith

  no_recalls : Each (λ _. IsHonoured new_memory_service.batches) new_memory_service.recalls
  unfolding new_memory_service lookup
  no_recalls id recall found = ground arith

  no_chains : HasVerifiedChains platform new_memory_service
  unfolding new_memory_service get_or lookup verify_from
  no_chains key = refl

  all-IsContained :
      (s : MemoryService) → Reachable platform s → Each (λ _. IsContained s.batches) s.incidents
  all-IsContained s Reachable.start = no_incidents
  all-IsContained s (Reachable.next {s = s0} c before fresh) =
      run-IsContained platform c s0 fresh (all-IsContained s0 before)

  -- In every service that calls lead to, an incident that was ever contained has all its batches in
  -- the service and out of circulation: quarantined, recalled, disposed of or cancelled.
  pub containment_stays :
      (s : MemoryService) (id : String) (incident : FoodSafetyIncident)
      → Reachable platform s
      → lookup id s.incidents ≡ some incident
      → IsContained s.batches incident
  containment_stays s id incident history = all-IsContained s history id incident

  all-IsHonoured :
      (s : MemoryService) → Reachable platform s → Each (λ _. IsHonoured s.batches) s.recalls
  all-IsHonoured s Reachable.start = no_recalls
  all-IsHonoured s (Reachable.next {s = s0} c before fresh) =
      run-IsHonoured platform c s0 fresh (all-IsHonoured s0 before)

  -- In every service that calls lead to, a recall that is INITIATED, IN_PROGRESS or COMPLETED has all
  -- its batches in the service, each RECALLED or DISPOSED.
  pub initiated_recalls_hold_their_batches :
      (s : MemoryService) (id : String) (recall : Recall)
      → Reachable platform s
      → lookup id s.recalls ≡ some recall
      → IsHonoured s.batches recall
  initiated_recalls_hold_their_batches s id recall history = all-IsHonoured s history id recall

  chains_are_verified : (s : MemoryService) → Reachable platform s → HasVerifiedChains platform s
  chains_are_verified s Reachable.start = no_chains
  chains_are_verified s (Reachable.next {s = s0} c before fresh) =
      run-HasVerifiedChains platform c s0 fresh (chains_are_verified s0 before)

  -- In every service that calls lead to, VerifyEvidenceChain finds no fault with the chain of any
  -- subject that exists, for any context that is not done and whatever the digest function.
  pub evidence_chains_verify :
      (s : MemoryService) (env : Env) (subject : EvidenceSubject)
      → Reachable platform s
      → check_context env.context ≡ none
      → subject_exists s subject ≡ true
      → verify_evidence_chain platform env subject s ≡ none
  unfolding verify_evidence_chain refuse
  evidence_chains_verify s env subject history in_time exists =
      ground (arith, in_time, exists, chains_are_verified s history (subject_key subject))

  no_qualifications : Each (λ _. IsInspected) new_memory_service.qualifications
  unfolding new_memory_service lookup
  no_qualifications id q found = ground arith

  all-IsInspected :
      (s : MemoryService) → Reachable platform s → Each (λ _. IsInspected) s.qualifications
  all-IsInspected s Reachable.start = no_qualifications
  all-IsInspected s (Reachable.next {s = s0} c before fresh) =
      run-StillInspected platform c s0 (all-IsInspected s0 before)

  -- In every service that calls lead to, an APPROVED qualification has a site inspection that PASSED.
  pub approved_qualifications_were_inspected :
      (s : MemoryService) (id : String) (q : MerchantQualification)
      → Reachable platform s
      → lookup id s.qualifications ≡ some q
      → q.status ≡ QualificationStatus.approved
      → has_passed q.site_inspection ≡ true
  unfolding is_approved_qualification
  approved_qualifications_were_inspected s id q history found approved =
      elim (all-IsInspected s history id q found) [
        | inl unapproved ↦ ground (arith, approved, unapproved)
        | inr passed ↦ passed
      ]
