-- ===== src/Safety/Memory/Qualifications.antt =====
-- backend-go/internal/safety/memory.go: qualifications.
pub mod Inspected
use chihuo.Base.{
  ℕ, suc, ◌+◌, String, Bool, true, false, not, ◌&&◌, ◌||◌, Option, none, some, List, [], ◌∷◌, ◌++◌,
  if◌then◌else◌, then_check,
}
use chihuo.Base.Text.{trim_space}
use chihuo.Base.Dict.{lookup, insert}
use chihuo.Domain.{Time}
use chihuo.Safety.Status.{QualificationStatus}
use chihuo.Safety.Transitions.{can_transition_qualification}
use chihuo.Safety.Kinds.{SiteInspectionResult, EvidenceSubjectType, valid_inspection_result}
use chihuo.Safety.Model.{
  QualificationDocument, QualificationReview, SiteInspection, MerchantQualification,
}
use chihuo.Safety.Inputs.{
  CreateQualificationInput, SubmitQualificationInput, ReviewQualificationInput, SiteInspectionInput,
}
use chihuo.Safety.Errors.{
  Error, invalid_state, invalid_transition, field_error, refuse, check_context,
}
use chihuo.Safety.Platform.{Platform}
use chihuo.Safety.Validation.{
  blank, is_zero, is_after, is_approved_qualification, validate_qualification,
  validate_for_submission,
}
use chihuo.Safety.Memory.{
  MemoryService, Env, Answer, answer, fail, unless_error, if_found, guarded, append_unique,
  append_status_change, validate_evidence_refs,
}

-- The loop over qualification.Documents, from index i; document i draws the id i + 1.
unfoldable pub fill_documents :
    (ℕ → String) → Time → String → ℕ → List QualificationDocument → List QualificationDocument
unfolding blank is_zero trim_space
fill_documents new_id now created_by i [] = []
fill_documents new_id now created_by i (d ∷ ds) =
    record d {
      id = if blank d.id then new_id (i + 1) else d.id;
      uploaded_at = if is_zero d.uploaded_at then now else d.uploaded_at;
      uploaded_by = if blank d.uploaded_by then trim_space created_by else d.uploaded_by;
    }
    ∷ fill_documents new_id now created_by (suc i) ds

-- The qualification that CreateQualification builds.
unfoldable pub drafted_qualification : Env → CreateQualificationInput → MerchantQualification
unfolding trim_space fill_documents
drafted_qualification env input =
    let now = env.clock 0 in
    record {
      id = env.new_id 0;
      merchant_id = trim_space input.merchant_id;
      legal_entity_name = trim_space input.legal_entity_name;
      store_name = trim_space input.store_name;
      business_license_number = trim_space input.business_license_number;
      food_permit_number = trim_space input.food_permit_number;
      registered_address = trim_space input.registered_address;
      operating_address = trim_space input.operating_address;
      business_license_issued_at = input.business_license_issued_at;
      business_license_expires_at = input.business_license_expires_at;
      food_permit_issued_at = input.food_permit_issued_at;
      food_permit_expires_at = input.food_permit_expires_at;
      business_scope = input.business_scope;
      documents = fill_documents env.new_id now input.created_by 0 input.documents;
      status = QualificationStatus.draft;
      site_inspection = none;
      review_history = [];
      status_history = [];
      evidence_ids = [];
      submitted_at = none;
      reviewed_at = none;
      created_at = now;
      updated_at = now;
    }

-- s.qualifications[id] = qualification
unfoldable pub put_qualification :
    String → MerchantQualification → MemoryService → Answer MerchantQualification
unfolding insert
put_qualification id q s = answer q (record s { qualifications = insert id q s.qualifications })

-- GetQualification
unfoldable pub get_qualification : Env → String → MemoryService → Answer MerchantQualification
unfolding check_context unless_error if_found lookup
get_qualification env id s =
    unless_error (check_context env.context) s
      (if_found (lookup id s.qualifications) s (λ q. answer q s))

-- The qualification after SubmitQualification.
unfoldable pub submitted :
    Env → SubmitQualificationInput → MerchantQualification → MerchantQualification
unfolding append_unique append_status_change
submitted env input q =
    let now = env.clock 1 in
    record q {
      status = QualificationStatus.pending_review;
      submitted_at = some now;
      updated_at = now;
      evidence_ids = append_unique q.evidence_ids input.evidence_ids;
      status_history =
          append_status_change q.status_history q.status QualificationStatus.pending_review
            input.actor_id "submitted" now;
    }

-- input.Status != QualificationApproved && input.Status != QualificationRejected, negated
unfoldable pub is_review : QualificationStatus → Bool
is_review QualificationStatus.approved = true
is_review QualificationStatus.rejected = true
is_review _ = false

-- status == QualificationRejected
unfoldable pub is_rejected : QualificationStatus → Bool
is_rejected QualificationStatus.rejected = true
is_rejected _ = false

-- status == QualificationPendingReview
unfoldable pub is_pending : QualificationStatus → Bool
is_pending QualificationStatus.pending_review = true
is_pending _ = false

-- q.SiteInspection != nil && q.SiteInspection.Result == SiteInspectionPassed
unfoldable pub has_passed : Option SiteInspection → Bool
has_passed none = false
has_passed (some inspection) = elim inspection.result [
  | SiteInspectionResult.passed ↦ true
  | _ ↦ false
]

-- The checks of ReviewQualification on the qualification found.
unfoldable pub review_refusal :
    Env → String → ReviewQualificationInput → MemoryService → MerchantQualification → Option Error
unfolding refuse is_pending is_approved_qualification has_passed is_after validate_evidence_refs
review_refusal env id input s q =
    let now = env.clock 0 in
    then_check (refuse (not (is_pending q.status)) invalid_transition) (
      then_check (validate_evidence_refs s EvidenceSubjectType.qualification id input.evidence_ids)
        (then_check
          (refuse (is_approved_qualification input.status && not (has_passed q.site_inspection))
            invalid_state)
          (refuse
            (is_approved_qualification input.status
              && (not (is_after q.business_license_expires_at now)
                  || not (is_after q.food_permit_expires_at now)))
            invalid_state)))

-- The qualification after ReviewQualification.
unfoldable pub reviewed :
    Env → String → ReviewQualificationInput → MerchantQualification → MerchantQualification
unfolding append_unique append_status_change trim_space
reviewed env id input q =
    let now = env.clock 0 in
    record q {
      status = input.status;
      reviewed_at = some now;
      updated_at = now;
      evidence_ids = append_unique q.evidence_ids input.evidence_ids;
      review_history =
          q.review_history
          ++ (record {
            id = env.new_id 0;
            qualification_id = id;
            reviewer_id = input.reviewer_id;
            from_status = q.status;
            to_status = input.status;
            reason = trim_space input.reason;
            evidence_ids = input.evidence_ids;
            reviewed_at = now;
          }
              ∷ []);
      status_history =
          append_status_change q.status_history q.status input.status input.reviewer_id input.reason
            now;
    }

-- ReviewQualification
unfoldable pub review_qualification :
    Env → String → ReviewQualificationInput → MemoryService → Answer MerchantQualification
unfolding guarded check_context refuse blank is_review is_rejected lookup review_refusal reviewed
    put_qualification
review_qualification env id input s =
    guarded
      (then_check (check_context env.context) (
        then_check (refuse (blank input.reviewer_id) (field_error "reviewer_id" "is required")) (
          then_check
            (refuse (not (is_review input.status))
              (field_error "status" "must be APPROVED or REJECTED"))
            (refuse (is_rejected input.status && blank input.reason)
              (field_error "reason" "is required when rejecting")))))
      (lookup id s.qualifications) (review_refusal env id input s) s
      (λ q. put_qualification id (reviewed env id input q) s)

-- q.Status == QualificationDraft || q.Status == QualificationPendingReview
unfoldable pub is_inspectable : QualificationStatus → Bool
is_inspectable QualificationStatus.draft = true
is_inspectable QualificationStatus.pending_review = true
is_inspectable _ = false

-- The checks of RecordSiteInspection on the qualification found.
unfoldable pub inspection_refusal :
    String → SiteInspectionInput → MemoryService → MerchantQualification → Option Error
unfolding refuse is_inspectable validate_evidence_refs
inspection_refusal id input s q =
    then_check (refuse (not (is_inspectable q.status)) invalid_state)
      (validate_evidence_refs s EvidenceSubjectType.qualification id input.evidence_ids)

-- The qualification after RecordSiteInspection.
unfoldable pub inspected :
    Env → String → SiteInspectionInput → MerchantQualification → MerchantQualification
unfolding append_unique is_zero trim_space
inspected env id input q =
    let now = env.clock 0 in
    record q {
      site_inspection = some (record {
        id = env.new_id 0;
        qualification_id = id;
        inspector_id = input.inspector_id;
        result = input.result;
        notes = trim_space input.notes;
        evidence_ids = input.evidence_ids;
        inspected_at = if is_zero input.inspected_at then now else input.inspected_at;
      });
      evidence_ids = append_unique q.evidence_ids input.evidence_ids;
      updated_at = now;
    }

-- RecordSiteInspection
unfoldable pub record_site_inspection :
    Env → String → SiteInspectionInput → MemoryService → Answer MerchantQualification
unfolding guarded check_context refuse blank valid_inspection_result lookup inspection_refusal
    inspected put_qualification
record_site_inspection env id input s =
    guarded
      (then_check (check_context env.context) (
        then_check (refuse (blank input.inspector_id) (field_error "inspector_id" "is required")) (
          refuse (not (valid_inspection_result input.result)) (field_error "result" "is invalid"))))
      (lookup id s.qualifications) (inspection_refusal id input s) s
      (λ q. put_qualification id (inspected env id input q) s)

module _ (platform : Platform) where
  -- CreateQualification
  unfoldable pub create_qualification :
      Env → CreateQualificationInput → MemoryService → Answer MerchantQualification
  unfolding unless_error check_context drafted_qualification validate_qualification
      put_qualification
  create_qualification env input s =
      let q = drafted_qualification env input in
      unless_error
        (then_check (check_context env.context) (validate_qualification platform q (env.clock 0))) s
        (put_qualification q.id q s)

  -- SubmitQualification
  unfoldable pub submit_qualification :
      Env → String → SubmitQualificationInput → MemoryService → Answer MerchantQualification
  unfolding guarded check_context refuse blank lookup can_transition_qualification
      validate_for_submission validate_evidence_refs submitted put_qualification
  submit_qualification env id input s =
      guarded
        (then_check (check_context env.context)
          (refuse (blank input.actor_id) (field_error "actor_id" "is required")))
        (lookup id s.qualifications)
        (λ q.
          then_check
            (refuse (not (can_transition_qualification q.status QualificationStatus.pending_review))
              invalid_transition)
            (then_check (validate_for_submission platform q (env.clock 0))
              (validate_evidence_refs s EvidenceSubjectType.qualification id input.evidence_ids)))
        s (λ q. put_qualification id (submitted env input q) s)
