-- ===== src/Safety/Validation.antt =====
-- backend-go/internal/safety/validation.go: qualifications, evidence and what they share.
pub mod Resources
pub mod Reports
use Prim.Native.Char.{Char, code}
use Prim.Native.String.{◌++◌ as str_append}
use chihuo.Base.{
  ℕ, zero, suc, ◌+◌, String, Bool, true, false, not, ◌&&◌, ◌||◌, Option, none, some, List, [], ◌∷◌,
  ◌++◌, str_eq, is_nil, if◌then◌else◌, ltb, leb, ◌==◌, then_check,
}
use chihuo.Base.Text.{trim_space, is_empty, decimal}
use chihuo.Base.Dict.{Dict}
use chihuo.Domain.{Time}
use chihuo.Safety.Status.{QualificationStatus}
use chihuo.Safety.Kinds.{
  QualificationDocumentKind, valid_document_kind, valid_inspection_result, valid_subject_type,
  valid_evidence_kind, valid_qualification,
}
use chihuo.Safety.Model.{
  QualificationDocument, SiteInspection, MerchantQualification, EvidenceSubject, Evidence,
}
use chihuo.Safety.Errors.{Error, FieldError, flag, report}
use chihuo.Safety.Platform.{Platform, EvidencePayload}

-- strings.TrimSpace(text) == ""
unfoldable pub blank : String → Bool
unfolding trim_space
blank text = is_empty (trim_space text)

-- t.IsZero()
unfoldable pub is_zero : Time → Bool
is_zero t = t == 0

-- t.After(u)
unfoldable pub is_after : Time → Time → Bool
is_after t u = ltb u t

-- [a-fA-F0-9]
unfoldable pub is_hex : Char → Bool
is_hex c =
    let n = code c in (leb 97 n && leb n 102) || (leb 65 n && leb n 70) || (leb 48 n && leb n 57)

-- A string of exactly n hexadecimal characters.
unfoldable pub hex_of_length : ℕ → String → Bool
unfolding is_hex
hex_of_length zero String.[] = true
hex_of_length zero (String.◌∷◌ c s) = false
hex_of_length (suc n) String.[] = false
hex_of_length (suc n) (String.◌∷◌ c s) = is_hex c && hex_of_length n s

-- sha256Pattern.MatchString
unfoldable pub is_sha256 : String → Bool
unfolding hex_of_length
is_sha256 text = hex_of_length 64 text

-- prefix := fmt.Sprintf("name[%d]", i)
unfoldable pub indexed : String → ℕ → String
indexed name i = str_append name (str_append "[" (str_append (decimal i) "]"))

-- Whether a list holds a document of a kind: what documentKinds records.
is_business_license : QualificationDocumentKind → Bool
is_business_license QualificationDocumentKind.business_license = true
is_business_license _ = false

is_food_permit : QualificationDocumentKind → Bool
is_food_permit QualificationDocumentKind.food_permit = true
is_food_permit _ = false

unfoldable pub any_document : (QualificationDocumentKind → Bool) → List QualificationDocument → Bool
any_document test [] = false
any_document test (d ∷ ds) = test d.kind || any_document test ds

-- q.Status == QualificationApproved
unfoldable pub is_approved_qualification : QualificationStatus → Bool
is_approved_qualification QualificationStatus.approved = true
is_approved_qualification _ = false

-- The fields of ValidateQualificationForSubmission's map `required`.
unfoldable pub required_fields : MerchantQualification → Dict String
required_fields q =
    ("legal_entity_name", q.legal_entity_name)
    ∷ ("store_name", q.store_name)
    ∷ ("business_license_number", q.business_license_number)
    ∷ ("food_permit_number", q.food_permit_number)
    ∷ ("registered_address", q.registered_address)
    ∷ ("operating_address", q.operating_address)
    ∷ []

-- A field error for each blank value of a map, in the order visited, its name behind a prefix.
unfoldable pub blank_fields : String → String → Dict String → List FieldError
unfolding blank flag
blank_fields prefix text [] = []
blank_fields prefix text ((name, value) ∷ rest) =
    flag (blank value) (str_append prefix name) text ++ blank_fields prefix text rest

module _ (platform : Platform) where
  -- validateEvidencePayload, its error by its text
  unfoldable pub validate_evidence_payload : String → String → Option String
  unfolding blank is_sha256
  validate_evidence_payload uri hash =
      if blank uri then some "uri is required" else elim (platform.scheme uri) [
        | none ↦ some "uri must include a scheme"
        | some scheme ↦
            if is_empty scheme
            then some "uri must include a scheme"
            else if is_sha256 hash
            then none
            else some "sha256 must be a SHA-256 hex digest"
      ]

  -- if err := validateEvidencePayload(uri, hash); err != nil { fields = append(fields, …) }
  unfoldable pub payload_fields : String → String → String → List FieldError
  unfolding validate_evidence_payload
  payload_fields name uri hash = elim (validate_evidence_payload uri hash) [
    | none ↦ []
    | some text ↦ record { field = name; message = text } ∷ []
  ]

  -- The loop over q.Documents, from index i.
  unfoldable pub document_fields : ℕ → List QualificationDocument → List FieldError
  unfolding blank flag indexed payload_fields valid_document_kind
  document_fields i [] = []
  document_fields i (d ∷ ds) =
      let prefix = indexed "documents" i in
      flag (blank d.id) (str_append prefix ".id") "is required"
      ++ flag (not (valid_document_kind d.kind)) (str_append prefix ".kind") "is invalid"
      ++ payload_fields prefix d.uri d.sha256
      ++ document_fields (suc i) ds

  unfoldable pub inspection_fields : String → Option SiteInspection → List FieldError
  unfolding flag valid_inspection_result
  inspection_fields id none = []
  inspection_fields id (some inspection) =
      flag (not (str_eq inspection.qualification_id id)) "site_inspection.qualification_id"
        "must match qualification id"
      ++ flag (not (valid_inspection_result inspection.result)) "site_inspection.result"
          "is invalid"

  -- ValidateQualification
  unfoldable pub validate_qualification : MerchantQualification → Time → Option Error
  unfolding blank flag report is_zero is_after is_approved_qualification document_fields
      inspection_fields valid_qualification
  validate_qualification q now =
      let issued = q.business_license_issued_at in
      let expires = q.business_license_expires_at in
      let permitted = q.food_permit_issued_at in
      let lapses = q.food_permit_expires_at in
      report (
        flag (blank q.id) "id" "is required"
        ++ flag (blank q.merchant_id) "merchant_id" "is required"
        ++ flag (not (valid_qualification q.status)) "status" "is invalid"
        ++ flag (is_zero issued || is_zero expires || not (is_after expires issued))
            "business_license_dates" "issue and expiry dates are invalid"
        ++ flag (is_zero permitted || is_zero lapses || not (is_after lapses permitted))
            "food_permit_dates" "issue and expiry dates are invalid"
        ++ flag (is_approved_qualification q.status && not (is_after expires now))
            "business_license_expires_at" "must be in the future for an approved qualification"
        ++ flag (is_approved_qualification q.status && not (is_after lapses now))
            "food_permit_expires_at" "must be in the future for an approved qualification"
        ++ document_fields 0 q.documents
        ++ inspection_fields q.id q.site_inspection)

  -- ValidateQualificationForSubmission
  unfoldable pub validate_for_submission : MerchantQualification → Time → Option Error
  unfolding flag report is_after any_document is_business_license is_food_permit required_fields
      blank_fields validate_qualification
  validate_for_submission q now = then_check (validate_qualification q now) (
      report (
        blank_fields "" "is required before submission" (platform.visit (required_fields q))
        ++ flag (not (is_after q.business_license_expires_at now)) "business_license_expires_at"
            "must be in the future"
        ++ flag (not (is_after q.food_permit_expires_at now)) "food_permit_expires_at"
            "must be in the future"
        ++ flag (not (any_document is_business_license q.documents)) "documents"
            "business license document is required"
        ++ flag (not (any_document is_food_permit q.documents)) "documents"
            "food permit document is required"))

  -- ValidateEvidence
  unfoldable pub validate_evidence : Evidence → Option Error
  unfolding blank flag report is_zero is_sha256 payload_fields valid_subject_type
      valid_evidence_kind
  validate_evidence e = report (
      flag (blank e.id || blank e.subject.id) "identity" "id and subject id are required"
      ++ flag (not (valid_subject_type e.subject.kind_of)) "subject.type" "is invalid"
      ++ flag (not (valid_evidence_kind e.kind)) "kind" "is invalid"
      ++ payload_fields "payload" e.uri e.sha256
      ++ flag (blank e.captured_by || is_zero e.captured_at) "capture"
          "captured_by and captured_at are required"
      ++ flag (e.sequence == 0) "sequence" "must start at one"
      ++ flag (not (is_sha256 e.hash)) "hash" "must be a SHA-256 hex digest"
      ++ flag (e.sequence == 1 && not (is_empty e.previous_hash)) "previous_hash"
          "must be empty for the first evidence record"
      ++ flag (ltb 1 e.sequence && not (is_sha256 e.previous_hash)) "previous_hash"
          "must be a SHA-256 hex digest after the first record")

  -- evidenceHash
  unfoldable pub evidence_hash : Evidence → String
  evidence_hash e = platform.digest (record {
    subject = e.subject;
    sequence = e.sequence;
    previous_hash = e.previous_hash;
    kind = e.kind;
    uri = e.uri;
    sha256 = platform.to_lower e.sha256;
    mime_type = e.mime_type;
    captured_by = e.captured_by;
    captured_at = platform.format e.captured_at;
    description = e.description;
    metadata = e.metadata;
  })
