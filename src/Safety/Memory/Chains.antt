-- ===== src/Safety/Memory/Chains.antt =====
-- backend-go/internal/safety/memory.go: evidence and the chains that link it by hashes.
pub mod Integrity
pub mod Calls
use Prim.Native.String.{◌++◌ as str_append}
use chihuo.Base.{
  ℕ, suc, ◌+◌, ◌%◌, ◌^◌, String, Bool, true, false, not, ◌||◌, Option, none, some, List, [], ◌∷◌,
  ◌++◌, str_eq, is_nil, if◌then◌else◌, then_check, length, ◌==◌,
}
use chihuo.Base.Text.{trim_space}
use chihuo.Base.Dict.{Dict, lookup, get_or, insert}
use chihuo.Domain.{Time}
use chihuo.Safety.Kinds.{EvidenceSubjectType, text_subject_type, parse_subject_type}
use chihuo.Safety.Model.{EvidenceSubject, Evidence}
use chihuo.Safety.Zero.{
  zero_qualification, zero_batch, zero_incident, zero_recall, zero_disposition, zero_evidence,
}
use chihuo.Safety.Inputs.{AddEvidenceInput}
use chihuo.Safety.Errors.{Error, not_found, conflict, field_error, refuse, check_context}
use chihuo.Safety.Platform.{Platform}
use chihuo.Safety.Validation.{is_zero, validate_evidence, evidence_hash}
use chihuo.Safety.Memory.{MemoryService, Env, Answer, answer, fail, unless_error, append_unique}

-- subjectKey
unfoldable pub subject_key : EvidenceSubject → String
unfolding text_subject_type
subject_key subject = str_append (text_subject_type subject.kind_of) (str_append ":" subject.id)

-- subjectExistsLocked
unfoldable pub subject_exists : MemoryService → EvidenceSubject → Bool
unfolding lookup
subject_exists s subject = elim subject.kind_of [
  | EvidenceSubjectType.qualification ↦ not (is_nil (lookup subject.id s.qualifications))
  | EvidenceSubjectType.batch ↦ not (is_nil (lookup subject.id s.batches))
  | EvidenceSubjectType.incident ↦ not (is_nil (lookup subject.id s.incidents))
  | EvidenceSubjectType.recall ↦ not (is_nil (lookup subject.id s.recalls))
  | EvidenceSubjectType.disposition ↦ not (is_nil (lookup subject.id s.dispositions))
  | EvidenceSubjectType.other text ↦ false
]

-- appendEvidenceLinkLocked: its error and the service after it; `now` is the time that it reads
unfoldable pub append_evidence_link :
    Time → EvidenceSubject → String → MemoryService → Option Error × MemoryService
unfolding get_or insert append_unique zero_qualification zero_batch zero_incident zero_recall
    zero_disposition
append_evidence_link now subject evidence_id s =
    let q = get_or zero_qualification subject.id s.qualifications in
    let batch = get_or zero_batch subject.id s.batches in
    let incident = get_or zero_incident subject.id s.incidents in
    let recall = get_or zero_recall subject.id s.recalls in
    let disposition = get_or zero_disposition subject.id s.dispositions in
    let linked = λ (ids : List String). append_unique ids (evidence_id ∷ []) in
    elim subject.kind_of [
      | EvidenceSubjectType.qualification ↦
          let q' = record q { evidence_ids = linked q.evidence_ids; updated_at = now } in
          (none, record s { qualifications = insert subject.id q' s.qualifications })
      | EvidenceSubjectType.batch ↦
          let batch' = record batch {
            evidence_ids = linked batch.evidence_ids;
            updated_at = now;
          } in
          (none, record s { batches = insert subject.id batch' s.batches })
      | EvidenceSubjectType.incident ↦
          let incident' = record incident {
            evidence_ids = linked incident.evidence_ids;
            updated_at = now;
          } in
          (none, record s { incidents = insert subject.id incident' s.incidents })
      | EvidenceSubjectType.recall ↦
          let recall' = record recall {
            evidence_ids = linked recall.evidence_ids;
            updated_at = now;
          } in
          (none, record s { recalls = insert subject.id recall' s.recalls })
      | EvidenceSubjectType.disposition ↦
          let disposition' = record disposition {
            evidence_ids = linked disposition.evidence_ids;
            updated_at = now;
          } in
          (none, record s { dispositions = insert subject.id disposition' s.dispositions })
      | EvidenceSubjectType.other text ↦ (some (field_error "subject.type" "is invalid"), s)
    ]

-- The last element of a list of ids, or the one given.
unfoldable pub last_id : String → List String → String
last_id id [] = id
last_id id (next ∷ ids) = last_id next ids

-- if len(chain) > 0 { evidence.PreviousHash = s.evidence[chain[len(chain)-1]].Hash }
unfoldable pub previous_hash_of : Dict Evidence → List String → String
unfolding get_or zero_evidence last_id
previous_hash_of evidence [] = ""
previous_hash_of evidence (id ∷ ids) = (get_or zero_evidence (last_id id ids) evidence).hash

-- The subject that AddEvidence works with.
unfoldable pub trimmed_subject : EvidenceSubject → EvidenceSubject
unfolding trim_space text_subject_type parse_subject_type
trimmed_subject subject = record {
  kind_of = parse_subject_type (trim_space (text_subject_type subject.kind_of));
  id = trim_space subject.id;
}

-- The service once the evidence and its chain are written.
unfoldable pub written : EvidenceSubject → Evidence → List String → MemoryService → MemoryService
unfolding insert subject_key
written subject e chain s = record s {
  evidence = insert e.id e s.evidence;
  evidence_chains = insert (subject_key subject) (chain ++ (e.id ∷ [])) s.evidence_chains;
}

module _ (platform : Platform) where
  -- The evidence that AddEvidence appends to a chain, its hash not yet set.
  unfoldable pub linked_evidence :
      Env → EvidenceSubject → AddEvidenceInput → Dict Evidence → List String → Evidence
  unfolding trim_space is_zero previous_hash_of
  linked_evidence env subject input evidence chain = record {
    id = env.new_id 0;
    subject = subject;
    sequence = (length chain + 1) % 2 ^ 64;
    previous_hash = previous_hash_of evidence chain;
    hash = "";
    kind = input.kind;
    uri = trim_space input.uri;
    sha256 = platform.to_lower (trim_space input.sha256);
    mime_type = trim_space input.mime_type;
    captured_by = trim_space input.captured_by;
    captured_at = if is_zero input.captured_at then env.clock 0 else input.captured_at;
    description = trim_space input.description;
    metadata = input.metadata;
    created_at = env.clock 0;
  }

  -- evidence.Hash = evidenceHash(evidence)
  unfoldable pub hashed : Evidence → Evidence
  unfolding evidence_hash
  hashed e = record e { hash = evidence_hash platform e }

  -- The writes of AddEvidence.
  unfoldable pub store_evidence :
      Env → EvidenceSubject → Evidence → List String → MemoryService → Answer Evidence
  unfolding written append_evidence_link unless_error
  store_evidence env subject e chain s =
      let linked = append_evidence_link (env.clock 1) subject e.id (written subject e chain s) in
      unless_error linked.0 linked.1 (answer e linked.1)

  -- The checks of AddEvidence.
  unfoldable pub evidence_refusal : Env → EvidenceSubject → Evidence → MemoryService → Option Error
  unfolding check_context refuse subject_exists validate_evidence
  evidence_refusal env subject e s = then_check (check_context env.context) (
      then_check (refuse (not (subject_exists s subject)) not_found) (validate_evidence platform e))

  -- AddEvidence
  unfoldable pub add_evidence :
      Env → EvidenceSubject → AddEvidenceInput → MemoryService → Answer Evidence
  unfolding unless_error subject_key get_or trimmed_subject linked_evidence hashed evidence_refusal
      store_evidence
  add_evidence env named input s =
      let subject = trimmed_subject named in
      let chain = get_or [] (subject_key subject) s.evidence_chains in
      let e = hashed (linked_evidence env subject input s.evidence chain) in
      unless_error (evidence_refusal env subject e s) s (store_evidence env subject e chain s)

  -- The loop of VerifyEvidenceChain, from an index and the hash before it.
  unfoldable pub verify_from : Dict Evidence → ℕ → String → List String → Option Error
  unfolding lookup evidence_hash
  verify_from evidence i previous [] = none
  verify_from evidence i previous (id ∷ ids) = elim (lookup id evidence) [
    | none ↦ some conflict
    | some e ↦
        if not (e.sequence == (i + 1) % 2 ^ 64)
          || not (str_eq e.previous_hash previous)
          || not (str_eq e.hash (evidence_hash platform e))
        then some conflict
        else verify_from evidence (suc i) e.hash ids
  ]

  -- VerifyEvidenceChain
  unfoldable pub verify_evidence_chain : Env → EvidenceSubject → MemoryService → Option Error
  unfolding check_context refuse subject_exists get_or subject_key verify_from
  verify_evidence_chain env subject s = then_check (check_context env.context) (
      then_check (refuse (not (subject_exists s subject)) not_found)
        (verify_from s.evidence 0 "" (get_or [] (subject_key subject) s.evidence_chains)))

-- The loop of ListEvidence.
unfoldable pub evidence_of : Dict Evidence → List String → List Evidence
unfolding get_or zero_evidence
evidence_of evidence [] = []
evidence_of evidence (id ∷ ids) = get_or zero_evidence id evidence ∷ evidence_of evidence ids

-- ListEvidence
unfoldable pub list_evidence : Env → EvidenceSubject → MemoryService → Answer (List Evidence)
unfolding unless_error check_context refuse subject_exists evidence_of get_or subject_key
list_evidence env subject s =
    unless_error
      (then_check (check_context env.context) (refuse (not (subject_exists s subject)) not_found)) s
      (answer (evidence_of s.evidence (get_or [] (subject_key subject) s.evidence_chains)) s)
