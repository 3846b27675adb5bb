-- ===== src/Safety/Memory.antt =====
-- backend-go/internal/safety/memory.go: the state of the in-memory service and what its operations
-- share. An operation holds the service's lock from its first look at the state, so it is one step:
-- it takes the ids that `newID` draws and the times that the clock reads as arguments, and returns
-- its result and the service afterwards. Values have no aliases, so a clone is the value.
pub mod Qualifications
pub mod Batches
pub mod Incidents
pub mod Recalls
pub mod Dispositions
pub mod Chains
pub mod Lists
pub mod Cases
pub mod Lifecycle
pub mod Containment
pub mod Recalled
pub mod History
pub mod Calls
pub mod Atomicity
use chihuo.Base.{
  ℕ, String, Bool, true, false, not, ◌&&◌, ◌||◌, Option, none, some, List, [], ◌∷◌, ◌++◌, str_eq,
  Result, ok, err, if◌then◌else◌, then_check, ltb, ◌≡◌, refl,
}
use chihuo.Base.Text.{trim_space, is_empty}
use chihuo.Base.Dict.{Dict, lookup}
use chihuo.Domain.{Time}
use chihuo.Safety.Kinds.{EvidenceSubjectType, text_subject_type}
use chihuo.Safety.Model.{
  StatusChange, MerchantQualification, FoodBatch, FoodSafetyIncident, Recall, Disposition,
  EvidenceSubject, Evidence,
}
use chihuo.Safety.Errors.{Error, not_found, conflict, Context}

pub record MemoryService : Type 0 where
  pub qualifications : Dict MerchantQualification
  pub batches : Dict FoodBatch
  pub incidents : Dict FoodSafetyIncident
  pub recalls : Dict Recall
  pub dispositions : Dict Disposition
  pub evidence : Dict Evidence
  pub evidence_chains : Dict (List String)
  pub order_batch : Dict String

-- NewMemoryServiceWithClock
unfoldable pub new_memory_service : MemoryService
new_memory_service = record {
  qualifications = [];
  batches = [];
  incidents = [];
  recalls = [];
  dispositions = [];
  evidence = [];
  evidence_chains = [];
  order_batch = [];
}

-- What a call takes besides its input: its context, the times that it reads from the clock, by their
-- places in the code, and the ids that it draws.
pub record Env : Type 0 where
  pub context : Context
  pub clock : ℕ → Time
  pub new_id : ℕ → String

abbrev pub Answer : Type 0 → Type 0
Answer A = Result Error A × MemoryService

abbrev pub answer : {A : Type 0} → A → MemoryService → Answer A
answer a s = (ok a, s)

abbrev pub fail : {A : Type 0} → Error → MemoryService → Answer A
fail e s = (err e, s)

-- `if err := …; err != nil { return err }`, and then the rest.
unfoldable pub unless_error : {A : Type 0} → Option Error → MemoryService → Answer A → Answer A
unless_error none s rest = rest
unless_error (some e) s rest = fail e s

-- `v, ok := m[id]; if !ok { return ErrNotFound }`, and then the rest.
unfoldable pub if_found : {V A : Type 0} → Option V → MemoryService → (V → Answer A) → Answer A
if_found none s rest = fail not_found s
if_found (some v) s rest = rest v

-- Checks, a lookup, checks on what was found, and then the rest: the outline of an update.
unfoldable pub guarded :
    {V A : Type 0}
    → Option Error
    → Option V
    → (V → Option Error)
    → MemoryService
    → (V → Answer A)
    → Answer A
unfolding unless_error if_found
guarded before found refusal s rest =
    unless_error before s (if_found found s (λ v. unless_error (refusal v) s (rest v)))

-- A property of both ends of a check is one of the checked operation.
pub unless_error_cases {κ} :
    {A : Type 0} (P : Answer A → Type κ) (o : Option Error) (s : MemoryService) (rest : Answer A)
    → ((e : Error) → P (fail e s))
    → (o ≡ none → P rest)
    → P (unless_error o s rest)
unfolding unless_error
unless_error_cases P none s rest failed passed = passed refl
unless_error_cases P (some e) s rest failed passed = failed e

pub if_found_cases {κ} :
    {V A : Type 0} (P : Answer A → Type κ) (o : Option V) (s : MemoryService) (rest : V → Answer A)
    → ((e : Error) → P (fail e s))
    → ((v : V) → o ≡ some v → P (rest v))
    → P (if_found o s rest)
unfolding if_found
if_found_cases P none s rest failed passed = failed not_found
if_found_cases P (some v) s rest failed passed = passed v refl

-- An update either fails and returns the service as it was, or passes all its checks.
pub guarded_cases {κ} :
    {V A : Type 0} (P : Answer A → Type κ) (before : Option Error) (found : Option V)
    (refusal : V → Option Error) (s : MemoryService) (rest : V → Answer A)
    → ((e : Error) → P (fail e s))
    → ((v : V) → before ≡ none → found ≡ some v → refusal v ≡ none → P (rest v))
    → P (guarded before found refusal s rest)
unfolding guarded
guarded_cases P before found refusal s rest failed passed =
    unless_error_cases P before s _ failed (λ b.
      if_found_cases P found s _ failed
        (λ v f. unless_error_cases P (refusal v) s _ failed (λ r. passed v b f r)))

-- containsString
unfoldable pub contains_string : List String → String → Bool
contains_string [] target = false
contains_string (value ∷ values) target = str_eq value target || contains_string values target

-- The loop of uniqueStrings; `seen` holds the strings kept so far.
unfoldable pub unique_from : List String → List String → List String
unfolding trim_space contains_string
unique_from seen [] = []
unique_from seen (value ∷ values) =
    let text = trim_space value in
    let skipped = unique_from seen values in
    let kept = unique_from (text ∷ seen) values in
    if is_empty text then skipped else if contains_string seen text then skipped else text ∷ kept

-- uniqueStrings
unfoldable pub unique_strings : List String → List String
unfolding unique_from
unique_strings values = unique_from [] values

-- appendUnique
unfoldable pub append_unique : List String → List String → List String
unfolding unique_strings
append_unique values additions = unique_strings (values ++ additions)

-- appendStatusChange, as the history afterwards
unfoldable pub append_status_change :
    {S : Type 0} → List (StatusChange S) → S → S → String → String → Time → List (StatusChange S)
unfolding trim_space
append_status_change history before after actor_id reason at =
    history
    ++ (record {
      from = before;
      to = after;
      actor_id = actor_id;
      reason = trim_space reason;
      at = at;
    }
        ∷ [])

-- evidence.Subject != subject, negated
unfoldable pub same_subject : EvidenceSubject → EvidenceSubject → Bool
unfolding text_subject_type
same_subject a b =
    str_eq (text_subject_type a.kind_of) (text_subject_type b.kind_of) && str_eq a.id b.id

-- The loop of validateEvidenceRefsLocked.
unfoldable pub check_refs : Dict Evidence → EvidenceSubject → List String → Option Error
unfolding lookup same_subject
check_refs evidence subject [] = none
check_refs evidence subject (id ∷ ids) = elim (lookup id evidence) [
  | none ↦ some not_found
  | some e ↦
      if same_subject e.subject subject then check_refs evidence subject ids else some conflict
]

-- validateEvidenceRefsLocked
unfoldable pub validate_evidence_refs :
    MemoryService → EvidenceSubjectType → String → List String → Option Error
unfolding check_refs unique_strings
validate_evidence_refs s kind id ids =
    check_refs s.evidence (record { kind_of = kind; id = id }) (unique_strings ids)
