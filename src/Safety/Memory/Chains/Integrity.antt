-- ===== src/Safety/Memory/Chains/Integrity.antt =====
-- The evidence chains stay verifiable as evidence is added.
use chihuo.Base.{
  ℕ, suc, ◌+◌, ◌%◌, ◌^◌, String, some, none, List, [], ◌∷◌, ◌++◌, ◌≡◌, refl, sym, subst, ◌∙◌, ◌⊎◌,
  inl, inr, arith, Option-cases, eq_iff, length,
}
use chihuo.Base.Dict.{Dict, lookup, get_or, insert, lookup-insert, lookup-insert_self}
use chihuo.Safety.Model.{EvidenceSubject, Evidence}
use chihuo.Safety.Zero.{zero_evidence}
use chihuo.Safety.Inputs.{AddEvidenceInput}
use chihuo.Safety.Platform.{Platform}
use chihuo.Safety.Validation.{evidence_hash}
use chihuo.Safety.Memory.{MemoryService, Env}
use chihuo.Safety.Memory.Chains.{
  subject_key, last_id, previous_hash_of, linked_evidence, hashed, written, verify_from,
}

-- The hash that the loop of VerifyEvidenceChain ends with.
last_hash : Dict Evidence → String → List String → String
unfolding get_or
last_hash evidence previous [] = previous
last_hash evidence previous (id ∷ ids) =
    last_hash evidence (get_or zero_evidence id evidence).hash ids

last_hash-last_id :
    (evidence : Dict Evidence) (previous id : String) (ids : List String)
    → last_hash evidence previous (id ∷ ids) ≡ (get_or zero_evidence (last_id id ids) evidence).hash
unfolding last_hash last_id
last_hash-last_id evidence previous id [] = refl
last_hash-last_id evidence previous id (next ∷ ids) =
    last_hash-last_id evidence (get_or zero_evidence id evidence).hash next ids

last_hash-previous :
    (evidence : Dict Evidence) (chain : List String)
    → last_hash evidence "" chain ≡ previous_hash_of evidence chain
unfolding last_hash previous_hash_of
last_hash-previous evidence [] = refl
last_hash-previous evidence (id ∷ ids) = last_hash-last_id evidence "" id ids

get_or-insert :
    (k j : String) (ids : List String) (m : Dict (List String))
    → (get_or [] j (insert k ids m) ≡ ids) ⊎ (get_or [] j (insert k ids m) ≡ get_or [] j m)
unfolding get_or
get_or-insert k j ids m = ground (arith, lookup-insert k j ids m, eq_iff k j)

kept_entry :
    (evidence : Dict Evidence) (new : String) (added : Evidence) (id : String) (e : Evidence)
    → lookup new evidence ≡ none
    → lookup id evidence ≡ some e
    → lookup id (insert new added evidence) ≡ some e
kept_entry evidence new added id e fresh found =
    ground (arith, lookup-insert new id added evidence, eq_iff new id, fresh, found)

module _ (platform : Platform) where
  -- One round of the loop.
  head_facts :
      (evidence : Dict Evidence) (i : ℕ) (previous id : String) (ids : List String) (e : Evidence)
      → lookup id evidence ≡ some e
      → verify_from platform evidence i previous (id ∷ ids) ≡ none
      → (e.sequence ≡ (i + 1) % 2 ^ 64)
        × (e.previous_hash ≡ previous)
        × (e.hash ≡ evidence_hash platform e)
        × (verify_from platform evidence (suc i) e.hash ids ≡ none)
  unfolding verify_from
  head_facts evidence i previous id ids e found h =
      ground
        (arith, found, h, eq_iff e.previous_hash previous, eq_iff e.hash (evidence_hash platform e))

  verify_head :
      (evidence : Dict Evidence) (i : ℕ) (previous id : String) (ids : List String)
      → verify_from platform evidence i previous (id ∷ ids) ≡ none
      → (e : Evidence) × (lookup id evidence ≡ some e)
        × (e.sequence ≡ (i + 1) % 2 ^ 64)
        × (e.previous_hash ≡ previous)
        × (e.hash ≡ evidence_hash platform e)
        × (verify_from platform evidence (suc i) e.hash ids ≡ none)
  verify_head evidence i previous id ids h = elim (Option-cases (lookup id evidence)) [
    | inl missing ↦ unfold verify_from in ground (arith, missing, h)
    | inr (e, found) ↦
        let facts = head_facts evidence i previous id ids e found h in
        (e, found, facts.0, facts.1, facts.2, facts.3)
  ]

  verify_round :
      (evidence : Dict Evidence) (i : ℕ) (previous id : String) (ids : List String) (e : Evidence)
      → lookup id evidence ≡ some e
      → e.sequence ≡ (i + 1) % 2 ^ 64
      → e.previous_hash ≡ previous
      → e.hash ≡ evidence_hash platform e
      → verify_from platform evidence (suc i) e.hash ids ≡ none
      → verify_from platform evidence i previous (id ∷ ids) ≡ none
  unfolding verify_from
  verify_round evidence i previous id ids e found sequence linked intact rest = ground (
    arith,
    found,
    rest,
    eq_iff e.previous_hash previous,
    eq_iff e.hash (evidence_hash platform e),
  )

  last_hash-found :
      {hash : String} (evidence : Dict Evidence) (previous id : String) (ids : List String)
      (e : Evidence)
      → lookup id evidence ≡ some e
      → hash ≡ last_hash evidence previous (id ∷ ids)
      → hash ≡ last_hash evidence e.hash ids
  unfolding last_hash get_or
  last_hash-found evidence previous id ids e found h = ground (arith, found, h)

  -- Evidence under a fresh id changes no verified chain, nor the hash that it ends with.
  verify_from-insert :
      (evidence : Dict Evidence) (new : String) (added : Evidence) (i : ℕ) (previous : String)
      (ids : List String)
      → lookup new evidence ≡ none
      → verify_from platform evidence i previous ids ≡ none
      → (verify_from platform (insert new added evidence) i previous ids ≡ none)
        × (last_hash (insert new added evidence) previous ids ≡ last_hash evidence previous ids)
  unfolding last_hash get_or
  verify_from-insert evidence new added i previous [] fresh h = (unfold verify_from in refl, refl)
  verify_from-insert evidence new added i previous (id ∷ ids) fresh h =
      let (e, found, sequence, linked, intact, rest) = verify_head evidence i previous id ids h in
      let kept = kept_entry evidence new added id e fresh found in
      let later = verify_from-insert evidence new added (suc i) e.hash ids fresh rest in
      (
        verify_round (insert new added evidence) i previous id ids e kept sequence linked intact
            later.0,
        rw (kept, found, get_or) later.1,
      )

  -- A verified chain, extended by evidence that carries the next sequence number, the hash that the
  -- chain ends with and its own hash, is verified.
  verify_from-append :
      (evidence : Dict Evidence) (i : ℕ) (previous : String) (ids : List String) (new : String)
      (added : Evidence) (n : ℕ)
      → verify_from platform evidence i previous ids ≡ none
      → lookup new evidence ≡ some added
      → n ≡ length ids + i + 1
      → added.sequence ≡ n % 2 ^ 64
      → added.previous_hash ≡ last_hash evidence previous ids
      → added.hash ≡ evidence_hash platform added
      → verify_from platform evidence i previous (ids ++ (new ∷ [])) ≡ none
  unfolding last_hash get_or
  verify_from-append evidence i previous [] new added n h found place sequence linked intact =
      verify_round evidence i previous new [] added found
        (subst (λ k. added.sequence ≡ k % 2 ^ 64) (omega (arith, place)) sequence) linked intact
        (unfold verify_from in refl)
  verify_from-append evidence i previous (id ∷ ids) new added n h found place sequence linked
        intact =
      let (e, found_e, sequence_e, linked_e, intact_e, rest) =
        verify_head evidence i previous id ids h in
      verify_round evidence i previous id (ids ++ (new ∷ [])) e found_e sequence_e linked_e intact_e
        (verify_from-append evidence (suc i) e.hash ids new added n rest found
          (omega (arith, place)) sequence
          (last_hash-found evidence previous id ids e found_e linked) intact)

  -- The chains of a service are verified, whatever subjects their keys are of.
  abbrev pub HasVerifiedChains : MemoryService → Type 0
  HasVerifiedChains s =
      (key : String) → verify_from platform s.evidence 0 "" (get_or [] key s.evidence_chains) ≡ none

  -- The evidence that AddEvidence appends fits the end of its chain.
  added_evidence_fits :
      (env : Env) (subject : EvidenceSubject) (input : AddEvidenceInput) (chain : List String)
      (s : MemoryService)
      → lookup (env.new_id 0) s.evidence ≡ none
      → verify_from platform s.evidence 0 "" chain ≡ none
      → (let e = hashed platform (linked_evidence platform env subject input s.evidence chain) in
          verify_from platform (insert e.id e s.evidence) 0 "" (chain ++ (e.id ∷ [])) ≡ none)
  unfolding hashed linked_evidence evidence_hash
  added_evidence_fits env subject input chain s fresh verified =
      let e = hashed platform (linked_evidence platform env subject input s.evidence chain) in
      let kept = verify_from-insert s.evidence e.id e 0 "" chain fresh verified in
      verify_from-append (insert e.id e s.evidence) 0 "" chain e.id e (length chain + 1) kept.0
        (lookup-insert_self e.id e s.evidence) (omega arith) refl
        (sym (kept.1 ∙ last_hash-previous s.evidence chain)) refl

  pub written-HasVerifiedChains :
      (env : Env) (subject : EvidenceSubject) (input : AddEvidenceInput) (s : MemoryService)
      → lookup (env.new_id 0) s.evidence ≡ none
      → HasVerifiedChains s
      → (let chain = get_or [] (subject_key subject) s.evidence_chains in
          HasVerifiedChains (
            written subject
              (hashed platform (linked_evidence platform env subject input s.evidence chain))
              chain
              s))
  unfolding written hashed linked_evidence
  written-HasVerifiedChains env subject input s fresh verified key =
      let own = subject_key subject in
      let chain = get_or [] own s.evidence_chains in
      let e = hashed platform (linked_evidence platform env subject input s.evidence chain) in
      elim (get_or-insert own key (chain ++ (e.id ∷ [])) s.evidence_chains) [
        | inl here ↦ rw here (added_evidence_fits env subject input chain s fresh (verified own))
        | inr other ↦
            rw other
              (verify_from-insert s.evidence e.id e 0 "" (get_or [] key s.evidence_chains) fresh
                (verified key)).0
      ]
