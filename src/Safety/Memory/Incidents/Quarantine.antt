-- ===== src/Safety/Memory/Incidents/Quarantine.antt =====
-- The quarantine of an incident's batches, once all of them have been checked.
use chihuo.Base.{
  String, true, false, Option, none, some, List, [], ◌∷◌, ◌≡◌, refl, sym, subst, inl, inr, arith,
  Option-cases, Bool-cases, All,
}
use chihuo.Base.Dict.{Dict, lookup, insert, lookup-insert}
use chihuo.Domain.{Time}
use chihuo.Safety.Model.{FoodBatch}
use chihuo.Safety.Errors.{Error}
use chihuo.Safety.Validation.Resources.{is_inactive}
use chihuo.Safety.Memory.Incidents.{
  can_quarantine_batch, can_quarantine_all, quarantined, quarantine_batch, quarantine_all,
}

pub can_all_head :
    (id : String) (ids : List String) (batches : Dict FoodBatch)
    → can_quarantine_all batches (id ∷ ids) ≡ none
    → can_quarantine_batch batches id ≡ none
unfolding can_quarantine_all
can_all_head id ids batches can = ground arith

pub can_all_tail :
    (id : String) (ids : List String) (batches : Dict FoodBatch)
    → can_quarantine_all batches (id ∷ ids) ≡ none
    → can_quarantine_all batches ids ≡ none
unfolding can_quarantine_all
can_all_tail id ids batches can = ground arith

module _ (actor_id reason : String) (now : Time) where
  -- A batch that can be quarantined is; then all that could be quarantined before still can.
  can_quarantine-insert :
      (id j : String) (batch : FoodBatch) (batches : Dict FoodBatch)
      → can_quarantine_batch batches j ≡ none
      → can_quarantine_batch (insert id (quarantined actor_id reason now batch) batches) j ≡ none
  unfolding can_quarantine_batch quarantined is_inactive
  can_quarantine-insert id j batch batches can =
      ground (arith, lookup-insert id j (quarantined actor_id reason now batch) batches)

  -- What quarantining a batch that can be leaves behind: no error, and batches as they were or with
  -- this one quarantined.
  pub quarantine_batch_cases {κ} :
      (P : Option Error × Dict FoodBatch → Type κ) (id : String) (batches : Dict FoodBatch)
      → can_quarantine_batch batches id ≡ none
      → ((batch : FoodBatch)
          → lookup id batches ≡ some batch
          → is_inactive batch.status ≡ true
          → P (none, batches))
      → ((batch : FoodBatch)
          → lookup id batches ≡ some batch
          → is_inactive batch.status ≡ false
          → P (none, insert id (quarantined actor_id reason now batch) batches))
      → P (quarantine_batch actor_id reason now id batches)
  unfolding quarantine_batch
  quarantine_batch_cases P id batches can stays moves = elim (Option-cases (lookup id batches)) [
    | inl missing ↦ unfold can_quarantine_batch in ground (arith, can, missing)
    | inr (batch, found) ↦ elim (Bool-cases (is_inactive batch.status)) [
      | inl inactive ↦ rw (found, can, inactive, quarantine_batch) (stays batch found inactive)
      | inr active ↦ rw (found, can, active, quarantine_batch) (moves batch found active)
    ]
  ]

  can_quarantine-quarantine :
      (id : String) (batches : Dict FoodBatch)
      → can_quarantine_batch batches id ≡ none
      → (j : String) → can_quarantine_batch batches j ≡ none
      → can_quarantine_batch (quarantine_batch actor_id reason now id batches).1 j ≡ none
  can_quarantine-quarantine id batches can j can_j =
      quarantine_batch_cases (λ r. can_quarantine_batch r.1 j ≡ none) id batches can
        (λ _ _ _. can_j) (λ batch _ _. can_quarantine-insert id j batch batches can_j)

  can_quarantine_rest :
      (id : String) (batches : Dict FoodBatch)
      → can_quarantine_batch batches id ≡ none
      → (ids : List String) → can_quarantine_all batches ids ≡ none
      → can_quarantine_all (quarantine_batch actor_id reason now id batches).1 ids ≡ none
  unfolding can_quarantine_all
  can_quarantine_rest id batches can [] all = refl
  can_quarantine_rest id batches can (j ∷ ids) all =
      ground
        (arith, can_quarantine-quarantine id batches can j, can_quarantine_rest id batches can ids)

  quarantine_batch-succeeds :
      (id : String) (batches : Dict FoodBatch)
      → can_quarantine_batch batches id ≡ none
      → (quarantine_batch actor_id reason now id batches).0 ≡ none
  quarantine_batch-succeeds id batches can =
      quarantine_batch_cases (λ r. r.0 ≡ none) id batches can (λ _ _ _. refl) (λ _ _ _. refl)

  quarantine_all-head :
      (id : String) (ids : List String) (m : Dict FoodBatch)
      → can_quarantine_batch m id ≡ none
      → quarantine_all actor_id reason now (id ∷ ids) m
        ≡ quarantine_all actor_id reason now ids (quarantine_batch actor_id reason now id m).1
  unfolding quarantine_all
  quarantine_all-head id ids m can = rw (quarantine_batch-succeeds id m can, quarantine_all) refl

  -- A relation between batches that one quarantine respects is respected by all of them, and none
  -- of them fails.
  pub quarantine_all_loop {κ} :
      (R : Dict FoodBatch → Dict FoodBatch → Type κ)
      → ((b : Dict FoodBatch) → R b b)
      → ((a b c : Dict FoodBatch) → R a b → R b c → R a c)
      → ((id : String) (b : Dict FoodBatch)
          → can_quarantine_batch b id ≡ none
          → R b (quarantine_batch actor_id reason now id b).1)
      → (ids : List String) (batches : Dict FoodBatch) → can_quarantine_all batches ids ≡ none
      → (let r = quarantine_all actor_id reason now ids batches in (r.0 ≡ none) × R batches r.1)
  unfolding quarantine_all
  quarantine_all_loop R reflexive transitive one [] batches can = (refl, reflexive batches)
  quarantine_all_loop R reflexive transitive one (id ∷ ids) batches can =
      let here = can_all_head id ids batches can in
      let first = quarantine_batch actor_id reason now id batches in
      let rest =
        quarantine_all_loop R reflexive transitive one ids first.1
          (can_quarantine_rest id batches here ids (can_all_tail id ids batches can)) in
      rw (quarantine_batch-succeeds id batches here, quarantine_all)
        (rest.0, transitive batches first.1 _ (one id batches here) rest.1)

  -- What one quarantine brings about for its batch, and the later ones keep, holds of every batch.
  pub quarantine_all_each {κ} :
      (Q : String → Dict FoodBatch → Type κ)
      → ((id : String) (m : Dict FoodBatch)
          → can_quarantine_batch m id ≡ none
          → Q id (quarantine_batch actor_id reason now id m).1)
      → ((j : String) (ids : List String) (m : Dict FoodBatch)
          → can_quarantine_all m ids ≡ none
          → Q j m
          → Q j (quarantine_all actor_id reason now ids m).1)
      → (ids : List String) (m : Dict FoodBatch) → can_quarantine_all m ids ≡ none
      → All (λ id. Q id (quarantine_all actor_id reason now ids m).1) ids
  quarantine_all_each Q one keeps [] m can = tt
  quarantine_all_each Q one keeps (id ∷ ids) m can =
      let here = can_all_head id ids m can in
      let first = (quarantine_batch actor_id reason now id m).1 in
      let rest = can_quarantine_rest id m here ids (can_all_tail id ids m can) in
      subst (λ r. All (λ j. Q j r.1) (id ∷ ids)) (sym (quarantine_all-head id ids m here))
        (keeps id ids first rest (one id m here), quarantine_all_each Q one keeps ids first rest)
