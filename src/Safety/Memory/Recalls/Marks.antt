-- ===== src/Safety/Memory/Recalls/Marks.antt =====
-- The marking of a recall's batches as recalled, once all of them have been checked.
use chihuo.Base.{
  String, true, false, none, some, List, [], ◌∷◌, ◌≡◌, refl, inl, inr, arith, Option-cases,
  Bool-cases, All,
}
use chihuo.Base.Dict.{Dict, lookup, get_or, insert, lookup-insert}
use chihuo.Domain.{Time}
use chihuo.Safety.Status.{FoodBatchStatus}
use chihuo.Safety.Transitions.{can_transition_batch}
use chihuo.Safety.Model.{FoodBatch}
use chihuo.Safety.Errors.{refuse}
use chihuo.Safety.Memory.Recalls.{
  can_mark_recalled, can_mark_all, recalled_batch, mark_recalled, mark_all, is_recalled,
}

can_mark_head :
    (id : String) (ids : List String) (batches : Dict FoodBatch)
    → can_mark_all batches (id ∷ ids) ≡ none
    → can_mark_recalled batches id ≡ none
unfolding can_mark_all
can_mark_head id ids batches can = ground arith

can_mark_tail :
    (id : String) (ids : List String) (batches : Dict FoodBatch)
    → can_mark_all batches (id ∷ ids) ≡ none
    → can_mark_all batches ids ≡ none
unfolding can_mark_all
can_mark_tail id ids batches can = ground arith

can_mark-allows :
    (id : String) (b : FoodBatch) (m : Dict FoodBatch)
    → can_mark_recalled m id ≡ none
    → lookup id m ≡ some b
    → is_recalled b.status ≡ false
    → can_transition_batch b.status FoodBatchStatus.recalled ≡ true
unfolding can_mark_recalled refuse
can_mark-allows id b m can found unmarked = ground arith

can_mark-finds :
    (id : String) (m : Dict FoodBatch)
    → can_mark_recalled m id ≡ none
    → (b : FoodBatch) × (lookup id m ≡ some b)
unfolding can_mark_recalled
can_mark-finds id m can = elim (Option-cases (lookup id m)) [
  | inl missing ↦ ground (arith, missing, can)
  | inr found ↦ found
]

module _ (actor_id reason : String) (now : Time) where
  -- A batch that can be marked is found; it was recalled before, or is now, by an allowed transition.
  pub mark_recalled_cases {κ} :
      (P : Dict FoodBatch → Type κ) (id : String) (m : Dict FoodBatch)
      → can_mark_recalled m id ≡ none
      → ((b : FoodBatch) → lookup id m ≡ some b → is_recalled b.status ≡ true → P m)
      → ((b : FoodBatch)
          → lookup id m ≡ some b
          → can_transition_batch b.status FoodBatchStatus.recalled ≡ true
          → P (insert id (recalled_batch actor_id reason now b) m))
      → P (mark_recalled actor_id reason now id m)
  unfolding mark_recalled get_or
  mark_recalled_cases P id m can stays moves =
      let (b, found) = can_mark-finds id m can in
      elim (Bool-cases (is_recalled b.status)) [
        | inl marked ↦ rw (found, marked, mark_recalled, get_or) (stays b found marked)
        | inr unmarked ↦
            rw (found, unmarked, mark_recalled, get_or)
              (moves b found (can_mark-allows id b m can found unmarked))
      ]

  can_mark-insert :
      (id j : String) (b : FoodBatch) (m : Dict FoodBatch)
      → can_mark_recalled m j ≡ none
      → can_mark_recalled (insert id (recalled_batch actor_id reason now b) m) j ≡ none
  unfolding can_mark_recalled recalled_batch is_recalled
  can_mark-insert id j b m can =
      ground (arith, lookup-insert id j (recalled_batch actor_id reason now b) m)

  can_mark_rest :
      (id : String) (m : Dict FoodBatch)
      → can_mark_recalled m id ≡ none
      → (ids : List String) → can_mark_all m ids ≡ none
      → can_mark_all (mark_recalled actor_id reason now id m) ids ≡ none
  unfolding can_mark_all
  can_mark_rest id m can [] all = refl
  can_mark_rest id m can (j ∷ ids) all =
      let here =
        mark_recalled_cases (λ r. can_mark_recalled r j ≡ none) id m can
          (λ _ _ _. can_mark_head j ids m all)
          (λ b _ _. can_mark-insert id j b m (can_mark_head j ids m all)) in
      ground (arith, can_mark_rest id m can ids, here)

  -- A relation between batches that one marking respects is respected by all of them.
  pub mark_all_loop {κ} :
      (R : Dict FoodBatch → Dict FoodBatch → Type κ)
      → ((m : Dict FoodBatch) → R m m)
      → ((a b c : Dict FoodBatch) → R a b → R b c → R a c)
      → ((id : String) (m : Dict FoodBatch)
          → can_mark_recalled m id ≡ none
          → R m (mark_recalled actor_id reason now id m))
      → (ids : List String) (m : Dict FoodBatch) → can_mark_all m ids ≡ none
      → R m (mark_all actor_id reason now ids m)
  unfolding mark_all
  mark_all_loop R reflexive transitive one [] m can = reflexive m
  mark_all_loop R reflexive transitive one (id ∷ ids) m can =
      let here = can_mark_head id ids m can in
      let first = mark_recalled actor_id reason now id m in
      transitive m first _ (one id m here) (
        mark_all_loop R reflexive transitive one ids first
          (can_mark_rest id m here ids (can_mark_tail id ids m can)))

  -- What one marking brings about for its batch, and the later ones keep, holds of every batch.
  pub mark_all_each {κ} :
      (Q : String → Dict FoodBatch → Type κ)
      → ((id : String) (m : Dict FoodBatch)
          → can_mark_recalled m id ≡ none
          → Q id (mark_recalled actor_id reason now id m))
      → ((j : String) (ids : List String) (m : Dict FoodBatch)
          → can_mark_all m ids ≡ none
          → Q j m
          → Q j (mark_all actor_id reason now ids m))
      → (ids : List String) (m : Dict FoodBatch) → can_mark_all m ids ≡ none
      → All (λ id. Q id (mark_all actor_id reason now ids m)) ids
  unfolding mark_all
  mark_all_each Q one keeps [] m can = tt
  mark_all_each Q one keeps (id ∷ ids) m can =
      let here = can_mark_head id ids m can in
      let first = mark_recalled actor_id reason now id m in
      let rest = can_mark_rest id m here ids (can_mark_tail id ids m can) in
      (keeps id ids first rest (one id m here), mark_all_each Q one keeps ids first rest)
