-- ===== src/Safety/Memory/Lifecycle.antt =====
-- The life of a batch, as an abstract machine: which changes a batch ever sees, whichever call makes
-- them.
pub mod Batches
pub mod Calls
use chihuo.Base.{
  String, Bool, true, Option, some, none, List, [], ◌∷◌, ◌++◌, ◌≡◌, refl, sym, subst, ◌⊎◌, inl, inr,
  arith, eq_iff,
}
use chihuo.Base.Dict.{
  Dict, lookup, insert, lookup-insert, lookup-insert_cases, lookup-insert_self, lookup-insert_ne,
}
use chihuo.Base.Int.{ℤ, pos, ◌≤ℤ◌, ◌<ℤ◌}
use chihuo.Domain.{Time}
use chihuo.Safety.Status.{FoodBatchStatus}
use chihuo.Safety.Transitions.{can_transition_batch}
use chihuo.Safety.Model.{StatusChange, OrderAssociation, FoodBatch}
use chihuo.Safety.Memory.{append_unique}
use chihuo.Safety.Memory.Batches.{takes_orders}

-- One change: a transition that the table of state.go allows, recorded in the history; a production
-- of at most what was planned, while the batch is in production; more orders, in a status that takes them; a new recall; or new
-- evidence.
pub data BatchStep (b : FoodBatch) : FoodBatch → Type 0 where
  moves :
      (change : StatusChange FoodBatchStatus) (evidence : List String) (at : Time)
      → change.from ≡ b.status
      → can_transition_batch b.status change.to ≡ true
      → BatchStep b (record b {
        status = change.to;
        evidence_ids = evidence;
        updated_at = at;
        status_history = b.status_history ++ (change ∷ []);
      })
  produces :
      (quantity life : ℤ) (made expires : Option Time) (at : Time)
      → b.status ≡ FoodBatchStatus.producing
      → pos 0 <ℤ quantity
      → quantity ≤ℤ b.quantity_planned
      → BatchStep b (record b {
        shelf_life_minutes = life;
        quantity_produced = quantity;
        quantity_remaining = quantity;
        produced_at = made;
        expires_at = expires;
        updated_at = at;
      })
  takes :
      (added : List OrderAssociation) (at : Time)
      → takes_orders b.status ≡ true
      → BatchStep b (record b { orders = b.orders ++ added; updated_at = at })
  joins_recall :
      (recall_id : String) (at : Time)
      → BatchStep b
          (record b { recall_ids = append_unique b.recall_ids (recall_id ∷ []); updated_at = at })
  gains_evidence :
      (evidence_id : String) (at : Time)
      → BatchStep b (record b {
        evidence_ids = append_unique b.evidence_ids (evidence_id ∷ []);
        updated_at = at;
      })

-- Any number of changes.
pub data BatchLife (b : FoodBatch) : FoodBatch → Type 0 where
  same : BatchLife b b
  then : {c d : FoodBatch} → BatchLife b c → BatchStep c d → BatchLife b d

pub BatchLife-trans : {a b c : FoodBatch} → BatchLife a b → BatchLife b c → BatchLife a c
BatchLife-trans first BatchLife.same = first
BatchLife-trans first (BatchLife.then middle last) =
    BatchLife.then (BatchLife-trans first middle) last

pub BatchLife-one : {a b : FoodBatch} → BatchStep a b → BatchLife a b
BatchLife-one step = BatchLife.then BatchLife.same step

-- What a new batch looks like.
pub record IsNewBatch (b : FoodBatch) : Type 0 where
  pub drafted : b.status ≡ FoodBatchStatus.draft
  pub untouched : b.status_history ≡ []
  pub unproduced : b.quantity_produced ≡ pos 0
  pub unspent : b.quantity_remaining ≡ pos 0
  pub planned : pos 0 <ℤ b.quantity_planned
  pub unordered : b.orders ≡ []

-- The batch was new once and has lived since.
abbrev pub HasLived : FoodBatch → Type 0
HasLived b = (first : FoodBatch) × IsNewBatch first × BatchLife first b

-- From one map of batches to a later one no batch is lost, and each batch of the later one is new or
-- has lived on from the earlier one.
pub record BatchesLive (m m' : Dict FoodBatch) : Type 0 where
  pub stays :
      (id : String) (b : FoodBatch)
      → lookup id m ≡ some b
      → (b' : FoodBatch) × (lookup id m' ≡ some b') × BatchLife b b'
  pub comes :
      (id : String) (b' : FoodBatch)
      → lookup id m' ≡ some b'
      → ((b : FoodBatch) × (lookup id m ≡ some b) × BatchLife b b') ⊎ HasLived b'

pub BatchesLive-refl : (m : Dict FoodBatch) → BatchesLive m m
BatchesLive-refl m = record {
  stays = λ id b e. (b, e, BatchLife.same);
  comes = λ id b e. inl (b, e, BatchLife.same);
}

-- An entry after a later insertion: the one inserted, or as it was.
at_insert :
    (id j : String) (b c : FoodBatch) (m : Dict FoodBatch)
    → lookup j m ≡ some c
    → ((id ≡ j) × (lookup j (insert id b m) ≡ some b)) ⊎ (lookup j (insert id b m) ≡ some c)
at_insert id j b c m e = ground (arith, lookup-insert id j b m, eq_iff id j)

pub BatchesLive-trans :
    {m m' m'' : Dict FoodBatch} → BatchesLive m m' → BatchesLive m' m'' → BatchesLive m m''
BatchesLive-trans {m} {m'} {m''} f g = record { stays = later; comes = earlier }
  where
    later :
        (id : String) (b : FoodBatch)
        → lookup id m ≡ some b
        → (b' : FoodBatch) × (lookup id m'' ≡ some b') × BatchLife b b'
    later id b e =
        let (b1, e1, l1) = f.stays id b e in
        let (b2, e2, l2) = g.stays id b1 e1 in (b2, e2, BatchLife-trans l1 l2)

    earlier :
        (id : String) (b' : FoodBatch)
        → lookup id m'' ≡ some b'
        → ((b : FoodBatch) × (lookup id m ≡ some b) × BatchLife b b') ⊎ HasLived b'
    earlier id b' e = elim (g.comes id b' e) [
      | inr new ↦ inr new
      | inl (b1, e1, l1) ↦ elim (f.comes id b1 e1) [
        | inl (b0, e0, l0) ↦ inl (b0, e0, BatchLife-trans l0 l1)
        | inr (b0, new, l0) ↦ inr (b0, new, BatchLife-trans l0 l1)
      ]
    ]

pub BatchesLive-update :
    (id : String) (b b' : FoodBatch) (m : Dict FoodBatch)
    → lookup id m ≡ some b
    → BatchLife b b'
    → BatchesLive m (insert id b' m)
BatchesLive-update id b b' m found life = record {
  stays = λ j c e. elim (at_insert id j b' c m e) [
    | inl (here, now) ↦ (b', now, subst (λ x. BatchLife x b') (same_value here e) life)
    | inr old ↦ (c, old, BatchLife.same)
  ];
  comes = λ j c e. elim (lookup-insert_cases id j b' c m e) [
    | inl (here, is) ↦
        inl (b, subst (λ k. lookup k m ≡ some b) here found, subst (BatchLife b) is life)
    | inr (other, old) ↦ inl (c, old, BatchLife.same)
  ];
}
  where
    same_value : {j : String} {c : FoodBatch} → id ≡ j → lookup j m ≡ some c → b ≡ c
    same_value here e = cc

pub BatchesLive-add :
    (id : String) (b : FoodBatch) (m : Dict FoodBatch)
    → lookup id m ≡ none
    → IsNewBatch b
    → BatchesLive m (insert id b m)
BatchesLive-add id b m fresh new = record {
  stays = λ j c e. elim (at_insert id j b c m e) [
    | inl (here, now) ↦ ground (arith, here, fresh, e)
    | inr old ↦ (c, old, BatchLife.same)
  ];
  comes = λ j c e. elim (lookup-insert_cases id j b c m e) [
    | inl (here, is) ↦ inr (b, new, subst (BatchLife b) is BatchLife.same)
    | inr (other, old) ↦ inl (c, old, BatchLife.same)
  ];
}
