-- ===== src/Safety/Memory/History.antt =====
-- The in-memory service over any history of its calls, in the order in which they took its lock.
pub mod Batches
pub mod Resources
use chihuo.Base.{
  String, Bool, true, false, Option, some, none, List, [], ◌∷◌, ◌++◌, ◌≡◌, refl, sym, subst, ◌∙◌,
  ◌&&◌, ◌⊎◌, inl, inr, arith, map, All, ◌≤◌, ◌<◌,
}
use chihuo.Base.Dict.{Dict, lookup, get_or, Each}
use chihuo.Base.Int.{ℤ, pos, ◌≤ℤ◌, ◌<ℤ◌}
use chihuo.Safety.Status.{FoodBatchStatus}
use chihuo.Safety.Transitions.{can_transition_batch}
use chihuo.Safety.Transitions.Histories.{is_history, latest, batch_route, completed_by_route}
use chihuo.Safety.Model.{StatusChange, FoodBatch, FoodSafetyIncident, Recall, EvidenceSubject}
use chihuo.Safety.Errors.{Error, check_context, refuse}
use chihuo.Safety.Platform.{Platform}
use chihuo.Safety.Memory.{MemoryService, Env, new_memory_service}
use chihuo.Safety.Memory.Chains.{subject_exists, subject_key, verify_from, verify_evidence_chain}
use chihuo.Safety.Memory.Chains.Integrity.{HasVerifiedChains}
use chihuo.Safety.Memory.Chains.Calls.{run-HasVerifiedChains}
use chihuo.Safety.Memory.Calls.{Call, run}
use chihuo.Safety.Memory.Lifecycle.{
  BatchStep, BatchLife, BatchLife-trans, IsNewBatch, HasLived, BatchesLive,
}
use chihuo.Safety.Memory.Lifecycle.Calls.{IsFresh, run-BatchesLive}
use chihuo.Safety.Memory.Containment.{IsWithdrawn, IsContained}
use chihuo.Safety.Memory.Containment.Calls.{run-IsContained}
use chihuo.Safety.Memory.Recalled.{IsHeld, is_initiated, IsHonoured}
use chihuo.Safety.Memory.Recalled.Calls.{run-IsHonoured}

-- The services that histories of calls lead to, whether or not the calls fail.
pub data Reachable (platform : Platform) : MemoryService → Type 0 where
  start : Reachable platform new_memory_service
  next :
      {s : MemoryService} (c : Call)
      → Reachable platform s
      → IsFresh c s
      → Reachable platform (run platform c s).1

later-HasLived :
    {m m' : Dict FoodBatch} → BatchesLive m m' → Each (λ _. HasLived) m → Each (λ _. HasLived) m'
later-HasLived life before id b found = elim (life.comes id b found) [
  | inr lived ↦ lived
  | inl (b0, found0, since) ↦
      let (first, new, until) = before id b0 found0 in (first, new, BatchLife-trans until since)
]

no_batches : Each (λ _. HasLived) new_memory_service.batches
unfolding new_memory_service lookup
no_batches id b found = ground arith

all_have_lived :
    (platform : Platform) (s : MemoryService)
    → Reachable platform s
    → Each (λ _. HasLived) s.batches
all_have_lived platform s Reachable.start = no_batches
all_have_lived platform s (Reachable.next {s = s0} c before fresh) =
    later-HasLived (run-BatchesLive platform c s0 fresh) (all_have_lived platform s0 before)

-- In every service that calls lead to, each batch is a new draft to which only steps of the abstract
-- machine of a batch have happened: transitions that the table allows, each recorded, productions
-- within the plan, new orders in a status that takes them, and new recalls and evidence.
pub batches_have_lived :
    (platform : Platform) (s : MemoryService) (id : String) (b : FoodBatch)
    → Reachable platform s
    → lookup id s.batches ≡ some b
    → HasLived b
batches_have_lived platform s id b history = all_have_lived platform s history id b
