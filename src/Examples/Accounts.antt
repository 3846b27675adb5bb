-- ===== src/Examples/Accounts.antt =====
-- Accounts, idempotency records, and a demand that filled up before its review.
use Prim.{tt}
use chihuo.Base.{String, ◌≡◌, refl, ◌⊎◌, none, some, ok, err, [], ◌∷◌, arith}
use chihuo.Base.Dict.{lookup, insert}
use chihuo.Base.Int.{pos, ◌+64◌, wrap64, ◌+ℤ◌}
use chihuo.Domain.{Demand, IdempotencyRecord}
use chihuo.Domain.Role
use chihuo.Domain.DemandStatus
use chihuo.Store.{
  CreateUserInput, CreateDemandInput, MemoryStore, new_memory_store, not_found, zero_spec,
}
use chihuo.Store.Accounts.{get_idempotency, put_idempotency}
use chihuo.Store.Accounts.Laws.{put_idempotency_once}
use chihuo.Store.Demands.{create_demand, add_demand_member, admit_member, review_demand}
use chihuo.Store.Demands.Effects.{add_all, full_demand_never_ready}
use chihuo.Store.History.{Call, step, Reachable, Reachable-IsConsistent}
use chihuo.Examples.Stores.{review, member_input, demand_input}

user_input : CreateUserInput
user_input = record { name = "Ann"; role = Role.consumer; external_key = "wx" }

abbrev entry : IdempotencyRecord
entry = record {
  actor_id = "u";
  key = "order-1";
  fingerprint = "f";
  status = pos 201;
  response = [];
  created_at = 3;
}

entry_fresh : (put_idempotency entry new_memory_store).0 ≡ none
unfolding put_idempotency new_memory_store lookup
entry_fresh = refl

put_idempotency_once_example :
    let s' = (put_idempotency entry new_memory_store).1 in
    (found : IdempotencyRecord) × ((get_idempotency "u" "order-1" s').0 ≡ ok found)
    × (found.fingerprint ≡ "f")
    × (((get_idempotency "u" "order-1" new_memory_store).0 ≡ ok found)
        ⊎ (((get_idempotency "u" "order-1" new_memory_store).0 ≡ err not_found) × (found ≡ entry)))
    × (put_idempotency entry s' ≡ (none, s'))
put_idempotency_once_example = put_idempotency_once entry new_memory_store entry_fresh

abbrev actor : String
actor = "u1"

abbrev request_key : String
request_key = "k:2"

-- A demand for one member, joined while it waits for its review.
abbrev small_input : CreateDemandInput
small_input = record demand_input { maximum_members = pos 1 }

abbrev full_store : MemoryStore
full_store =
    step (Call.adds_member "j" 5 5 member_input)
      (step (Call.creates_demand "d" 3 small_input) new_memory_store)

full_store-Reachable : Reachable full_store
unfolding new_memory_store lookup
full_store-Reachable =
    Reachable.next (Call.adds_member "j" 5 5 member_input)
      (Reachable.next (Call.creates_demand "d" 3 small_input) Reachable.start (refl, omega arith))
      tt

abbrev full_demand : Demand
full_demand = record {
  spec = zero_spec;
  id = "d";
  created_by = "ann";
  minimum_members = pos 1;
  maximum_members = pos 1;
  member_count = pos 1;
  status = DemandStatus.pending_review;
  reviewed_by = "";
  reviewed_at = none;
  review_reason = "";
  created_at = 3;
  updated_at = 5;
}

full_demand_found : lookup "d" full_store.demands ≡ some full_demand
unfolding step lookup add_demand_member create_demand insert new_memory_store admit_member ◌+64◌
    wrap64 ◌+ℤ◌
full_demand_found = refl

full_demand_never_ready_example :
    (d' : Demand) × (lookup "d"
        (add_all
          (("k", 7, 7, member_input) ∷ [])
          (review_demand 6 "d" (review "OPEN") full_store).1).demands
      ≡ some d')
    × (d'.status ≡ DemandStatus.open_status)
full_demand_never_ready_example =
    full_demand_never_ready 6 "d" (review "OPEN") full_store full_demand
      (("k", 7, 7, member_input) ∷ [])
      (λ k d there. ((Reachable-IsConsistent full_store-Reachable).members.each k d there).keyed)
      full_demand_found refl refl
