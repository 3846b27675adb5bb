-- ===== src/Http/Mutations/Records.antt =====
-- Idempotency records stay as they are, whatever calls the store takes.
use chihuo.Base.{String, some, List, [], ◌∷◌, ◌≡◌, arith, eq_iff}
use chihuo.Base.Dict.{lookup, lookup-insert}
use chihuo.Domain.{IdempotencyRecord}
use chihuo.Store.{MemoryStore}
use chihuo.Store.Accounts.{
  create_or_get_user, create_or_get_merchant, review_merchant, put_idempotency, idempotency_key,
}
use chihuo.Store.Demands.{create_demand, admit_member, review_demand}
use chihuo.Store.Offers.{create_offer}
use chihuo.Store.Orders.{place_order}
use chihuo.Store.Demands.Invariant.{add_demand_member_cases}
use chihuo.Store.Campaigns.Reviews.{create_campaign_cases, review_campaign_cases}
use chihuo.Store.Orders.Invariant.{create_order_cases}
use chihuo.Store.History.{Call, step}

-- Any calls of the store, one after the other.
unfoldable pub steps : List Call → MemoryStore → MemoryStore
steps [] s = s
steps (c ∷ calls) s = steps calls (step c s)

-- A call leaves the records alone, but for PutIdempotency.
put_idempotency-keeps :
    (entry : IdempotencyRecord) (s : MemoryStore) (key : String) (known : IdempotencyRecord)
    → lookup key s.idempotency ≡ some known
    → lookup key (put_idempotency entry s).1.idempotency ≡ some known
unfolding put_idempotency
put_idempotency-keeps entry s key known stored =
    let place = idempotency_key entry.actor_id entry.key in
    ground (arith, stored, lookup-insert place key entry s.idempotency, eq_iff place key)

step-keeps :
    (c : Call) (s : MemoryStore) (key : String) (known : IdempotencyRecord)
    → lookup key s.idempotency ≡ some known
    → lookup key (step c s).idempotency ≡ some known
unfolding step create_or_get_user create_or_get_merchant review_merchant create_demand review_demand
    create_offer
step-keeps (Call.creates_user id now input) s key known stored = ground (arith, stored)
step-keeps (Call.creates_merchant id now input) s key known stored = ground (arith, stored)
step-keeps (Call.reviews_merchant now id input) s key known stored = ground (arith, stored)
step-keeps (Call.creates_demand id now input) s key known stored = ground (arith, stored)
step-keeps (Call.adds_member id now later input) s key known stored =
    add_demand_member_cases (λ r. lookup key r.1.idempotency ≡ some known) id now later input s
      (λ e. stored) (λ d _ _ _ _. unfold admit_member in stored)
step-keeps (Call.reviews_demand now id input) s key known stored = ground (arith, stored)
step-keeps (Call.creates_offer id now input) s key known stored = ground (arith, stored)
step-keeps (Call.creates_campaign id now input) s key known stored =
    create_campaign_cases (λ r. lookup key r.1.idempotency ≡ some known) id now input s
      (λ e. stored) (λ d o _ _ _ _ _. stored)
step-keeps (Call.reviews_campaign now id input) s key known stored =
    review_campaign_cases (λ r. lookup key r.1.idempotency ≡ some known) now id input s
      (λ e. stored) (λ c _ _ _ _. stored) (λ c _ _. stored)
step-keeps (Call.creates_order id now input) s key known stored =
    create_order_cases (λ r. lookup key r.1.idempotency ≡ some known) id now input s (λ e. stored)
      (λ c _ _ _. unfold place_order in stored)
step-keeps (Call.puts_idempotency entry) s key known stored =
    put_idempotency-keeps entry s key known stored

pub steps-keeps :
    (calls : List Call) (s : MemoryStore) (key : String) (known : IdempotencyRecord)
    → lookup key s.idempotency ≡ some known
    → lookup key (steps calls s).idempotency ≡ some known
unfolding steps
steps-keeps [] s key known stored = stored
steps-keeps (c ∷ calls) s key known stored =
    steps-keeps calls (step c s) key known (step-keeps c s key known stored)
