-- ===== src/Safety/Memory/Batches/Orders.antt =====
-- The orders that AssociateOrders links to a batch.
use chihuo.Base.{
  String, none, some, List, [], ◌∷◌, ◌≡◌, ◌≢◌, ◌∙◌, refl, inl, inr, arith, Option-cases, Result, ok,
  err, Result-cases, sym, subst, ◌++◌, All, eq_iff,
}
use chihuo.Base.Int.{ℤ, pos, ◌+64◌}
use chihuo.Base.Dict.{Dict, lookup, insert, lookup-insert, lookup-insert_ne}
use chihuo.Domain.{Time}
use chihuo.Safety.Model.{OrderAssociation, FoodBatch}
use chihuo.Safety.Inputs.{OrderAssociationInput, AssociateOrdersInput}
use chihuo.Safety.Errors.{Error, refuse}
use chihuo.Safety.Memory.{MemoryService, Env, Answer}
use chihuo.Safety.Memory.Batches.{
  order_refusal, association, associate, assign_orders, link_orders, associate_orders, put_batch,
  order_ids, total_quantity,
}
use chihuo.Safety.Memory.Cases.{associate_orders_cases}

nothing_added :
    (P : OrderAssociation → Type 0) (added : List OrderAssociation)
    → ◌≡◌ {A = Result Error (List OrderAssociation)} (ok []) (ok added)
    → All P added
nothing_added P [] h = tt
nothing_added P (o ∷ os) h = ground arith

module _ (planned : ℤ) (assigned : Dict String) (actor_id : String) (now : Time) where
  -- One round of a loop that succeeds.
  associate-round :
      (known : List String) (sum : ℤ) (o : OrderAssociationInput) (os : List OrderAssociationInput)
      (added : List OrderAssociation)
      → associate planned assigned actor_id now known sum (o ∷ os) ≡ ok added
      → (let linked = association actor_id now o in
          (rest : List OrderAssociation) × (added ≡ linked ∷ rest)
          × (order_refusal planned known sum assigned o ≡ none)
          × (associate planned assigned actor_id now
                (linked.order_id ∷ known)
                (sum +64 o.quantity)
                os
              ≡ ok rest))
  unfolding associate
  associate-round known sum o os added h =
      elim (Option-cases (order_refusal planned known sum assigned o)) [
        | inr (e, refused) ↦ ground (arith, refused, h)
        | inl passed ↦
            elim (Result-cases (
              associate planned assigned actor_id now
                ((association actor_id now o).order_id ∷ known) (sum +64 o.quantity) os)) [
                  | inr (e, failed) ↦ ground (arith, passed, failed, h)
                  | inl (rest, done) ↦ (rest, ground (arith, passed, done, h), passed, done)
                ]
      ]

  refusal_frees :
      (known : List String) (sum : ℤ) (o : OrderAssociationInput)
      → order_refusal planned known sum assigned o ≡ none
      → lookup (association actor_id now o).order_id assigned ≡ none
  unfolding order_refusal association refuse
  refusal_frees known sum o passed = ground arith

  -- The orders that the loop links were assigned to no batch.
  pub associate-free :
      (known : List String) (sum : ℤ) (os : List OrderAssociationInput)
      (added : List OrderAssociation)
      → associate planned assigned actor_id now known sum os ≡ ok added
      → All (λ o. lookup o.order_id assigned ≡ none) added
  associate-free known sum [] added h = nothing_added _ added (unfold associate in h)
  associate-free known sum (o ∷ os) added h =
      let (rest, is, passed, done) = associate-round known sum o os added h in
      subst (All (λ o. lookup o.order_id assigned ≡ none)) (sym is) (
        refusal_frees known sum o passed,
        associate-free ((association actor_id now o).order_id ∷ known) (sum +64 o.quantity) os rest
            done,
      )

-- After the last loop each order linked is assigned to the batch.
assign_orders-kept :
    (id order_id : String) (added : List OrderAssociation) (m : Dict String)
    → lookup order_id m ≡ some id
    → lookup order_id (assign_orders id added m) ≡ some id
unfolding assign_orders
assign_orders-kept id order_id [] m h = h
assign_orders-kept id order_id (o ∷ os) m h =
    assign_orders-kept id order_id os (insert o.order_id id m)
      (ground (arith, lookup-insert o.order_id order_id id m))

assign_orders-assigns :
    (id : String) (added : List OrderAssociation) (m : Dict String)
    → All (λ o. lookup o.order_id (assign_orders id added m) ≡ some id) added
unfolding assign_orders
assign_orders-assigns id [] m = tt
assign_orders-assigns id (o ∷ os) m = (
  assign_orders-kept id o.order_id os (insert o.order_id id m)
      (ground (arith, lookup-insert o.order_id o.order_id id m, eq_iff o.order_id o.order_id)),
  assign_orders-assigns id os (insert o.order_id id m),
)

-- The last loop assigns nothing but the orders linked.
assign_orders-others :
    (id order_id : String) (added : List OrderAssociation) (m : Dict String)
    → All (λ o. o.order_id ≢ order_id) added
    → lookup order_id (assign_orders id added m) ≡ lookup order_id m
unfolding assign_orders
assign_orders-others id order_id [] m others = refl
assign_orders-others id order_id (o ∷ os) m (other, others) =
    assign_orders-others id order_id os (insert o.order_id id m) others
    ∙ lookup-insert_ne o.order_id order_id id m other

-- An order that is assigned is none of those that were not.
assigned-others :
    (order_id at : String) (m : Dict String) (added : List OrderAssociation)
    → lookup order_id m ≡ some at
    → All (λ o. lookup o.order_id m ≡ none) added
    → All (λ o. o.order_id ≢ order_id) added
assigned-others order_id at m [] there free = tt
assigned-others order_id at m (o ∷ os) there (first, free) =
    ((λ same. cc (same, there, first)), assigned-others order_id at m os there free)

-- The orders that a call of AssociateOrders links, if it links any, were assigned to no batch before
-- and are assigned to its batch after, and no other order changes.
abbrev pub LinksFreeOrders : String → MemoryService → Answer FoodBatch → Type 0
LinksFreeOrders id s r =
    (b : FoodBatch)
    → r.0 ≡ ok b
    → (old : FoodBatch) × (added : List OrderAssociation) × (lookup id s.batches ≡ some old)
      × (b.orders ≡ old.orders ++ added)
      × All (λ o. lookup o.order_id s.order_batch ≡ none) added
      × All (λ o. lookup o.order_id r.1.order_batch ≡ some id) added
      × ((j : String)
          → All (λ o. o.order_id ≢ j) added
          → lookup j r.1.order_batch ≡ lookup j s.order_batch)
      × ((j at : String) → lookup j s.order_batch ≡ some at → lookup j r.1.order_batch ≡ some at)

link_orders-LinksFreeOrders :
    (env : Env) (id : String) (old : FoodBatch) (s : MemoryService)
    (r : Result Error (List OrderAssociation))
    → lookup id s.batches ≡ some old
    → ((added : List OrderAssociation)
        → r ≡ ok added
        → All (λ o. lookup o.order_id s.order_batch ≡ none) added)
    → LinksFreeOrders id s (link_orders env id old s r)
unfolding link_orders put_batch
link_orders-LinksFreeOrders env id old s (err e) found free b h = ground arith
link_orders-LinksFreeOrders env id old s (ok added) found free b h = (
  old,
  added,
  found,
  orders_of h,
  free added refl,
  assign_orders-assigns id added s.order_batch,
  (λ j others. assign_orders-others id j added s.order_batch others),
  (λ j at there.
      assign_orders-others id j added s.order_batch
        (assigned-others j at s.order_batch added there (free added refl))
      ∙ there),
)
  where
    orders_of :
        ◌≡◌ {A = Result Error FoodBatch}
          (ok (record old { orders = old.orders ++ added; updated_at = env.clock 0 }))
          (ok b)
        → b.orders ≡ old.orders ++ added
    orders_of h = ground (arith, h)

-- A call of AssociateOrders that succeeds appends to the batch only orders that belonged to no batch,
-- each of them belongs to this batch afterwards, every other order belongs to the batch that it
-- belonged to, if to any, and no order that belonged to a batch is moved to another.
pub associated_orders_were_free :
    (env : Env) (id : String) (input : AssociateOrdersInput) (s : MemoryService) (b : FoodBatch)
    → (associate_orders env id input s).0 ≡ ok b
    → (old : FoodBatch) × (added : List OrderAssociation) × (lookup id s.batches ≡ some old)
      × (b.orders ≡ old.orders ++ added)
      × All (λ o. lookup o.order_id s.order_batch ≡ none) added
      × All (λ o. lookup o.order_id (associate_orders env id input s).1.order_batch ≡ some id) added
      × ((j : String)
          → All (λ o. o.order_id ≢ j) added
          → lookup j (associate_orders env id input s).1.order_batch ≡ lookup j s.order_batch)
      × ((j at : String)
          → lookup j s.order_batch ≡ some at
          → lookup j (associate_orders env id input s).1.order_batch ≡ some at)
associated_orders_were_free env id input s =
    associate_orders_cases (LinksFreeOrders id s) env id input s
      (λ e b failed. ground (arith, failed))
      (λ old found _. link_orders-LinksFreeOrders env id old s _ found (
        associate-free old.quantity_planned s.order_batch input.actor_id (env.clock 0)
          (order_ids old.orders) (total_quantity (pos 0) old.orders) input.orders))
