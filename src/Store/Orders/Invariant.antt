-- ===== src/Store/Orders/Invariant.antt =====
-- What holds between the campaigns and their orders in the in-memory store: a campaign's counter is
-- the sum of its orders' quantities, and stays within the campaign's capacity.
use chihuo.Base.{
  ℕ, ◌+◌, ◌^◌, ◌<◌, String, ◌≡◌, refl, sym, ap, subst₂, ◌∙◌, ◌≢◌, true, false, ◌⊎◌, inl, inr, none,
  some, Result, err, arith, str_eq, eq_iff, if◌then◌else◌, Bool-cases, Option-cases,
}
use chihuo.Base.Dict.{
  Dict, lookup, insert, values, lookup-insert_cases, lookup-insert-none, Each, Each-insert, total,
  total-insert_new,
}
use chihuo.Base.Int.{ℤ, pos, pos_part, ◌≤ℤ◌, ◌<ℤ◌, ltb_ℤ, ◌+64◌, +64_exact}
use chihuo.Domain.{Time, Campaign, Order}
use chihuo.Store.{
  Error, not_found, invalid, conflict, CreateCampaignInput, CreateOrderInput, ReviewInput,
  MemoryStore, new_memory_store,
}
use chihuo.Store.Campaigns.{new_campaign, create_campaign, reviewed_campaign, review_campaign}
use chihuo.Store.Campaigns.Reviews.{create_campaign_cases, review_campaign_cases}
use chihuo.Store.Orders.{is_open, priced, take_order, place_order, create_order}

-- What an order takes of the capacity of the campaign `k`.
abbrev pub takes : String → Order → ℕ
takes k o = if str_eq o.campaign_id k then pos_part o.quantity else 0

abbrev pub ordered_of : String → Dict Order → ℕ
ordered_of k orders = total (takes k) (values orders)

-- What holds of the campaign stored under `k`.
pub record IsBooked (orders : Dict Order) (k : String) (c : Campaign) : Type 0 where
  pub keyed : c.id ≡ k
  pub counted : c.current_orders ≡ pos (ordered_of k orders)
  pub limited : (ordered_of k orders ≡ 0) ⊎ (pos (ordered_of k orders) ≤ℤ c.maximum_orders)
  pub fits : c.maximum_orders <ℤ pos (2 ^ 62)

pub record OrdersConsistent (campaigns : Dict Campaign) (orders : Dict Order) : Type 0 where
  pub each : Each (IsBooked orders) campaigns
  -- no order is for a campaign that is not there
  pub strangers : (k : String) → lookup k campaigns ≡ none → ordered_of k orders ≡ 0

pub new-OrdersConsistent : OrdersConsistent new_memory_store.campaigns new_memory_store.orders
unfolding new_memory_store lookup values total
new-OrdersConsistent = record { each = λ k v e. cc; strangers = λ k e. refl }

-- The two ways that CreateOrder ends.
pub create_order_cases {ℓ} :
    (P : Result Error Order × MemoryStore → Type ℓ) (new_id : String) (now : Time)
    (input : CreateOrderInput) (s : MemoryStore)
    → ((e : Error) → P (err e, s))
    → ((c : Campaign)
        → lookup input.campaign_id s.campaigns ≡ some c
        → is_open c.status ≡ true
        → ltb_ℤ c.maximum_orders (c.current_orders +64 input.quantity) ≡ false
        → P (place_order new_id now input c s))
    → P (create_order new_id now input s)
unfolding create_order
create_order_cases P new_id now input s failed placed =
    elim (Option-cases (lookup input.campaign_id s.campaigns)) [
      | inl missing ↦ rw (missing, create_order) (failed not_found)
      | inr (c, found) ↦ elim (Bool-cases (is_open c.status)) [
        | inr shut ↦ rw (found, create_order) (rw shut (failed invalid))
        | inl opened ↦
            elim (Bool-cases (ltb_ℤ c.maximum_orders (c.current_orders +64 input.quantity))) [
              | inl full ↦ rw (found, create_order) (rw opened (rw full (failed conflict)))
              | inr room ↦
                  rw (found, create_order) (rw opened (rw room (placed c found opened room)))
            ]
      ]
    ]

-- A counter within its limit, and an amount that still fits, add up without wrapping.
raise_counter :
    (n q : ℕ) (count limit amount : ℤ)
    → count ≡ pos n
    → amount ≡ pos q
    → q < 2 ^ 62
    → (n ≡ 0) ⊎ (pos n ≤ℤ limit)
    → limit <ℤ pos (2 ^ 62)
    → ltb_ℤ limit (count +64 amount) ≡ false
    → (count +64 amount ≡ pos (n + q)) × (pos (n + q) ≤ℤ limit)
raise_counter n q count limit amount e a small within fits room = ground (arith, +64_exact n q)

take_order-IsBooked :
    (orders orders' : Dict Order) (k : String) (now : Time) (q : ℕ) (amount : ℤ) (c : Campaign)
    → amount ≡ pos q
    → q < 2 ^ 62
    → ltb_ℤ c.maximum_orders (c.current_orders +64 amount) ≡ false
    → ordered_of k orders' ≡ ordered_of k orders + q
    → IsBooked orders k c
    → IsBooked orders' k (take_order now amount c)
unfolding take_order
take_order-IsBooked orders orders' k now q amount c a small room more old =
    let (raised, within) =
      raise_counter (ordered_of k orders) q c.current_orders c.maximum_orders amount old.counted a
        small old.limited old.fits room in
    record {
      keyed = old.keyed;
      counted = raised ∙ ap pos (sym more);
      limited = inr (rw more within);
      fits = old.fits;
    }

place_order-OrdersConsistent :
    (new_id : String) (now : Time) (input : CreateOrderInput) (q : ℕ) (c : Campaign)
    (s : MemoryStore)
    → lookup new_id s.orders ≡ none
    → input.quantity ≡ pos q
    → q < 2 ^ 62
    → lookup input.campaign_id s.campaigns ≡ some c
    → ltb_ℤ c.maximum_orders (c.current_orders +64 input.quantity) ≡ false
    → OrdersConsistent s.campaigns s.orders
    → let s' = (place_order new_id now input c s).1 in OrdersConsistent s'.campaigns s'.orders
unfolding place_order priced
place_order-OrdersConsistent new_id now input q c s fresh a small found room inv = record {
  each = λ k v e. elim (lookup-insert_cases c.id k taken v s.campaigns e) [
    | inl (same_key, same_value) ↦
        subst₂ (λ j w. IsBooked after.orders j w) (sym old.keyed ∙ same_key) same_value
          (take_order-IsBooked s.orders after.orders input.campaign_id now q input.quantity c a
            small room
            (ground (arith, count input.campaign_id, eq_iff input.campaign_id input.campaign_id))
            old)
    | inr (other_key, stored) ↦
        let was = inv.each k v stored in
        let same = unmoved k (λ p. other_key (old.keyed ∙ p)) in
        record {
          keyed = was.keyed;
          counted = was.counted ∙ ap pos (sym same);
          limited = rw same was.limited;
          fits = was.fits;
        }
  ];
  strangers = λ k e.
      let missing = lookup-insert-none c.id k taken s.campaigns e in
      unmoved k (λ same. cc (ap (λ i. lookup i s.campaigns) same)) ∙ inv.strangers k missing;
}
  where
    after : MemoryStore
    after = (place_order new_id now input c s).1

    taken : Campaign
    taken = take_order now input.quantity c

    old : IsBooked s.orders input.campaign_id c
    old = inv.each input.campaign_id c found

    count :
        (k : String)
        → ordered_of k after.orders
          ≡ ordered_of k s.orders
            + (if str_eq input.campaign_id k then pos_part input.quantity else 0)
    count k = total-insert_new (takes k) new_id (priced new_id now input c) s.orders fresh

    unmoved :
        (k : String) → input.campaign_id ≢ k → ordered_of k after.orders ≡ ordered_of k s.orders
    unmoved k ne = ground (arith, count k, eq_iff input.campaign_id k)

-- Every call of CreateOrder keeps the counters exact and within capacity, as long as the quantity is
-- small enough that the sum cannot leave 64 bits.
pub create_order-OrdersConsistent :
    (new_id : String) (now : Time) (input : CreateOrderInput) (q : ℕ) (s : MemoryStore)
    → lookup new_id s.orders ≡ none
    → input.quantity ≡ pos q
    → q < 2 ^ 62
    → OrdersConsistent s.campaigns s.orders
    → let s' = (create_order new_id now input s).1 in OrdersConsistent s'.campaigns s'.orders
create_order-OrdersConsistent new_id now input q s fresh a small inv =
    create_order_cases (λ r. OrdersConsistent r.1.campaigns r.1.orders) new_id now input s
      (λ e. inv)
      (λ c found opened room.
        place_order-OrdersConsistent new_id now input q c s fresh a small found room inv)

-- Any change of a campaign that keeps its id, counter and limit.
update-OrdersConsistent :
    (k : String) (c c' : Campaign) (campaigns : Dict Campaign) (orders : Dict Order)
    → lookup k campaigns ≡ some c
    → c'.id ≡ c.id
    → c'.current_orders ≡ c.current_orders
    → c'.maximum_orders ≡ c.maximum_orders
    → OrdersConsistent campaigns orders
    → OrdersConsistent (insert k c' campaigns) orders
update-OrdersConsistent k c c' campaigns orders found ids counts limits inv =
    let old = inv.each k c found in
    record {
      each =
          Each-insert (IsBooked orders) k c' campaigns
            (record {
              keyed = ids ∙ old.keyed;
              counted = counts ∙ old.counted;
              limited = rw limits old.limited;
              fits = rw limits old.fits;
            })
            inv.each;
      strangers = λ j e. inv.strangers j (lookup-insert-none k j c' campaigns e);
    }

pub review_campaign-OrdersConsistent :
    (now : Time) (id : String) (input : ReviewInput) (s : MemoryStore)
    → OrdersConsistent s.campaigns s.orders
    → let s' = (review_campaign now id input s).1 in OrdersConsistent s'.campaigns s'.orders
review_campaign-OrdersConsistent now id input s inv =
    review_campaign_cases (λ r. OrdersConsistent r.1.campaigns r.1.orders) now id input s (λ e. inv)
      (λ c found _ _ _. rewrite c found) (λ c found _. rewrite c found)
  where
    rewrite :
        (c : Campaign)
        → lookup id s.campaigns ≡ some c
        → OrdersConsistent (insert id (reviewed_campaign now input c) s.campaigns) s.orders
    rewrite c found =
        update-OrdersConsistent id c (reviewed_campaign now input c) s.campaigns s.orders found
          (unfold reviewed_campaign in refl) (unfold reviewed_campaign in refl)
          (unfold reviewed_campaign in refl) inv

-- A campaign under a fresh id.
add-OrdersConsistent :
    (k : String) (c : Campaign) (campaigns : Dict Campaign) (orders : Dict Order)
    → lookup k campaigns ≡ none
    → c.id ≡ k
    → c.current_orders ≡ pos 0
    → c.maximum_orders <ℤ pos (2 ^ 62)
    → OrdersConsistent campaigns orders
    → OrdersConsistent (insert k c campaigns) orders
add-OrdersConsistent k c campaigns orders fresh ids zero_count fits inv = record {
  each =
      Each-insert (IsBooked orders) k c campaigns
        (record {
          keyed = ids;
          counted = zero_count ∙ ap pos (sym (inv.strangers k fresh));
          limited = inl (inv.strangers k fresh);
          fits = fits;
        })
        inv.each;
  strangers = λ j e. inv.strangers j (lookup-insert-none k j c campaigns e);
}

pub create_campaign-OrdersConsistent :
    (new_id : String) (now : Time) (input : CreateCampaignInput) (s : MemoryStore)
    → lookup new_id s.campaigns ≡ none
    → input.maximum_orders <ℤ pos (2 ^ 62)
    → OrdersConsistent s.campaigns s.orders
    → let s' = (create_campaign new_id now input s).1 in OrdersConsistent s'.campaigns s'.orders
create_campaign-OrdersConsistent new_id now input s fresh fits inv =
    create_campaign_cases (λ r. OrdersConsistent r.1.campaigns r.1.orders) new_id now input s
      (λ e. inv)
      (λ d o _ _ _ _ _.
        add-OrdersConsistent new_id (new_campaign new_id now input) s.campaigns s.orders fresh
          (unfold new_campaign in refl) (unfold new_campaign in refl) (unfold new_campaign in fits)
          inv)
