-- ===== src/Store/Orders/Prices.antt =====
-- What an order costs, and what its quantity can do to the capacity check.
use chihuo.Base.{
  ℕ, ◌+◌, ◌*◌, ◌/◌, ◌^◌, ◌≤◌, ◌<◌, String, ◌≡◌, refl, ◌∙◌, ap, true, false, some, ok, arith,
}
use chihuo.Base.Dict.{lookup, lookup-insert_at}
use chihuo.Base.Int.{ℤ, pos, ◌<ℤ◌, ltb_ℤ, ◌+64◌, quot_by, ◌+ℤ◌, wrap64, +64_exact, *64_exact}
use chihuo.Domain.{Time, Campaign}
use chihuo.Store.{CreateOrderInput, MemoryStore}
use chihuo.Store.Orders.{
  is_open, subtotal_of, platform_fee_of, priced, take_order, place_order, create_order,
}

fee_share : (x b : ℕ) → b ≤ 2_000 → x * b / 10_000 * 5 ≤ x
fee_share x b h = grind arith

-- A sum of two numbers of 63 bits that needs a 64th is negative.
wraps_negative : (n q : ℕ) → n < 2 ^ 63 → q < 2 ^ 63 → 2 ^ 63 ≤ n + q → pos n +64 pos q <ℤ pos 0
unfolding ◌+64◌ wrap64 ◌+ℤ◌
wraps_negative n q a b h = ground arith

module _ (c : Campaign) (u q b f : ℕ) (price : c.unit_price_cents ≡ pos u)
    (bps : c.platform_fee_bps ≡ pos b) (delivery : c.delivery_fee_cents ≡ pos f)
    (small : u * q * b < 2 ^ 63) (fits : u * q + f + u * q * b / 10_000 < 2 ^ 63) where
  subtotal_exact : subtotal_of c (pos q) ≡ pos (u * q)
  unfolding subtotal_of
  subtotal_exact = rw price (*64_exact u q (omega arith))

  platform_fee_exact : platform_fee_of c (pos q) ≡ pos (u * q * b / 10_000)
  unfolding platform_fee_of quot_by
  platform_fee_exact = rw (subtotal_exact, bps, *64_exact (u * q) b small)

  total_exact :
      subtotal_of c (pos q) +64 c.delivery_fee_cents +64 platform_fee_of c (pos q)
      ≡ pos (u * q + f + u * q * b / 10_000)
  total_exact =
      simp (subtotal_exact, delivery, platform_fee_exact)
        (simp (+64_exact (u * q) f (omega arith)) (+64_exact (u * q + f) (u * q * b / 10_000) fits))

-- For a price of u cents, a quantity q, a platform fee of b basis points, at most 2,000 as campaigns
-- require, and a delivery fee of f cents, as long as u * q * b and the total stay within int64, the
-- order is charged exactly u * q, its share of b in 10,000 rounded down, the delivery fee, and their
-- sum; and the platform fee is at most a fifth of the subtotal.
pub priced_exact :
    (new_id : String) (now : Time) (input : CreateOrderInput) (c : Campaign) (u q b f : ℕ)
    → input.quantity ≡ pos q
    → c.unit_price_cents ≡ pos u
    → c.platform_fee_bps ≡ pos b
    → c.delivery_fee_cents ≡ pos f
    → b ≤ 2_000
    → u * q * b < 2 ^ 63
    → u * q + f + u * q * b / 10_000 < 2 ^ 63
    → let o = priced new_id now input c in
      (o.subtotal_cents ≡ pos (u * q))
      × (o.platform_fee_cents ≡ pos (u * q * b / 10_000))
      × (o.delivery_fee_cents ≡ pos f)
      × (o.total_cents ≡ pos (u * q + u * q * b / 10_000 + f))
      × (u * q * b / 10_000 * 5 ≤ u * q)
unfolding priced
priced_exact new_id now input c u q b f quantity price bps delivery cap small fits = (
  rw quantity (subtotal_exact c u q b f price bps delivery small fits),
  rw quantity (platform_fee_exact c u q b f price bps delivery small fits),
  delivery,
  rw quantity (total_exact c u q b f price bps delivery small fits ∙ ap pos (omega arith)),
  fee_share (u * q) b cap,
)

check_passes : (m : ℕ) (max sum : ℤ) → max ≡ pos m → sum <ℤ pos 0 → ltb_ℤ max sum ≡ false
check_passes m max sum e h = ground arith

-- An open campaign whose check passes takes the order.
pub create_order-eq-place_order :
    (new_id : String) (now : Time) (input : CreateOrderInput) (s : MemoryStore) (c : Campaign)
    → lookup input.campaign_id s.campaigns ≡ some c
    → is_open c.status ≡ true
    → ltb_ℤ c.maximum_orders (c.current_orders +64 input.quantity) ≡ false
    → create_order new_id now input s ≡ place_order new_id now input c s
unfolding create_order
create_order-eq-place_order new_id now input s c found opened room =
    rw (found, create_order) (rw opened (rw room))

-- The capacity check adds in int64. Where a campaign has orders, a quantity that takes their sum past
-- the largest int64 passes the check, the order is stored, and the campaign's counter becomes
-- negative: for every open campaign with a maximum m ≥ 0 and a counter n, and every quantity q below
-- 2^63 with n + q ≥ 2^63.
pub create_order_overflow :
    (new_id : String) (now : Time) (input : CreateOrderInput) (s : MemoryStore) (c : Campaign)
    (m n q : ℕ)
    → lookup input.campaign_id s.campaigns ≡ some c
    → c.id ≡ input.campaign_id
    → is_open c.status ≡ true
    → c.maximum_orders ≡ pos m
    → c.current_orders ≡ pos n
    → n < 2 ^ 63
    → input.quantity ≡ pos q
    → q < 2 ^ 63
    → 2 ^ 63 ≤ n + q
    → (c' : Campaign) × ((create_order new_id now input s).0 ≡ ok (priced new_id now input c))
      × (lookup input.campaign_id (create_order new_id now input s).1.campaigns ≡ some c')
      × (c'.current_orders <ℤ pos 0)
create_order_overflow new_id now input s c m n q found keyed opened max count nsmall amount qsmall
      over =
    let negative : c.current_orders +64 input.quantity <ℤ pos 0 =
      rw (count, amount) (wraps_negative n q nsmall qsmall over) in
    let passes =
      check_passes m c.maximum_orders (c.current_orders +64 input.quantity) max negative in
    let placed = create_order-eq-place_order new_id now input s c found opened passes in
    (
      take_order now input.quantity c,
      rw placed (unfold place_order in refl),
      rw placed (
          unfold place_order in
          lookup-insert_at c.id input.campaign_id (take_order now input.quantity c) s.campaigns
            keyed),
      unfold take_order in negative,
    )
