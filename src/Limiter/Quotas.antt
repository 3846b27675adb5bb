-- ===== src/Limiter/Quotas.antt =====
-- What the limiter grants to a key within one window.
use Prim.{tt}
use Prim.Native.Nat.{min}
use chihuo.Base.{
  ℕ, ◌+◌, ◌^◌, ◌<◌, String, ◌≡◌, ◌≢◌, ◌⊎◌, refl, sym, subst, ap, ◌∙◌, inl, inr, false, List, [],
  ◌∷◌, arith, str_eq, eq_iff, All, if◌then◌else◌, Bool-cases,
}
use chihuo.Base.Dict.{lookup, get_or, insert}
use chihuo.Base.Int.{ℤ, pos, pos_part, leb_ℤ}
use chihuo.Domain.{Time}
use chihuo.Limiter.{LocalLimiter, new_local, zero_bucket, window_of, limit_of, counted, allow}
use chihuo.Limiter.Windows.{
  Counts, HasUsed, Distinct, zero-Counts, insert-Distinct, swept-Distinct, counted_count,
  swept-Counts, counted-elsewhere, get_or-insert_self, get_or-insert_ne,
}

-- A request: the time at which it is counted, and its key.
abbrev pub Request : Type 0
Request = Time × String

-- How many requests of a list are the key's, and how many of those the limiter grants, run in order.
unfoldable pub asked : String → List Request → ℕ
asked k [] = 0
asked k ((now, key) ∷ rest) = (if str_eq key k then 1 else 0) + asked k rest

unfoldable pub granted : String → List Request → LocalLimiter → ℕ
granted k [] l = 0
granted k ((now, key) ∷ rest) l =
    let (answer, after) = allow now key l in
    (if str_eq key k then (if answer then 1 else 0) else 0) + granted k rest after

-- The limiter after the requests of a list.
unfoldable pub serve : List Request → LocalLimiter → LocalLimiter
serve [] l = l
serve ((now, key) ∷ rest) l = serve rest (allow now key l).1

allow-Distinct :
    (now : Time) (key : String) (l : LocalLimiter)
    → Distinct l.bucket
    → Distinct (allow now key l).1.bucket
unfolding allow
allow-Distinct now key l d = swept-Distinct now _ (insert-Distinct key _ l.bucket d)

-- A request of the key in the window is counted, and granted up to the limit.
allow_here :
    (now w : Time) (k : String) (n : ℕ) (l : LocalLimiter)
    → Distinct l.bucket
    → window_of now ≡ w
    → n + 1 < 2 ^ 63
    → HasUsed w k n l
    → ((allow now k l).0 ≡ leb_ℤ (pos (n + 1)) (limit_of l)) × HasUsed w k (n + 1) (allow now k l).1
unfolding allow
allow_here now w k n l d here small used =
    let entry = counted now (get_or zero_bucket k l.bucket) in
    let (begun, number) = counted_count now w n (get_or zero_bucket k l.bucket) here small used in
    (
      ap (λ c. leb_ℤ c (limit_of l)) number,
      swept-Counts now w (n + 1) k (insert k entry l.bucket) (insert-Distinct k entry l.bucket d)
          (inl here)
          (subst (Counts w (n + 1)) (sym (get_or-insert_self k entry l.bucket))
            (inl (begun, number))),
    )

-- A request of another key changes nothing for this one.
allow_other :
    (now w : Time) (j k : String) (n : ℕ) (l : LocalLimiter)
    → Distinct l.bucket
    → (window_of now ≡ w) ⊎ (n ≡ 0)
    → j ≢ k
    → HasUsed w k n l
    → HasUsed w k n (allow now j l).1
unfolding allow
allow_other now w j k n l d which other used =
    let entry = counted now (get_or zero_bucket j l.bucket) in
    swept-Counts now w n k (insert j entry l.bucket) (insert-Distinct j entry l.bucket d) which
      (subst (Counts w n) (sym (get_or-insert_ne j k entry l.bucket other)) used)

-- A request in another window leaves none counted in this one.
allow_elsewhere :
    (now w : Time) (j k : String) (l : LocalLimiter)
    → Distinct l.bucket
    → window_of now ≢ w
    → HasUsed w k 0 l
    → HasUsed w k 0 (allow now j l).1
unfolding allow
allow_elsewhere now w j k l d away used =
    let entry = counted now (get_or zero_bucket j l.bucket) in
    elim (Bool-cases (str_eq j k)) [
      | inl same ↦
          swept-Counts now w 0 k (insert j entry l.bucket) (insert-Distinct j entry l.bucket d)
            (inr refl)
            (subst (λ i. Counts w 0 (get_or zero_bucket i (insert j entry l.bucket)))
              ((eq_iff j k).0 same)
              (subst (Counts w 0) (sym (get_or-insert_self j entry l.bucket))
                (counted-elsewhere now w (get_or zero_bucket j l.bucket) away)))
      | inr other ↦
          allow_other now w j k 0 l d (inr refl) (λ e. ground (arith, other, e, eq_iff j k)) used
    ]

limit_kept :
    (now : Time) (key : String) (l : LocalLimiter) → limit_of (allow now key l).1 ≡ limit_of l
unfolding allow limit_of
limit_kept now key l = refl

-- One more granted, as long as the limit is not reached.
grant_step :
    (n more : ℕ) (limit : ℤ) (g : ℕ)
    → g + min (n + 1) (pos_part limit) ≡ min (n + 1 + more) (pos_part limit)
    → (if leb_ℤ (pos (n + 1)) limit then 1 else 0) + g + min n (pos_part limit)
      ≡ min (n + (1 + more)) (pos_part limit)
grant_step n more limit g h = ground (arith, h)

-- What n requests counted before, and a list of requests, add up to.
abbrev AddsUp : List Request → LocalLimiter → String → ℕ → Type 0
AddsUp calls l k n =
    granted k calls l + min n (pos_part (limit_of l))
    ≡ min (n + asked k calls) (pos_part (limit_of l))

first_granted :
    (now : Time) (rest : List Request) (l : LocalLimiter) (k : String) (n : ℕ)
    → (allow now k l).0 ≡ leb_ℤ (pos (n + 1)) (limit_of l)
    → AddsUp rest (allow now k l).1 k (n + 1)
    → AddsUp ((now, k) ∷ rest) l k n
unfolding granted asked
first_granted now rest l k n answer more =
    rw ((eq_iff k k).1 refl, answer)
      (grant_step n (asked k rest) (limit_of l) (granted k rest (allow now k l).1) (
        subst
          (λ m.
            granted k rest (allow now k l).1 + min (n + 1) (pos_part m)
            ≡ min (n + 1 + asked k rest) (pos_part m))
          (limit_kept now k l) more))

first_other :
    (now : Time) (key : String) (rest : List Request) (l : LocalLimiter) (k : String) (n : ℕ)
    → str_eq key k ≡ false
    → AddsUp rest (allow now key l).1 k n
    → AddsUp ((now, key) ∷ rest) l k n
unfolding granted asked
first_other now key rest l k n other more =
    let kept =
      subst
        (λ m.
          granted k rest (allow now key l).1 + min n (pos_part m)
          ≡ min (n + asked k rest) (pos_part m))
        (limit_kept now key l) more in
    rw other (ground (arith, kept))

granted_from :
    (calls : List Request) (l : LocalLimiter) (k : String) (w : Time) (n : ℕ)
    → Distinct l.bucket
    → All (λ r. window_of r.0 ≡ w) calls
    → n + asked k calls < 2 ^ 63
    → HasUsed w k n l
    → AddsUp calls l k n
unfolding granted asked
granted_from [] l k w n d here small used = ground arith
granted_from ((now, key) ∷ rest) l k w n d here small used = elim (Bool-cases (str_eq key k)) [
  | inl same ↦
      let (answer, after) = allow_here now w k n l d here.0 (ground (arith, small, same)) used in
      subst (λ j. AddsUp ((now, j) ∷ rest) l k n) (sym ((eq_iff key k).0 same))
        (first_granted now rest l k n answer (
          granted_from rest (allow now k l).1 k w (n + 1) (allow-Distinct now k l d) here.1
            (ground (arith, small, same)) after))
  | inr other ↦ first_other now key rest l k n other (
      granted_from rest (allow now key l).1 k w n (allow-Distinct now key l d) here.1
        (ground (arith, small, other))
        (allow_other now w key k n l d (inl here.0) (λ e. ground (arith, other, e, eq_iff key k))
          used))
]

smaller_limit :
    (rps burst : ℤ) (n g : ℕ)
    → let limit = limit_of (new_local rps burst) in
      g + min 0 (pos_part limit) ≡ min (0 + n) (pos_part limit)
      → g ≡ min n (min (pos_part rps) (pos_part burst))
unfolding limit_of new_local
smaller_limit rps burst n g h = ground (arith, h)

serve_elsewhere :
    (calls : List Request) (l : LocalLimiter) (k : String) (w : Time)
    → Distinct l.bucket
    → All (λ r. window_of r.0 ≢ w) calls
    → HasUsed w k 0 l
    → Distinct (serve calls l).bucket
      × HasUsed w k 0 (serve calls l)
      × (limit_of (serve calls l) ≡ limit_of l)
unfolding serve
serve_elsewhere [] l k w d away used = (d, used, refl)
serve_elsewhere ((now, key) ∷ rest) l k w d away used =
    let (d', used', limit') =
      serve_elsewhere rest (allow now key l).1 k w (allow-Distinct now key l d) away.1
        (allow_elsewhere now w key k l d away.0 used) in
    (d', used', limit' ∙ limit_kept now key l)

-- Within one window, a key that asks n times is granted exactly the smaller of n and the limit, which
-- is the smaller of the two bounds the limiter was made with and counts as 0 if it is negative. This
-- holds whatever requests the limiter served before in other windows, and whatever other keys ask
-- for in between.
pub granted-eq-min :
    (rps burst : ℤ) (earlier calls : List Request) (k : String) (w : Time)
    → All (λ r. window_of r.0 ≢ w) earlier
    → All (λ r. window_of r.0 ≡ w) calls
    → asked k calls < 2 ^ 63
    → granted k calls (serve earlier (new_local rps burst))
      ≡ min (asked k calls) (min (pos_part rps) (pos_part burst))
unfolding new_local get_or lookup
granted-eq-min rps burst earlier calls k w away here small =
    let (d, used, limit) =
      serve_elsewhere earlier (new_local rps burst) k w tt away (zero-Counts w) in
    smaller_limit rps burst (asked k calls) (granted k calls (serve earlier (new_local rps burst)))
      (subst
        (λ m.
          granted k calls (serve earlier (new_local rps burst)) + min 0 (pos_part m)
          ≡ min (0 + asked k calls) (pos_part m))
        limit
        (granted_from calls (serve earlier (new_local rps burst)) k w 0 d here
          (omega (arith, small)) used))
