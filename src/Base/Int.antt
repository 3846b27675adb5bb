-- ===== src/Base/Int.antt =====
-- Signed integers over the native numbers, under the library's names (its ℤ stands on the unary ℕ),
-- and Go's int64: sums and products that wrap round, and division that truncates towards zero.
use Prim.Native.Nat.{ℕ, suc, ◌+◌, ◌-◌, ◌*◌, ◌/◌, ◌%◌, ◌^◌, ◌≤◌, ◌<◌}
use mathlib.Core.Path.{◌≡◌}
use mathlib.Core.Bool.{Bool}
use native.Mathlib.Omega.{arith}
use chihuo.Base.Tests.{ltb, leb, ◌==◌, if◌then◌else◌}

-- `negsuc n` is -(n + 1).
pub data ℤ : Type 0 where
  pos : ℕ → ℤ
  negsuc : ℕ → ℤ

abbrev pub pos_part : ℤ → ℕ
pos_part (pos n) = n
pos_part (negsuc n) = 0

abbrev pub neg_part : ℤ → ℕ
neg_part (pos n) = 0
neg_part (negsuc n) = suc n

-- a - b, as an integer.
abbrev pub sub_ℕ : ℕ → ℕ → ℤ
sub_ℕ a b = if leb b a then pos (a - b) else negsuc (b - a - 1)

infixl 65 ◌+ℤ◌
infixl 70 ◌*ℤ◌
infix 50 ◌≤ℤ◌ ◌<ℤ◌
unfoldable pub ◌+ℤ◌ : ℤ → ℤ → ℤ
a +ℤ b = sub_ℕ (pos_part a + pos_part b) (neg_part a + neg_part b)

unfoldable pub ◌*ℤ◌ : ℤ → ℤ → ℤ
a *ℤ b =
    sub_ℕ (pos_part a * pos_part b + neg_part a * neg_part b)
      (pos_part a * neg_part b + neg_part a * pos_part b)

abbrev pub ◌≤ℤ◌ : ℤ → ℤ → Type 0
a ≤ℤ b = pos_part a + neg_part b ≤ pos_part b + neg_part a

abbrev pub ◌<ℤ◌ : ℤ → ℤ → Type 0
a <ℤ b = pos_part a + neg_part b < pos_part b + neg_part a

abbrev pub ltb_ℤ : ℤ → ℤ → Bool
ltb_ℤ a b = ltb (pos_part a + neg_part b) (pos_part b + neg_part a)

abbrev pub leb_ℤ : ℤ → ℤ → Bool
leb_ℤ a b = leb (pos_part a + neg_part b) (pos_part b + neg_part a)

abbrev pub eqb_ℤ : ℤ → ℤ → Bool
eqb_ℤ a b = pos_part a + neg_part b == pos_part b + neg_part a

-- The int64 that a mathematical integer wraps to: its residue in [-2^63, 2^63).
unfoldable pub wrap64 : ℤ → ℤ
wrap64 (pos n) = let r = n % 2 ^ 64 in if ltb r (2 ^ 63) then pos r else negsuc (2 ^ 64 - 1 - r)
wrap64 (negsuc n) = let r = n % 2 ^ 64 in if ltb r (2 ^ 63) then negsuc r else pos (2 ^ 64 - 1 - r)

infixl 65 ◌+64◌
infixl 70 ◌*64◌
unfoldable pub ◌+64◌ : ℤ → ℤ → ℤ
a +64 b = wrap64 (a +ℤ b)

unfoldable pub ◌*64◌ : ℤ → ℤ → ℤ
a *64 b = wrap64 (a *ℤ b)

-- a / d for a positive constant d, truncated towards zero.
unfoldable pub quot_by : ℤ → ℕ → ℤ
quot_by (pos n) d = pos (n / d)
quot_by (negsuc n) d = sub_ℕ 0 (suc n / d)

-- Within the range of int64 nothing wraps.
pub wrap64_exact : (n : ℕ) → n < 2 ^ 63 → wrap64 (pos n) ≡ pos n
unfolding wrap64
wrap64_exact n h = ground arith

pub +ℤ_pos : (a b : ℕ) → pos a +ℤ pos b ≡ pos (a + b)
unfolding ◌+ℤ◌
+ℤ_pos a b = ground arith

pub *ℤ_pos : (a b : ℕ) → pos a *ℤ pos b ≡ pos (a * b)
unfolding ◌*ℤ◌
*ℤ_pos a b = ground arith

pub +64_exact : (a b : ℕ) → a + b < 2 ^ 63 → pos a +64 pos b ≡ pos (a + b)
unfolding ◌+64◌
+64_exact a b h = rw (+ℤ_pos a b) (wrap64_exact (a + b) h)

pub *64_exact : (a b : ℕ) → a * b < 2 ^ 63 → pos a *64 pos b ≡ pos (a * b)
unfolding ◌*64◌
*64_exact a b h = rw (*ℤ_pos a b) (wrap64_exact (a * b) h)
