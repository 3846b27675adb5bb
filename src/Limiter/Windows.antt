-- ===== src/Limiter/Windows.antt =====
-- The buckets of the limiter: what counting and deleting old buckets do to the bucket of a key.
use chihuo.Base.{
  ℕ, ◌+◌, ◌-◌, ◌^◌, ◌<◌, String, ◌≡◌, ◌≢◌, ◌⊎◌, refl, sym, subst, ◌∙◌, inl, inr, true, false,
  Option, none, some, [], ◌∷◌, arith, ltb, str_eq, eq_iff, length, Bool-cases, Option-cases,
}
use Prim.{Unit, tt}
use chihuo.Base.Dict.{Dict, lookup, get_or, insert, lookup-insert_self, lookup-insert_ne}
use chihuo.Base.Int.{pos, +64_exact}
use chihuo.Domain.{Time}
use chihuo.Limiter.{LocalBucket, LocalLimiter, zero_bucket, window_of, counted, without_old, swept}

-- The bucket counts n requests in the window that starts at w.
abbrev pub Counts : Time → ℕ → LocalBucket → Type 0
Counts w n b = ((b.window_start ≡ w) × (b.count ≡ pos n)) ⊎ ((b.window_start ≢ w) × (n ≡ 0))

-- So does the limiter for a key.
abbrev pub HasUsed : Time → String → ℕ → LocalLimiter → Type 0
HasUsed w k n l = Counts w n (get_or zero_bucket k l.bucket)

pub zero-Counts : (w : Time) → Counts w 0 zero_bucket
zero-Counts w = ground arith

pub counted_count :
    (now : Time) (w : Time) (n : ℕ) (b : LocalBucket)
    → window_of now ≡ w
    → n + 1 < 2 ^ 63
    → Counts w n b
    → ((counted now b).window_start ≡ w) × ((counted now b).count ≡ pos (n + 1))
unfolding counted
counted_count now w n b here small c = ground (arith, +64_exact n 1, +64_exact 0 1)

current_kept : (now w : Time) → window_of now ≡ w → ltb 2_000_000_000 (now - w) ≡ false
unfolding window_of
current_kept now w here = ground arith

-- The sweep keeps a bucket of the current window and drops nothing into being.
lookup-without_old :
    (now : Time) (k : String) (m : Dict LocalBucket) (b : LocalBucket)
    → lookup k m ≡ some b
    → ltb 2_000_000_000 (now - b.window_start) ≡ false
    → lookup k (without_old now m) ≡ some b
unfolding lookup without_old
lookup-without_old now k [] b found young = cc
lookup-without_old now k ((j, c) ∷ m) b found young = elim (Bool-cases (str_eq j k)) [
  | inl same ↦ ground (arith, same)
  | inr other ↦ ground (arith, other, lookup-without_old now k m b)
]

without_old-none :
    (now : Time) (k : String) (m : Dict LocalBucket)
    → lookup k m ≡ none
    → lookup k (without_old now m) ≡ none
unfolding lookup without_old
without_old-none now k [] missing = refl
without_old-none now k ((j, c) ∷ m) missing = ground (arith, missing, without_old-none now k m)

-- A map has one entry for a key.
abbrev pub Distinct : Dict LocalBucket → Type 0
Distinct [] = Unit {0}
Distinct ((k, b) ∷ m) = (lookup k m ≡ none) × Distinct m

pub insert-Distinct :
    (k : String) (b : LocalBucket) (m : Dict LocalBucket) → Distinct m → Distinct (insert k b m)
unfolding lookup insert
insert-Distinct k b [] d = (refl, tt)
insert-Distinct k b ((j, c) ∷ m) d = elim (Bool-cases (str_eq j k)) [
  | inl same ↦ rw (same, insert) d
  | inr other ↦
      rw (other, insert)
        (
          lookup-insert_ne k j b m (λ e. ground (arith, other, e, eq_iff j k)) ∙ d.0,
          insert-Distinct k b m d.1,
        )
]

without_old-Distinct :
    (now : Time) (m : Dict LocalBucket) → Distinct m → Distinct (without_old now m)
unfolding lookup without_old
without_old-Distinct now [] d = tt
without_old-Distinct now ((j, c) ∷ m) d =
    elim (Bool-cases (ltb 2_000_000_000 (now - c.window_start))) [
      | inl old ↦ rw (old, without_old) (without_old-Distinct now m d.1)
      | inr young ↦
          rw (young, without_old) (without_old-none now j m d.0, without_old-Distinct now m d.1)
    ]

pub swept-Distinct : (now : Time) (m : Dict LocalBucket) → Distinct m → Distinct (swept now m)
unfolding swept
swept-Distinct now m d = elim (Bool-cases (ltb 100_000 (length m))) [
  | inl large ↦ rw large (without_old-Distinct now m d)
  | inr small ↦ rw small d
]

-- An old bucket is deleted.
lookup-without_old-old :
    (now : Time) (k : String) (m : Dict LocalBucket) (b : LocalBucket)
    → Distinct m
    → lookup k m ≡ some b
    → ltb 2_000_000_000 (now - b.window_start) ≡ true
    → lookup k (without_old now m) ≡ none
unfolding lookup without_old
lookup-without_old-old now k [] b d found old = refl
lookup-without_old-old now k ((j, c) ∷ m) b d found old = elim (Bool-cases (str_eq j k)) [
  | inl same ↦ ground (arith, same, found, old, eq_iff j k, d.0, without_old-none now j m)
  | inr other ↦ ground (arith, other, found, old, lookup-without_old-old now k m b d.1)
]

get_or_of :
    (k : String) (m : Dict LocalBucket) (o : Option LocalBucket)
    → lookup k m ≡ o
    → get_or zero_bucket k m ≡ (elim o [ none ↦ zero_bucket | some b ↦ b ])
unfolding get_or
get_or_of k m o e = rw (e, get_or) refl

-- Deleting old buckets changes nothing for a key whose window is the current one, or that has no
-- request in the window.
without_old-Counts :
    (now w : Time) (n : ℕ) (k : String) (m : Dict LocalBucket)
    → Distinct m
    → (window_of now ≡ w) ⊎ (n ≡ 0)
    → Counts w n (get_or zero_bucket k m)
    → Counts w n (get_or zero_bucket k (without_old now m))
without_old-Counts now w n k m d which c = elim (Option-cases (lookup k m)) [
  | inl missing ↦
      rw (get_or_of k (without_old now m) none (without_old-none now k m missing))
        (subst (Counts w n) (get_or_of k m none missing) c)
  | inr (b, found) ↦
      let had = subst (Counts w n) (get_or_of k m (some b) found) c in
      elim (Bool-cases (ltb 2_000_000_000 (now - b.window_start))) [
        | inr young ↦
            rw (get_or_of k (without_old now m) (some b) (lookup-without_old now k m b found young))
              had
        | inl old ↦
            rw (get_or_of k (without_old now m) none (lookup-without_old-old now k m b d found old))
              (subst (λ i. Counts w i zero_bucket) (sym (none_counted now w n b which had old))
                (zero-Counts w))
      ]
]
  where
    none_counted :
        (now w : Time) (n : ℕ) (b : LocalBucket)
        → (window_of now ≡ w) ⊎ (n ≡ 0)
        → Counts w n b
        → ltb 2_000_000_000 (now - b.window_start) ≡ true
        → n ≡ 0
    none_counted now w n b (inr e) c old = e
    none_counted now w n b (inl here) (inr other) old = other.1
    none_counted now w n b (inl here) (inl same) old =
        ground (arith, same.0, old, current_kept now w here)

pub swept-Counts :
    (now w : Time) (n : ℕ) (k : String) (m : Dict LocalBucket)
    → Distinct m
    → (window_of now ≡ w) ⊎ (n ≡ 0)
    → Counts w n (get_or zero_bucket k m)
    → Counts w n (get_or zero_bucket k (swept now m))
unfolding swept
swept-Counts now w n k m d which c = elim (Bool-cases (ltb 100_000 (length m))) [
  | inl large ↦ rw large (without_old-Counts now w n k m d which c)
  | inr small ↦ rw small c
]

-- A request in another window leaves none counted in this one.
pub counted-elsewhere :
    (now w : Time) (b : LocalBucket) → window_of now ≢ w → Counts w 0 (counted now b)
unfolding counted
counted-elsewhere now w b other = ground (arith, other)

pub get_or-insert_self :
    (k : String) (b : LocalBucket) (m : Dict LocalBucket) → get_or zero_bucket k (insert k b m) ≡ b
get_or-insert_self k b m = get_or_of k (insert k b m) (some b) (lookup-insert_self k b m)

pub get_or-insert_ne :
    (j k : String) (b : LocalBucket) (m : Dict LocalBucket)
    → j ≢ k
    → get_or zero_bucket k (insert j b m) ≡ get_or zero_bucket k m
get_or-insert_ne j k b m other =
    get_or_of k (insert j b m) (lookup k m) (lookup-insert_ne j k b m other)
    ∙ sym (get_or_of k m (lookup k m) refl)
