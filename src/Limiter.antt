-- ===== src/Limiter.antt =====
-- backend-go/internal/ratelimit/limiter.go: the limiter of one process, which counts requests in
-- windows of a second. Allow holds the limiter's lock; it takes the clock's reading and returns
-- its answer and the limiter afterwards.
pub mod Windows
pub mod Quotas
use chihuo.Base.{ℕ, ◌*◌, ◌-◌, ◌/◌, String, Bool, List, [], ◌∷◌, ltb, ◌==◌, length, if◌then◌else◌}
use chihuo.Base.Dict.{Dict, get_or, insert}
use chihuo.Base.Int.{ℤ, pos, ltb_ℤ, leb_ℤ, ◌+64◌}
use chihuo.Domain.{Time}

pub record LocalBucket : Type 0 where
  pub window_start : Time
  pub count : ℤ

pub record LocalLimiter : Type 0 where
  pub rps : ℤ
  pub burst : ℤ
  pub bucket : Dict LocalBucket

-- NewLocal
unfoldable pub new_local : ℤ → ℤ → LocalLimiter
new_local rps burst = record { rps = rps; burst = burst; bucket = [] }

-- The zero value of a bucket, which a map read yields for a missing key.
abbrev pub zero_bucket : LocalBucket
zero_bucket = record { window_start = 0; count = pos 0 }

-- now.Truncate(time.Second)
unfoldable pub window_of : Time → Time
window_of now = now / 1_000_000_000 * 1_000_000_000

-- The smaller of the two bounds.
unfoldable pub limit_of : LocalLimiter → ℤ
limit_of l = if ltb_ℤ l.burst l.rps then l.burst else l.rps

-- The bucket of a key with one request more, in the window of `now`.
unfoldable pub counted : Time → LocalBucket → LocalBucket
unfolding window_of
counted now entry =
    let current : LocalBucket =
      if entry.window_start == window_of now
      then entry
      else record { window_start = window_of now; count = pos 0 } in
    record current { count = current.count +64 pos 1 }

-- The loop that deletes the buckets of windows that began more than two seconds ago.
unfoldable pub without_old : Time → Dict LocalBucket → Dict LocalBucket
without_old now [] = []
without_old now ((key, value) ∷ rest) =
    let kept = without_old now rest in
    if ltb 2_000_000_000 (now - value.window_start) then kept else (key, value) ∷ kept

unfoldable pub swept : Time → Dict LocalBucket → Dict LocalBucket
unfolding without_old
swept now bucket = if ltb 100_000 (length bucket) then without_old now bucket else bucket

-- LocalLimiter.Allow
unfoldable pub allow : Time → String → LocalLimiter → Bool × LocalLimiter
unfolding counted limit_of swept get_or
allow now key l =
    let entry = counted now (get_or zero_bucket key l.bucket) in
    (leb_ℤ entry.count (limit_of l), record l { bucket = swept now (insert key entry l.bucket) })
