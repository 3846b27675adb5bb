-- ===== src/Examples/Limits.antt =====
-- The limiter: one request in an earlier window, then three in one second with a limit of two.
use Prim.{tt}
use Prim.Native.Nat.{min}
use chihuo.Base.{◌≡◌, ◌≢◌, refl, List, [], ◌∷◌, All, arith, ◌<◌, ◌^◌}
use chihuo.Base.Int.{pos}
use chihuo.Limiter.{new_local, window_of}
use chihuo.Limiter.Quotas.{Request, asked, granted, serve, granted-eq-min}

abbrev before : List Request
before = (500_000_000, "ann") ∷ []

abbrev burst : List Request
burst =
    (1_000_000_000, "ann")
    ∷ (1_000_000_001, "bob")
    ∷ (1_500_000_000, "ann")
    ∷ (1_999_999_999, "ann")
    ∷ []

before_elsewhere : All (λ r. window_of r.0 ≢ 1_000_000_000) before
unfolding window_of
before_elsewhere = (λ e. omega (arith, e), tt)

burst_here : All (λ r. window_of r.0 ≡ 1_000_000_000) burst
unfolding window_of
burst_here = (refl, (refl, (refl, (refl, tt))))

asked_few : asked "ann" burst < 2 ^ 63
unfolding asked
asked_few = omega arith

granted-eq-min_example :
    granted "ann" burst (serve before (new_local (pos 2) (pos 5)))
    ≡ min (asked "ann" burst) (min 2 5)
granted-eq-min_example =
    granted-eq-min (pos 2) (pos 5) before burst "ann" 1_000_000_000 before_elsewhere burst_here
      asked_few
