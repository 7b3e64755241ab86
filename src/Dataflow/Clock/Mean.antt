-- ===== src/Dataflow/Clock/Mean.antt =====
-- The mean of `advanceTimeStep` in src/traact/dataflow/taskflow/TimeDomainClock.cpp, which is
-- summed up in a `uint64_t`.
use native.Mathlib.Nat.{le-div_iff_mul-le, div-le_of_le-mul}
use traact_core.Prelude.{
  ℕ, suc, ◌+◌, ◌*◌, ◌/◌, ◌%◌, ◌^◌, ◌≤◌, ◌<◌, ◌≡◌, List, [], ◌∷◌, arith, length,
}
use traact_core.Prelude.Int.{pos, negsuc, ◌≤ℤ◌}
use traact_core.Datatypes.{Timestamp}
use traact_core.Dataflow.Clock.{mean_timestamp, sum_timestamps}

-- Every timestamp lies between `lo` and `hi`, both not negative.
abbrev pub Between : ℕ → ℕ → List Timestamp → Type 0
Between lo hi [] = Unit {0}
Between lo hi (t ∷ ts) = ((pos lo ≤ℤ t) × (t ≤ℤ pos hi)) × Between lo hi ts

sum_bounds :
    (acc lo hi : ℕ) (ts : List Timestamp)
    → Between lo hi ts
    → acc + length ts * hi < 2 ^ 64
    → (acc + length ts * lo ≤ sum_timestamps acc ts)
      × (sum_timestamps acc ts ≤ acc + length ts * hi)
unfolding sum_timestamps
sum_bounds acc lo hi [] b h = omega arith
sum_bounds acc lo hi (pos n ∷ ts) b h =
    let step : (acc + n % 2 ^ 64) % 2 ^ 64 ≡ acc + n = omega arith in
    rw step (omega (arith, sum_bounds (acc + n) lo hi ts b.1 (omega arith)))
sum_bounds acc lo hi (negsuc n ∷ ts) b h = absurd (omega arith)

div_between :
    (s l lo hi : ℕ) → suc l * lo ≤ s → s ≤ suc l * hi → (lo ≤ s / suc l) × (s / suc l ≤ hi)
div_between s l lo hi h k =
    ((le-div_iff_mul-le (omega arith)).1 (omega arith), div-le_of_le-mul (suc l) k)

-- If the timestamps lie between `lo` and `hi` and their number times `hi` is below 2^64, with `hi`
-- an `int64_t`, then so does their mean.
pub mean_timestamp_bounds :
    (lo hi : ℕ) (t : Timestamp) (ts : List Timestamp)
    → Between lo hi (t ∷ ts)
    → length (t ∷ ts) * hi < 2 ^ 64
    → hi < 2 ^ 63
    → (pos lo ≤ℤ mean_timestamp (t ∷ ts)) × (mean_timestamp (t ∷ ts) ≤ℤ pos hi)
unfolding mean_timestamp
mean_timestamp_bounds lo hi t ts b h k =
    let total = sum_bounds 0 lo hi (t ∷ ts) b (omega arith) in
    let bounds =
      div_between (sum_timestamps 0 (t ∷ ts)) (length ts) lo hi (omega arith) (omega arith) in
    ground arith
