-- ===== src/Dataflow/Clock.antt =====
-- src/traact/dataflow/taskflow/TimeDomainClock.{h,cpp}, the clock of a time domain.
-- The `double` products with the weights `alpha_0_` and `alpha_1_` are the functions of `Weights`.

pub mod Laws
pub mod Mean
mod Examples
use traact_core.Prelude.{
  ℕ, ◌+◌, ◌-◌, ◌/◌, ◌%◌, ◌^◌, Bool, ◌||◌, List, [], ◌∷◌, ◌++◌, ltb, if◌then◌else◌, length,
}
use traact_core.Prelude.Int.{ℤ, pos, negsuc, sub_ℕ, ◌+ℤ◌, ◌-ℤ◌, ltb_ℤ, leb_ℤ, eqb_ℤ}
use traact_core.Datatypes.{Timestamp, TimeDuration, timestamp_zero, is_within_range}

-- `int64_t` to `uint64_t`, and back.
abbrev pub to_uint64 : ℤ → ℕ
to_uint64 (pos n) = n % 2 ^ 64
to_uint64 (negsuc n) = 2 ^ 64 - 1 - n % 2 ^ 64

abbrev pub to_int64 : ℕ → ℤ
to_int64 n = let r = n % 2 ^ 64 in if ltb r (2 ^ 63) then pos r else sub_ℕ r (2 ^ 64)

-- `scale_0 t` is `uint64_t(t * alpha_0_)`, `scale_1 t` is `uint64_t(t * alpha_1_)`, and
-- `blend delta diff` is `uint64_t(delta * alpha_0_ + diff * alpha_1_)`.
pub record Weights : Type 0 where
  pub scale_0 : ℤ → ℕ
  pub scale_1 : ℤ → ℕ
  pub blend : ℤ → ℤ → ℕ

pub record TimeDomainClock : Type 0 where
  pub weights : Weights
  pub max_offset : TimeDuration
  pub sensor_delta_mean : TimeDuration
  pub current_time_step : ℕ
  pub initial_timestamp_mean : Timestamp
  pub current_timestamp : Timestamp
  pub expected_next_timestamp : Timestamp
  pub received_next_timestamps : List Timestamp

-- The constructor; `period` is `uint64_t(one_second / expected_sensor_frequency_)`.
unfoldable pub init : Weights → ℕ → TimeDuration → TimeDomainClock
init w period offset = record {
  weights = w;
  max_offset = offset;
  sensor_delta_mean = to_int64 period;
  current_time_step = 0;
  initial_timestamp_mean = timestamp_zero;
  current_timestamp = timestamp_zero;
  expected_next_timestamp = timestamp_zero;
  received_next_timestamps = [];
}

unfoldable pub is_next_expected : TimeDomainClock → Timestamp → Bool
is_next_expected c next = is_within_range c.expected_next_timestamp next c.max_offset

unfoldable pub is_further_ahead : TimeDomainClock → Timestamp → Bool
is_further_ahead c next = ltb_ℤ (c.expected_next_timestamp +ℤ c.max_offset) (next -ℤ c.max_offset)

unfoldable pub is_next_expected_or_bigger : TimeDomainClock → Timestamp → Bool
unfolding is_next_expected
is_next_expected_or_bigger c next = is_next_expected c next || leb_ℤ c.expected_next_timestamp next

-- The sum of `get_mean_timestamp`, in a `uint64_t`.
pub sum_timestamps : ℕ → List Timestamp → ℕ
sum_timestamps mean_ts [] = mean_ts
sum_timestamps mean_ts (t ∷ ts) = sum_timestamps ((mean_ts + to_uint64 t) % 2 ^ 64) ts

pub mean_timestamp : List Timestamp → Timestamp
mean_timestamp [] = timestamp_zero
mean_timestamp (t ∷ ts) = to_int64 (sum_timestamps 0 (t ∷ ts) / length (t ∷ ts))

-- The first part of `advanceTimeStep`: the sensor period, from the timestamps received.
next_delta : TimeDomainClock → List Timestamp → TimeDuration
next_delta c [] = c.sensor_delta_mean
next_delta c (t ∷ ts) =
    let mean_next = mean_timestamp (t ∷ ts) in
    let time_diff = mean_next -ℤ c.current_timestamp in
    to_int64 (c.weights.blend c.sensor_delta_mean time_diff)

unfoldable pub advance_time_step : TimeDomainClock → TimeDomainClock
unfolding next_delta mean_timestamp sum_timestamps
advance_time_step c =
    let delta = next_delta c c.received_next_timestamps in
    record c {
      sensor_delta_mean = delta;
      current_time_step = (c.current_time_step + 1) % 2 ^ 64;
      current_timestamp = c.expected_next_timestamp;
      expected_next_timestamp = c.expected_next_timestamp +ℤ delta;
      received_next_timestamps = [];
    }

unfoldable pub get_next_expected : TimeDomainClock → Timestamp × TimeDomainClock
unfolding advance_time_step
get_next_expected c = (c.expected_next_timestamp, advance_time_step c)

-- Another source reports the first timestamp: the running average.
average_initial : TimeDomainClock → Timestamp → TimeDomainClock
average_initial c timestamp =
    let ts_init = c.weights.scale_0 c.initial_timestamp_mean in
    let ts_other = c.weights.scale_1 timestamp in
    let mean = to_int64 (ts_init + ts_other) in
    record c { initial_timestamp_mean = mean; current_timestamp = mean }

unfoldable pub new_timestamp : Timestamp → TimeDomainClock → TimeDomainClock
unfolding average_initial is_next_expected
new_timestamp timestamp c =
    if eqb_ℤ c.initial_timestamp_mean timestamp_zero
    then record c {
      initial_timestamp_mean = timestamp;
      expected_next_timestamp = timestamp;
      current_timestamp = timestamp;
      current_time_step = 0;
    }
    else if is_within_range c.initial_timestamp_mean timestamp c.max_offset
    then average_initial c timestamp
    else if is_next_expected c timestamp
    then record c { received_next_timestamps = c.received_next_timestamps ++ timestamp ∷ [] }
    else c
