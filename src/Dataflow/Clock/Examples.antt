-- ===== src/Dataflow/Clock/Examples.antt =====
-- The theorems about the clock of a time domain at a concrete one.
use traact_core.Prelude.{◌*◌, ◌≡◌, refl, [], ◌∷◌, arith}
use traact_core.Prelude.Int.{pos, ◌+ℤ◌, ◌≤ℤ◌}
use traact_core.Dataflow.Clock.{TimeDomainClock, mean_timestamp}
use traact_core.Dataflow.Clock.Laws.{advance_times, expected-advance_times}
use traact_core.Dataflow.Clock.Mean.{mean_timestamp_bounds}

abbrev clock : TimeDomainClock
clock = record {
  weights = record { scale_0 = λ t. 0; scale_1 = λ t. 0; blend = λ d t. 33 };
  max_offset = pos 5;
  sensor_delta_mean = pos 33;
  current_time_step = 3;
  initial_timestamp_mean = pos 1000;
  current_timestamp = pos 1066;
  expected_next_timestamp = pos 1099;
  received_next_timestamps = [];
}

expected-advance_times_example :
    (advance_times 4 clock).expected_next_timestamp ≡ pos 1099 +ℤ pos (4 * 33)
expected-advance_times_example = expected-advance_times 4 clock 33 refl refl

mean_timestamp_bounds_example :
    (pos 1098 ≤ℤ mean_timestamp (pos 1098 ∷ pos 1101 ∷ []))
    × (mean_timestamp (pos 1098 ∷ pos 1101 ∷ []) ≤ℤ pos 1101)
mean_timestamp_bounds_example =
    mean_timestamp_bounds 1098 1101 (pos 1098) (pos 1101 ∷ [])
      ((omega arith, omega arith), ((omega arith, omega arith), tt)) (omega arith) (omega arith)
