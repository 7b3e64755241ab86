-- ===== src/Dataflow/Clock/Laws.antt =====
-- How `TimeDomainClock` of src/traact/dataflow/taskflow/TimeDomainClock.cpp classifies and
-- advances time.
use traact_core.Prelude.{ℕ, zero, suc, ◌*◌, ◌≡◌, refl, ◌∙◌, ap, ◌⊎◌, true, false, [], arith}
use traact_core.Prelude.Int.{pos, ◌+ℤ◌, ◌≤ℤ◌, ◌<ℤ◌, +ℤ_parts, -ℤ_parts, int_laws}
use traact_core.Datatypes.{Timestamp, is_within_range}
use traact_core.Dataflow.Clock.{
  TimeDomainClock, is_next_expected, is_further_ahead, get_next_expected, new_timestamp, next_delta,
}

-- With a non-negative offset a timestamp is the next expected one, or further ahead, or more than
-- two offsets before it, and only one of the three.
pub next_expected_trichotomy :
    (c : TimeDomainClock) (t : Timestamp) (m : ℕ)
    → c.max_offset ≡ pos m
    → ((is_next_expected c t ≡ true)
        × (is_further_ahead c t ≡ false)
        × (c.expected_next_timestamp ≤ℤ t +ℤ pos (2 * m)))
      ⊎ (((is_next_expected c t ≡ false)
            × (is_further_ahead c t ≡ true)
            × (c.expected_next_timestamp +ℤ pos (2 * m) <ℤ t))
          ⊎ ((is_next_expected c t ≡ false)
              × (is_further_ahead c t ≡ false)
              × (t +ℤ pos (2 * m) <ℤ c.expected_next_timestamp)))
unfolding is_next_expected is_further_ahead is_within_range
next_expected_trichotomy c t m h = ground (
  arith,
  +ℤ_parts c.expected_next_timestamp c.max_offset,
  -ℤ_parts t c.max_offset,
  -ℤ_parts c.expected_next_timestamp c.max_offset,
  +ℤ_parts t c.max_offset,
  +ℤ_parts c.expected_next_timestamp (pos (2 * m)),
  +ℤ_parts t (pos (2 * m)),
)

-- `getNextExpectedTimestamp` hands out the expected timestamp, makes it the current one, expects
-- the next one a sensor period later and forgets the timestamps received; it keeps the initial
-- timestamp and the offset, and with nothing received it keeps the period too.
pub get_next_expected_advances :
    (c : TimeDomainClock)
    → let (t, d) = get_next_expected c in
      (t ≡ c.expected_next_timestamp)
      × (d.current_timestamp ≡ t)
      × (d.expected_next_timestamp ≡ t +ℤ d.sensor_delta_mean)
      × (d.received_next_timestamps ≡ [])
      × (d.initial_timestamp_mean ≡ c.initial_timestamp_mean)
      × (d.max_offset ≡ c.max_offset)
      × (c.received_next_timestamps ≡ [] → d.sensor_delta_mean ≡ c.sensor_delta_mean)
unfolding get_next_expected
get_next_expected_advances c = (refl, refl, refl, refl, refl, refl, λ e. rw (e, next_delta))

-- The clock after `n` calls of `getNextExpectedTimestamp`.
pub advance_times : ℕ → TimeDomainClock → TimeDomainClock
advance_times zero c = c
advance_times (suc n) c = advance_times n (get_next_expected c).1

-- With nothing received in between, `n` calls of `getNextExpectedTimestamp` move the expected
-- timestamp on by `n` sensor periods.
pub expected-advance_times :
    (n : ℕ) (c : TimeDomainClock) (period : ℕ)
    → c.received_next_timestamps ≡ []
    → c.sensor_delta_mean ≡ pos period
    → (advance_times n c).expected_next_timestamp ≡ c.expected_next_timestamp +ℤ pos (n * period)
unfolding advance_times get_next_expected
expected-advance_times zero c p r e = omega int_laws
expected-advance_times (suc n) c p r e =
    expected-advance_times n (get_next_expected c).1 p (get_next_expected_advances c).3
      (period_kept)
    ∙ ap (λ t. t +ℤ pos (n * p)) (x ∙ ap (λ d. c.expected_next_timestamp +ℤ d) period_kept)
    ∙ omega int_laws
  where
    period_kept : (get_next_expected c).1.sensor_delta_mean ≡ pos p
    period_kept = (get_next_expected_advances c).6 r ∙ e

    x :
        (get_next_expected c).1.expected_next_timestamp
        ≡ c.expected_next_timestamp +ℤ (get_next_expected c).1.sensor_delta_mean
    x = (get_next_expected_advances c).2

-- The first timestamp that the clock is given becomes its initial, current and expected one.
pub new_timestamp_first :
    (c : TimeDomainClock) (t : Timestamp)
    → c.initial_timestamp_mean ≡ pos 0
    → let d = new_timestamp t c in
      (d.initial_timestamp_mean ≡ t) × (d.expected_next_timestamp ≡ t) × (d.current_timestamp ≡ t)
unfolding new_timestamp
new_timestamp_first c t h = ground arith
