-- ===== src/Dataflow/Scheduler/Padding.antt =====
-- The padding loop of `requestSourceBufferNewTimestampWait`.
use traact_core.Prelude.{
  ℕ, zero, suc, ◌*◌, ◌<◌, ◌≡◌, refl, sym, ap, ap₂, subst, ◌∙◌, [], ◌∷◌, true, false, arith,
}
use traact_core.Prelude.Int.{pos, ◌+ℤ◌, ◌<ℤ◌, ◌≤ℤ◌, +ℤ_parts, -ℤ_parts}
use traact_core.Exceptions.{Result, ok, out_of_fuel, ◌>>=◌}
use traact_core.Datatypes.{Timestamp, EventType, is_within_range}
use traact_core.Dataflow.Clock.{TimeDomainClock, get_next_expected, is_next_expected_or_bigger}
use traact_core.Dataflow.Clock.Laws.{get_next_expected_advances}
use traact_core.Dataflow.Scheduler.State.{Scheduler, ScheduledEvent, scheduled_event}
use traact_core.Dataflow.Scheduler.Slots.{schedule_padding_event}
use traact_core.Dataflow.Scheduler.Request.{next_expected, padding_loop}
use traact_core.Dataflow.Scheduler.Scheduling.{IsConsistent, Scheduled, enqueue-Scheduled}

-- The clock and the latest scheduled timestamp are no part of the invariant.
IsConsistent-clock :
    (s : Scheduler) (c : TimeDomainClock) (ts : Timestamp)
    → IsConsistent s
    → IsConsistent (record s { latest_scheduled_ts = ts; time_domain_clock = c })
IsConsistent-clock s c ts v = record {
  ring = record {
    fits = v.ring.fits;
    some_steps = v.ring.some_steps;
    placed = v.ring.placed;
    youngest = v.ring.youngest;
    open_locks = v.ring.open_locks;
    stamped = v.ring.stamped;
    widths = v.ring.widths;
  };
  capped = v.capped;
  within = v.within;
  waiting = v.waiting;
  placeable = v.placeable;
}

-- The scheduler as the first round of the loop hands it to `schedulePaddingEvent`.
abbrev pub advanced : Scheduler → Scheduler
advanced s = record s {
  latest_scheduled_ts = s.time_domain_clock.expected_next_timestamp;
  time_domain_clock = (get_next_expected s.time_domain_clock).1;
}

abbrev pub padding_event : Scheduler → ℕ → ScheduledEvent
padding_event s component_index =
    scheduled_event s.time_domain_clock.expected_next_timestamp EventType.event_data
      (component_index ∷ [])

-- One round of the loop: a padding event for the expected timestamp, and then the test.
padding_round :
    (fuel : ℕ) (ts : Timestamp) (component_index : ℕ) (s : Scheduler)
    → IsConsistent s
    → component_index < s.count_sources
    → (t : Scheduler) × (padding_loop (suc fuel) ts component_index s
        ≡ (elim (is_next_expected_or_bigger t.time_domain_clock ts) [
          | true ↦ ok t
          | false ↦ padding_loop fuel ts component_index t
        ]))
      × Scheduled (padding_event s component_index) (advanced s) t
unfolding padding_loop next_expected schedule_padding_event get_next_expected
padding_round fuel ts component_index s v h =
    let (t, done, after) =
      enqueue-Scheduled (padding_event s component_index) (advanced s)
        (IsConsistent-clock s (get_next_expected s.time_domain_clock).1
          s.time_domain_clock.expected_next_timestamp v)
        (record { distinct = (tt, tt); known = (h, tt) }) in
    (
      t,
      ap
          (λ (r : Result Scheduler). r >>= λ u.
            elim (is_next_expected_or_bigger u.time_domain_clock ts) [
              | true ↦ ok u
              | false ↦ padding_loop fuel ts component_index u
            ])
          done,
      after,
    )

late_is_next :
    (c : TimeDomainClock) (ts : Timestamp) (m : ℕ)
    → c.max_offset ≡ pos m
    → c.expected_next_timestamp ≤ℤ ts +ℤ pos (2 * m)
    → is_next_expected_or_bigger c ts ≡ true
unfolding is_next_expected_or_bigger is_within_range
late_is_next c ts m e h = ground (
  arith,
  +ℤ_parts c.expected_next_timestamp c.max_offset,
  -ℤ_parts ts c.max_offset,
  -ℤ_parts c.expected_next_timestamp c.max_offset,
  +ℤ_parts ts c.max_offset,
  +ℤ_parts ts (pos (2 * m)),
)

-- What one advance does to a clock that noted no timestamps.
advanced_clock :
    (c : TimeDomainClock) (m period : ℕ)
    → c.max_offset ≡ pos m
    → c.received_next_timestamps ≡ []
    → c.sensor_delta_mean ≡ pos period
    → ((get_next_expected c).1.max_offset ≡ pos m)
      × ((get_next_expected c).1.expected_next_timestamp ≡ c.expected_next_timestamp +ℤ pos period)
advanced_clock c m period e r d = (
  (get_next_expected_advances c).5 ∙ e,
  (get_next_expected_advances c).2
      ∙ ap₂ (λ a b. a +ℤ b) (get_next_expected_advances c).0
          ((get_next_expected_advances c).6 r ∙ d),
)

-- If no timestamp of another source was noted, and the timestamp is not more than two offsets
-- before the one that is expected after the next (the expected one plus the sensor period), then the
-- loop ends after its first round, however many timestamps were missed: exactly one padding event is
-- scheduled.
pub padding_loop-once :
    (fuel : ℕ) (ts : Timestamp) (component_index : ℕ) (s : Scheduler) (m period : ℕ)
    → IsConsistent s
    → component_index < s.count_sources
    → s.time_domain_clock.max_offset ≡ pos m
    → s.time_domain_clock.received_next_timestamps ≡ []
    → s.time_domain_clock.sensor_delta_mean ≡ pos period
    → s.time_domain_clock.expected_next_timestamp +ℤ pos period ≤ℤ ts +ℤ pos (2 * m)
    → (t : Scheduler) × (padding_loop (suc fuel) ts component_index s ≡ ok t)
      × Scheduled (padding_event s component_index) (advanced s) t
padding_loop-once fuel ts component_index s m period v h e r d late =
    let (offset, moved) = advanced_clock s.time_domain_clock m period e r d in
    let stop : is_next_expected_or_bigger (get_next_expected s.time_domain_clock).1 ts ≡ true =
      late_is_next (get_next_expected s.time_domain_clock).1 ts m offset
        (subst (λ z. z ≤ℤ ts +ℤ pos (2 * m)) (sym moved) late) in
    let (t, round, after) = padding_round fuel ts component_index s v h in
    let again : is_next_expected_or_bigger t.time_domain_clock ts ≡ true =
      ap (λ c. is_next_expected_or_bigger c ts) after.5 ∙ stop in
    (t, round ∙ rw again, after)

early_not_next :
    (c : TimeDomainClock) (ts : Timestamp) (m : ℕ)
    → c.max_offset ≡ pos m
    → ts +ℤ pos (2 * m) <ℤ c.expected_next_timestamp
    → is_next_expected_or_bigger c ts ≡ false
unfolding is_next_expected_or_bigger is_within_range
early_not_next c ts m e h = ground (
  arith,
  +ℤ_parts c.expected_next_timestamp c.max_offset,
  -ℤ_parts ts c.max_offset,
  -ℤ_parts c.expected_next_timestamp c.max_offset,
  +ℤ_parts ts c.max_offset,
  +ℤ_parts ts (pos (2 * m)),
)

-- If the timestamp is more than two offsets before the one that is expected after the next, and no
-- timestamp of another source was noted, then the loop never ends: it goes on scheduling
-- padding events for ever later timestamps, whatever the fuel.
pub padding_loop-diverges :
    (fuel : ℕ) (ts : Timestamp) (component_index : ℕ) (s : Scheduler) (m period : ℕ)
    → IsConsistent s
    → component_index < s.count_sources
    → s.time_domain_clock.max_offset ≡ pos m
    → s.time_domain_clock.received_next_timestamps ≡ []
    → s.time_domain_clock.sensor_delta_mean ≡ pos period
    → ts +ℤ pos (2 * m) <ℤ s.time_domain_clock.expected_next_timestamp +ℤ pos period
    → padding_loop fuel ts component_index s ≡ out_of_fuel
unfolding padding_loop
padding_loop-diverges zero ts component_index s m period v h e r d late = refl
padding_loop-diverges (suc fuel) ts component_index s m period v h e r d late =
    round
    ∙ rw
        (early_not_next t.time_domain_clock ts m offset
          (subst (λ x. ts +ℤ pos (2 * m) <ℤ x) (sym moved) late))
        (padding_loop-diverges fuel ts component_index t m period after.0
          (subst (λ n. component_index < n) (sym after.2) h) offset nothing same
          (subst (λ x. ts +ℤ pos (2 * m) <ℤ x +ℤ pos period) (sym moved)
            (omega (
              arith,
              +ℤ_parts (s.time_domain_clock.expected_next_timestamp +ℤ pos period) (pos period),
            ))))
  where
    t : Scheduler
    t = (padding_round fuel ts component_index s v h).0

    round :
        padding_loop (suc fuel) ts component_index s
        ≡ (elim (is_next_expected_or_bigger t.time_domain_clock ts) [
          | true ↦ ok t
          | false ↦ padding_loop fuel ts component_index t
        ])
    round = (padding_round fuel ts component_index s v h).1

    after : Scheduled (padding_event s component_index) (advanced s) t
    after = (padding_round fuel ts component_index s v h).2

    clock : t.time_domain_clock ≡ (get_next_expected s.time_domain_clock).1
    clock = after.5

    kept : (get_next_expected s.time_domain_clock).1.sensor_delta_mean ≡ pos period
    kept = (get_next_expected_advances s.time_domain_clock).6 r ∙ d

    offset : t.time_domain_clock.max_offset ≡ pos m
    offset = ap (λ c. c.max_offset) clock ∙ (get_next_expected_advances s.time_domain_clock).5 ∙ e

    nothing : t.time_domain_clock.received_next_timestamps ≡ []
    nothing =
        ap (λ c. c.received_next_timestamps) clock
        ∙ (get_next_expected_advances s.time_domain_clock).3

    same : t.time_domain_clock.sensor_delta_mean ≡ pos period
    same = ap (λ c. c.sensor_delta_mean) clock ∙ kept

    moved :
        t.time_domain_clock.expected_next_timestamp
        ≡ s.time_domain_clock.expected_next_timestamp +ℤ pos period
    moved =
        ap (λ c. c.expected_next_timestamp) clock
        ∙ (get_next_expected_advances s.time_domain_clock).2
        ∙ ap₂ (λ a b. a +ℤ b) (get_next_expected_advances s.time_domain_clock).0 kept
