-- ===== src/Datatypes.antt =====
-- include/traact/datatypes.h: timestamps, event types and the time domain configuration.
-- A timestamp or a duration is its count of nanoseconds, an `int64_t`.
pub mod Range
use traact_core.Prelude.{ℕ, zero, ◌≤◌, ◌<◌, ◌^◌, Bool, ◌&&◌}
use traact_core.Prelude.Int.{ℤ, pos, negsuc, ◌+ℤ◌, ◌-ℤ◌, ◌≤ℤ◌, ◌<ℤ◌, leb_ℤ}

abbrev pub TimeDuration : Type 0
TimeDuration = ℤ

abbrev pub Timestamp : Type 0
Timestamp = ℤ

abbrev pub timestamp_zero : Timestamp
timestamp_zero = pos 0

pub data EventType : Type 0 where
  invalid configure start event_data parameter_change stop teardown : EventType
  dataflow_no_op dataflow_stop : EventType

pub data SourceMode : Type 0 where
  wait_for_buffer immediate_return : SourceMode

pub data MissingSourceEventMode : Type 0 where
  wait_for_event cancel_oldest : MissingSourceEventMode

pub data BaseType : Type 0 where
  unknown int_8 uint_8 int_16 uint_16 int_32 float_16 float_32 float_64 : BaseType

unfoldable pub get_bytes : BaseType → ℕ
get_bytes BaseType.int_8 = 1
get_bytes BaseType.uint_8 = 1
get_bytes BaseType.int_16 = 2
get_bytes BaseType.uint_16 = 2
get_bytes BaseType.float_16 = 2
get_bytes BaseType.int_32 = 4
get_bytes BaseType.float_32 = 4
get_bytes BaseType.float_64 = 8
get_bytes BaseType.unknown = 0

pub data Concurrency : Type 0 where
  unlimited serial : Concurrency

-- `isWithinRange`: the windows of half width `max_offset` round the two timestamps meet.
unfoldable pub is_within_range : Timestamp → Timestamp → TimeDuration → Bool
is_within_range value_0 value_1 max_offset =
    let ts0_min = value_0 -ℤ max_offset in
    let ts0_max = value_0 +ℤ max_offset in
    let ts1_min = value_1 -ℤ max_offset in
    let ts1_max = value_1 +ℤ max_offset in leb_ℤ ts1_min ts0_max && leb_ℤ ts0_min ts1_max

-- The integers of an `int64_t`.
abbrev pub IsInt64 : ℤ → Type 0
IsInt64 (pos n) = n < 2 ^ 63
IsInt64 (negsuc n) = n < 2 ^ 63

-- `TimeDomainManagerConfig`, less `sensor_frequency`, a double that only the clock uses.
pub record TimeDomainManagerConfig : Type 0 where
  pub time_domain : ℤ
  pub ringbuffer_size : ℕ
  pub max_offset : TimeDuration
  pub max_delay : TimeDuration
  pub source_mode : SourceMode
  pub missing_source_event_mode : MissingSourceEventMode
  pub cpu_count : ℤ
  pub profile : Bool
